-- ===== src/Engine/Pending.antt =====
-- The accounts never touch the orders that are pending.
use trading_system_v.Engine.Trades.{closed_trade, complete_trade, complete_records, snapshot}
use trading_system_v.Prelude.{
  arith, ℕ, suc, Bool, true, false, if◌then◌else◌, Option, none, some, ◌≡◌, refl,
}
use trading_system_v.Prelude.Int.{ℤ}
use trading_system_v.Prelude.Result.{Result, ok, err}
use trading_system_v.Prelude.Exec.{Exec}
use trading_system_v.Types.Position.{Position}
use trading_system_v.Types.Fill.{Fill}
use trading_system_v.Types.Signal.{TradingSignal}
use trading_system_v.Costs.Model.{CostModel}
use trading_system_v.Execution.Book.{Book}
use trading_system_v.Execution.Book
use trading_system_v.Engine.{Environment, RunConfig, ActiveTrade, Engine, on_book, leverage_of}
use trading_system_v.Prelude.{not}
use trading_system_v.Prelude.Int.{◌-ℤ◌, ◌+ℤ◌, eqb_ℤ, leb_ℤ, pos}
use trading_system_v.Prelude.Result.{runtime_error, arithmetic_error}
use trading_system_v.Money.{mul_units}
use trading_system_v.Types.Trade
use trading_system_v.Types.Position.{released_margin}
use trading_system_v.Execution.Book.{apply_funding}
use trading_system_v.Execution.Protection.{liquidation_fill}
use trading_system_v.Costs.Funding.{settle}
use trading_system_v.Prelude.{◌+◌}
use trading_system_v.Engine.{current_position, checked_cash, maintenance_margin_rate}
use trading_system_v.Engine.Funding.{rate_at, rates_after, funding_price}
use trading_system_v.Engine.Fills.{
  projected_entry_cash, held_position, actual_pnl, exit_context, no_terms, with_costs,
  entry_liquidation, opening, record_execution, enter_trade, apply_entry, leave_trade, apply_exit,
  exit_of_both, apply_fill, start_trade,
}
use trading_system_v.Engine.Funding.{
  liquidate, after_charge, settle_due, settle_held, settle_at_boundary, is_due, is_futures,
}
use trading_system_v.Costs.Funding.{is_boundary}
use trading_system_v.Prelude.{◌&&◌}

-- Whatever it returns or raises, the call leaves the pending orders as they were.
abbrev pub Keeps : {A : Type 0} → Exec Engine A → Type 0
Keeps m = (e : Engine) → (m e).1.pending ≡ e.pending

-- After a call that kept the orders, so does the chain if the rest of it does.
kept :
    {A B : Type 0} (call : Result A) (s : Engine) (rest : A → Result B × Engine) (e : Engine)
    → s.pending ≡ e.pending
    → ((a : A) → (rest a).1.pending ≡ e.pending)
    → (let r : Result B × Engine = elim call [ ok a ↦ rest a | err x ↦ (err x, s) ] in r).1.pending
      ≡ e.pending
kept (ok a) s rest e h k = k a
kept (err x) s rest e h k = h

Keeps-enter_trade :
    (n : ℕ) (fill : Fill) (signal : Option TradingSignal) (c : Option ℕ)
    → Keeps (enter_trade n fill signal c)
unfolding enter_trade start_trade
Keeps-enter_trade n fill signal c e = ground arith

Keeps-apply_entry :
    (config : RunConfig) (model : CostModel) (fill : Fill) (signal : Option TradingSignal)
    (c : Option ℕ) (before projected : ℤ) (n : ℕ)
    → Keeps (apply_entry config model fill signal c before projected n)
unfolding apply_entry on_book
Keeps-apply_entry config model fill signal c before projected n e =
    let leverage = leverage_of signal in
    kept (entry_liquidation config model fill leverage config.market_type) _ _ e refl (λ level.
      let b = Book.apply fill (opening config leverage level) e.book in
      let e2 = record e { book = b.1 } in
      kept b.0 _ _ e refl (λ done. kept (current_position config e2) _ _ e refl (λ after.
        kept (held_position "" after) _ _ e refl (λ p.
          let actual = e.cash -ℤ (p.margin -ℤ before) -ℤ fill.fee in
          kept
            (if not (eqb_ℤ actual projected)
              then err (runtime_error "entry cash projection diverged from position accounting")
              else ok tt)
            _ _ e refl
            (λ same.
              kept (checked_cash actual "entry fill") _ _ e refl
                (λ cash. Keeps-enter_trade n fill signal c (record e2 { cash = cash })))))))

Keeps-complete_trade :
    (config : RunConfig) (a : ActiveTrade) (fill : Fill) (n : ℕ)
    → Keeps (complete_trade config a fill n)
unfolding complete_trade complete_records snapshot
Keeps-complete_trade config a fill n e =
    kept
      (if eqb_ℤ (mul_units a.entry_fill.reference_price a.entry_fill.quantity) (pos 0)
        then err (arithmetic_error "division by zero")
        else ok tt)
      _ _ e refl
      (λ passed. kept (Trade.post_init (closed_trade config a fill)) _ _ e refl (λ trade. refl))

Keeps-leave_trade :
    (config : RunConfig) (a : ActiveTrade) (fill : Fill) (n : ℕ) (after : Option Position)
    → Keeps (leave_trade config a fill n after)
unfolding leave_trade
Keeps-leave_trade config a fill n (some p) e = refl
Keeps-leave_trade config a fill n none e =
    let s = complete_trade config a fill n e in
    kept s.0 s.1 _ e (Keeps-complete_trade config a fill n e)
      (λ done. Keeps-complete_trade config a fill n e)

Keeps-apply_exit :
    (config : RunConfig) (fill : Fill) (n : ℕ) (p : Position) (a : ActiveTrade)
    → Keeps (apply_exit config fill n p a)
unfolding apply_exit on_book
Keeps-apply_exit config fill n p a e =
    kept (if leb_ℤ p.quantity (pos 0) then err (arithmetic_error "division by zero") else ok tt) _ _
      e refl
      (λ passed.
        kept
          (checked_cash (e.cash +ℤ released_margin p fill.quantity +ℤ actual_pnl p fill -ℤ fill.fee)
            (exit_context fill.exit_reason))
          _ _ e refl
          (λ cash.
            let b = Book.apply fill no_terms e.book in
            kept b.0 _ _ e refl (λ done.
              let e2 = record e {
                book = b.1;
                cash = cash;
                active_trade = some (with_costs fill a);
              } in
              kept (current_position config e2) _ _ e refl
                (λ after. Keeps-leave_trade config (with_costs fill a) fill n after e2))))

Keeps-exit_of_both :
    (config : RunConfig) (fill : Fill) (n : ℕ) (before : Option Position)
    (active : Option ActiveTrade)
    → Keeps (exit_of_both config fill n before active)
unfolding exit_of_both
Keeps-exit_of_both config fill n (some p) (some a) e = Keeps-apply_exit config fill n p a e
Keeps-exit_of_both config fill n (some p) none e = refl
Keeps-exit_of_both config fill n none active e = refl

kept_if :
    {A : Type 0} (test : Bool) (x y : Result A × Engine) (e : Engine)
    → x.1.pending ≡ e.pending
    → y.1.pending ≡ e.pending
    → (if test then x else y).1.pending ≡ e.pending
kept_if true x y e h k = h
kept_if false x y e h k = k

kept_branch :
    {A : Type 0} (test : Bool) (m n : Exec Engine A) (e : Engine)
    → (m e).1.pending ≡ e.pending
    → (n e).1.pending ≡ e.pending
    → ((if test then m else n) e).1.pending ≡ e.pending
kept_branch true m n e h k = h
kept_branch false m n e h k = k

-- `_apply_fill` keeps the pending orders.
pub Keeps-apply_fill :
    (config : RunConfig) (model : CostModel) (fill : Fill) (d : Option ℕ)
    (signal : Option TradingSignal) (c : Option ℕ)
    → Keeps (apply_fill config model fill d signal c)
unfolding apply_fill record_execution
Keeps-apply_fill config model fill d signal c e =
    kept (current_position config e) _ _ e refl (λ before.
      kept_branch fill.reduce_only _ _ e
        (Keeps-exit_of_both config fill (suc e.sequence.execution) before e.active_trade _)
        (kept (projected_entry_cash config fill (leverage_of signal) e.cash) _ _ e refl
          (λ projected. Keeps-apply_entry config model fill signal c _ projected _ _)))

module _ (environment : Environment) (config : RunConfig) (model : CostModel) where
  Keeps-liquidate :
      (p : Position) (price : ℤ) (boundary : ℕ)
      → Keeps (liquidate environment config model p price boundary)
  unfolding liquidate
  Keeps-liquidate p price boundary e =
      kept (liquidation_fill environment.exit_id p price (boundary + 1000) model) _ _ e refl
        (λ fill. Keeps-apply_fill config model fill _ none none _)

  Keeps-after_charge :
      (exhausted : Bool) (p : Position) (price : ℤ) (boundary : ℕ)
      → Keeps (after_charge environment config model exhausted p price boundary)
  unfolding after_charge
  Keeps-after_charge true p price boundary e = Keeps-liquidate p price boundary e
  Keeps-after_charge false p price boundary e = refl

  Keeps-settle_due :
      (p : Position) (a : ActiveTrade) (boundary : ℕ)
      → Keeps (settle_due environment config model p a boundary)
  unfolding settle_due on_book
  Keeps-settle_due p a boundary e =
      let rate = rate_at environment config model p.symbol boundary e in
      let e1 : Engine = record e {
        funding_rates = rates_after environment config model p.symbol boundary e;
      } in
      kept (funding_price boundary e1) _ _ e refl (λ price.
        kept (settle p rate.0 price.0) _ _ e refl (λ cost.
          kept (maintenance_margin_rate model) _ _ e refl (λ mmr.
            kept (apply_funding p.symbol p.side cost mmr e1.book).0 _ _ e refl
              (λ r. Keeps-after_charge r.exhausted _ price.0 boundary _))))

  Keeps-settle_held :
      (p : Option Position) (a : Option ActiveTrade) (boundary : ℕ)
      → Keeps (settle_held environment config model p a boundary)
  unfolding settle_held
  Keeps-settle_held (some p) (some a) boundary e =
      kept_if (is_due boundary a) _ _ e (Keeps-settle_due p a boundary e) refl
  Keeps-settle_held (some p) none boundary e = refl
  Keeps-settle_held none a boundary e = refl

  -- `_settle_at_boundary` keeps the pending orders.
  pub Keeps-settle : (boundary : ℕ) → Keeps (settle_at_boundary environment config model boundary)
  unfolding settle_at_boundary
  Keeps-settle boundary e =
      kept_if (is_futures config.market_type && is_boundary boundary) _ _ e
        (kept (current_position config e) _ _ e refl
          (λ p. Keeps-settle_held p e.active_trade boundary e))
        refl
