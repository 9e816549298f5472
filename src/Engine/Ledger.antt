-- ===== src/Engine/Ledger.antt =====
-- engine.py `_apply_fill`: the ledger of a run. Cash, the margin of the held position, the costs of
-- the open trade and those of the trades that are booked add up to what the run has earned.
use trading_system_v.Engine.Trades.{closed_trade}
use trading_system_v.Prelude.{
  ℕ, suc, ◌≡◌, ◌≢◌, ◌∙◌, refl, sym, ap, subst, Bool, true, false, if◌then◌else◌, Option, none, some,
  List, [], ◌∷◌,
}
use mathlib.Core.List.{◌++◌}
use trading_system_v.Prelude.Int.{
  ℤ, pos, ◌+ℤ◌, ◌-ℤ◌, ◌≤ℤ◌, int_laws, eq_of_parts, pos_part, neg_part,
}
use trading_system_v.Prelude.Result.{Result, ok, err, ok-injective}
use trading_system_v.Prelude.Exec.{◌>>=◌, check, step_ok}
use trading_system_v.Types.Enums.{both}
use trading_system_v.Types.Position.{Position}
use trading_system_v.Types.Fill.{Fill}
use trading_system_v.Types.Trade.{Trade}
use trading_system_v.Types.Signal.{TradingSignal}
use trading_system_v.Costs.Model.{CostModel}
use trading_system_v.Execution.Book.Holdings.{IsSound}
use trading_system_v.Engine.{RunConfig, ActiveTrade, Engine, current_position, leverage_of}
use trading_system_v.Engine.Fills.{
  margin_of, with_costs, actual_pnl, projected_entry_cash, record_execution, apply_entry,
  exit_of_both, apply_fill,
}
use trading_system_v.Engine.Entries.{costs_of, more_costs, IsEntry, apply_entry_lem}
use trading_system_v.Engine.Exits.{
  IsExit, TradeAfter, goes_on, is_booked, trade_from, apply_exit-IsExit,
}

-- The fees and the funding of the trades that are booked.
abbrev pub booked_costs : List Trade → ℤ
booked_costs [] = pos 0
booked_costs (t ∷ ts) = t.total_fee +ℤ t.funding_cost +ℤ booked_costs ts

booked_costs-append :
    (ts : List Trade) (t : Trade)
    → booked_costs (ts ++ t ∷ []) ≡ booked_costs ts +ℤ (t.total_fee +ℤ t.funding_cost)
booked_costs-append [] t = eq_of_parts _ _ (omega int_laws)
booked_costs-append (s ∷ ts) t = rw (booked_costs-append ts t) (eq_of_parts _ _ (omega int_laws))

-- The accounts add up to a total.
pub record IsBalanced (config : RunConfig) (e : Engine) (total : ℤ) : Type 0 where
  pub position : Option Position
  pub held : current_position config e ≡ ok position
  pub sum : e.cash +ℤ margin_of position +ℤ costs_of e.active_trade +ℤ booked_costs e.trades ≡ total

abbrev pnl_by : Bool → Fill → Result (Option Position) → ℤ
pnl_by true fill (ok (some p)) = actual_pnl p fill
pnl_by _ fill _ = pos 0

-- The PnL that a fill realizes: that of an exit from the held position.
unfoldable pub realized_pnl : RunConfig → Engine → Fill → ℤ
realized_pnl config e fill = pnl_by fill.reduce_only fill (current_position config e)

-- What a fill that was applied did.
pub data Applied (config : RunConfig) (fill : Fill) (before : Option Position) (e e' : Engine)
    : Type 0 where
  enters :
      fill.reduce_only ≡ false
      → IsEntry config fill (margin_of before) e e'
      → Applied config fill before e e'
  leaves :
      (p : Position) (a : ActiveTrade)
      → fill.reduce_only ≡ true
      → before ≡ some p
      → e.active_trade ≡ some a
      → IsExit config fill p a e e'
      → Applied config fill before e e'

-- The conditions under which the engine applies a fill: it is for the run's symbol and one
-- direction, and the book is sound.
pub record IsOwnFill (config : RunConfig) (e : Engine) (fill : Fill) : Type 0 where
  pub symbol : fill.symbol ≡ config.symbol
  pub direction : fill.position_side ≢ both
  pub sound : IsSound e.book

exit_at :
    (config : RunConfig) (fill : Fill) (n : ℕ) (before : Option Position) (e e1 e' : Engine)
    (u : Unit {0}) (active : Option ActiveTrade)
    → IsOwnFill config e1 fill
    → fill.reduce_only ≡ true
    → current_position config e1 ≡ ok before
    → exit_of_both config fill n before active e1 ≡ (ok u, e')
    → (p : Position) × (a : ActiveTrade) × (before ≡ some p)
      × (active ≡ some a)
      × IsExit config fill p a e1 e'
unfolding exit_of_both
exit_at config fill n (some p) e e1 e' u (some a) own exit held h = (
  p,
  a,
  refl,
  refl,
  apply_exit-IsExit config fill n p a e1 e' u own.symbol own.direction exit own.sound held h,
)
exit_at config fill n none e e1 e' u active own exit held h =
    let k = ap (λ (x : Result (Unit {0}) × Engine). x.0) h in cc
exit_at config fill n (some p) e e1 e' u none own exit held h =
    let k = ap (λ (x : Result (Unit {0}) × Engine). x.0) h in cc

-- The branches of `_apply_fill`.
Applied-at :
    (config : RunConfig) (model : CostModel) (fill : Fill) (d : Option ℕ)
    (signal : Option TradingSignal) (c : Option ℕ) (e e' : Engine) (u : Unit {0})
    (before : Option Position) (reduce_only : Bool)
    → IsOwnFill config e fill
    → fill.reduce_only ≡ reduce_only
    → current_position config e ≡ ok before
    → (if reduce_only
          then (record_execution d fill >>= λ n.
              λ x. exit_of_both config fill n before x.active_trade x)
          else (check (λ x. projected_entry_cash config fill (leverage_of signal) x.cash)
              >>= λ projected. record_execution d fill >>= λ n.
                  apply_entry config model fill signal c (margin_of before) projected n))
        e
      ≡ (ok u, e')
    → Applied config fill before e e'
unfolding record_execution current_position
Applied-at config model fill d signal c e e' u before true own k held h =
    let n = suc e.sequence.execution in
    let e1 = (record_execution d fill e).1 in
    let (p, a, at, active, x) =
      exit_at config fill n before e e1 e' u e.active_trade
        (record { symbol = own.symbol; direction = own.direction; sound = own.sound }) k held h in
    leaves p a k at active (record {
      opening = x.opening;
      applied = x.applied;
      left = x.left;
      held = x.held;
      balance = x.balance;
      cash_nonneg = x.cash_nonneg;
      trade = trade_from config (with_costs fill a) fill e e1 e' x.left refl x.trade;
    })
Applied-at config model fill d signal c e e' u before false own k held h =
    let (projected, _, h1) =
      step_ok (projected_entry_cash config fill (leverage_of signal) e.cash) _ _ h in
    let e1 = (record_execution d fill e).1 in
    let x =
      apply_entry_lem config model fill signal c (margin_of before) projected
        (suc e.sequence.execution) e1 e' u h1 in
    enters k (record {
      opening = x.opening;
      applied = x.applied;
      position = x.position;
      held = x.held;
      balance = x.balance;
      cash_nonneg = x.cash_nonneg;
      trades = x.trades;
      costs = x.costs;
    })

pub apply_fill_cases :
    (config : RunConfig) (model : CostModel) (fill : Fill) (d : Option ℕ)
    (signal : Option TradingSignal) (c : Option ℕ) (e e' : Engine) (u : Unit {0})
    → IsOwnFill config e fill
    → apply_fill config model fill d signal c e ≡ (ok u, e')
    → (before : Option Position) × (current_position config e ≡ ok before)
      × Applied config fill before e e'
unfolding apply_fill
apply_fill_cases config model fill d signal c e e' u own h =
    let (before, held, h1) = step_ok (current_position config e) _ _ h in
    (
      before,
      held,
      Applied-at config model fill d signal c e e' u before fill.reduce_only own refl held h1,
    )

-- Cash that has been applied is not negative.
applied_nonneg :
    (config : RunConfig) (fill : Fill) (before : Option Position) (e e' : Engine)
    → Applied config fill before e e'
    → pos 0 ≤ℤ e'.cash
applied_nonneg config fill before e e' (enters k x) = x.cash_nonneg
applied_nonneg config fill before e e' (leaves p a k at active x) = x.cash_nonneg

entry_sum :
    (cash cash' margin margin' costs costs' fee booked : ℤ)
    → cash' ≡ cash -ℤ (margin' -ℤ margin) -ℤ fee
    → costs' ≡ costs +ℤ fee
    → cash' +ℤ margin' +ℤ costs' +ℤ booked ≡ cash +ℤ margin +ℤ costs +ℤ booked +ℤ pos 0
entry_sum cash cash' margin margin' costs costs' fee booked h k =
    rw (h, k) (eq_of_parts _ _ (omega int_laws))

exit_sum :
    (cash cash' margin margin' costs costs' pnl fee booked booked' : ℤ)
    → cash' +ℤ margin' ≡ cash +ℤ margin +ℤ pnl -ℤ fee
    → costs' +ℤ booked' ≡ costs +ℤ fee +ℤ booked
    → cash' +ℤ margin' +ℤ costs' +ℤ booked' ≡ cash +ℤ margin +ℤ costs +ℤ booked +ℤ pnl
exit_sum cash cash' margin margin' costs costs' pnl fee booked booked' h k =
    eq_of_parts _ _ (omega (int_laws, ap pos_part h, ap neg_part h, ap pos_part k, ap neg_part k))

-- The costs of the trade move to the booked ones when it is booked.
costs_after :
    (config : RunConfig) (a : ActiveTrade) (fill : Fill) (e e' : Engine) (left : Option Position)
    → TradeAfter config (with_costs fill a) fill e e' left
    → costs_of e'.active_trade +ℤ booked_costs e'.trades
      ≡ costs_of (some a) +ℤ fill.fee +ℤ booked_costs e.trades
costs_after config a fill e e' (some p) (goes_on own trades) =
    rw (own, trades)
      (ap (λ x. x +ℤ booked_costs e.trades) (more_costs a.total_fee fill.fee a.funding))
costs_after config a fill e e' none (is_booked own stop target trades valid) =
    rw (own, trades, booked_costs-append e.trades (closed_trade config (with_costs fill a) fill))
      (eq_of_parts _ _ (omega int_laws))

pnl_of_exit :
    (config : RunConfig) (fill : Fill) (e : Engine) (p : Position)
    → fill.reduce_only ≡ true
    → current_position config e ≡ ok (some p)
    → realized_pnl config e fill ≡ actual_pnl p fill
unfolding realized_pnl
pnl_of_exit config fill e p k held =
    ap (λ b. pnl_by b fill (current_position config e)) k ∙ ap (pnl_by true fill) held

no_exit : (fill : Fill) (r : Result (Option Position)) → pnl_by false fill r ≡ pos 0
no_exit fill (ok none) = refl
no_exit fill (ok (some p)) = refl
no_exit fill (err x) = refl

no_pnl :
    (config : RunConfig) (fill : Fill) (e : Engine) (p : Option Position)
    → fill.reduce_only ≡ false
    → current_position config e ≡ ok p
    → realized_pnl config e fill ≡ pos 0
unfolding realized_pnl
no_pnl config fill e p k held =
    ap (λ b. pnl_by b fill (current_position config e)) k ∙ no_exit fill (current_position config e)

Applied-balance :
    (config : RunConfig) (fill : Fill) (e e' : Engine) (before : Option Position) (total : ℤ)
    → current_position config e ≡ ok before
    → e.cash +ℤ margin_of before +ℤ costs_of e.active_trade +ℤ booked_costs e.trades ≡ total
    → Applied config fill before e e'
    → IsBalanced config e' (total +ℤ realized_pnl config e fill)
Applied-balance config fill e e' before total held sum (enters k x) =
    rw (no_pnl config fill e before k held) (record {
      position = some x.position;
      held = x.held;
      sum =
          ap (λ t. e'.cash +ℤ x.position.margin +ℤ costs_of e'.active_trade +ℤ booked_costs t)
            x.trades
          ∙ entry_sum e.cash e'.cash (margin_of before) x.position.margin _ _ fill.fee
              (booked_costs e.trades) x.balance x.costs
          ∙ ap (λ t. t +ℤ pos 0) sum;
    })
Applied-balance config fill e e' before total held sum (leaves p a k at active x) =
    rw (pnl_of_exit config fill e p k (held ∙ ap ok at)) (record {
      position = x.left;
      held = x.held;
      sum =
          exit_sum e.cash e'.cash p.margin (margin_of x.left) (costs_of (some a))
            (costs_of e'.active_trade) (actual_pnl p fill) fill.fee (booked_costs e.trades)
            (booked_costs e'.trades) x.balance (costs_after config a fill e e' x.left x.trade)
          ∙ ap (λ t. t +ℤ actual_pnl p fill)
              (subst (λ o. e.cash +ℤ p.margin +ℤ costs_of o +ℤ booked_costs e.trades ≡ total) active
                (subst
                  (λ o.
                    e.cash +ℤ margin_of o +ℤ costs_of e.active_trade +ℤ booked_costs e.trades
                    ≡ total)
                  at sum));
    })

-- A fill that the engine applies, on its own symbol and a sound book, leaves cash that is not
-- negative, and keeps the ledger: cash, the margin of the position and the costs of the open and
-- of the booked trades add up to the total before and the PnL that the fill realizes, which is
-- that of an exit at its price.
pub apply_fill-IsBalanced :
    (config : RunConfig) (model : CostModel) (fill : Fill) (d : Option ℕ)
    (signal : Option TradingSignal) (c : Option ℕ) (e e' : Engine) (u : Unit {0}) (total : ℤ)
    → IsOwnFill config e fill
    → IsBalanced config e total
    → apply_fill config model fill d signal c e ≡ (ok u, e')
    → (pos 0 ≤ℤ e'.cash) × IsBalanced config e' (total +ℤ realized_pnl config e fill)
apply_fill-IsBalanced config model fill d signal c e e' u total own balanced h =
    let (before, held, step) = apply_fill_cases config model fill d signal c e e' u own h in
    let same : balanced.position ≡ before = ok-injective (sym balanced.held ∙ held) in
    (
      applied_nonneg config fill before e e' step,
      Applied-balance config fill e e' before total held
          (subst
            (λ o. e.cash +ℤ margin_of o +ℤ costs_of e.active_trade +ℤ booked_costs e.trades ≡ total)
            same balanced.sum)
          step,
    )
