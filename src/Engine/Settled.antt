-- ===== src/Engine/Settled.antt =====
-- engine.py `_settle_at_boundary`: what a settlement does to the ledger.
use trading_system_v.Engine.Charged.{
  IsDue, Exhausts, Charge, charged-IsRun, charged_position, collected_whole, collected_short,
  same_price,
}
use trading_system_v.Types.Enums.{MarketType, futures, spot}
use trading_system_v.Prelude.{arith, ◌<◌, ◌↔◌}
use trading_system_v.Engine.Funding.{charged_trade}
use trading_system_v.Costs.Funding.{elem}
use trading_system_v.Execution.Book.{applied_cost}
use trading_system_v.Execution.Book.FundingMargin.{exhausted_iff}
use trading_system_v.Engine.Run.{IsRun}
use trading_system_v.Prelude.{
  ℕ, ◌≡◌, ◌∙◌, refl, sym, ap, subst, Bool, true, false, ◌&&◌, if◌then◌else◌, Option, none, some,
}
use trading_system_v.Prelude.Int.{ℤ, ◌+ℤ◌}
use trading_system_v.Prelude.Result.{Result, ok, ok-injective}
use trading_system_v.Prelude.Exec.{◌>>=◌, check, step_ok}
use trading_system_v.Types.Position.{Position}
use trading_system_v.Costs.Model.{CostModel}
use trading_system_v.Costs.Funding.{settle, is_boundary}
use trading_system_v.Execution.Book.{Book, apply_funding, FundingMarginResult}
use trading_system_v.Execution.Book.Keyed.{apply_funding-IsCharged}
use trading_system_v.Engine.Held.{own_key}
use trading_system_v.Engine.{
  RunConfig, Environment, ActiveTrade, Engine, current_position, maintenance_margin_rate, on_book,
}
use trading_system_v.Engine.Funding.{
  funding_price, rate_at, rates_after, is_due, now_held, after_charge, settle_due, settle_held,
  settle_at_boundary, charge_trade, is_futures,
}
use trading_system_v.Engine.Liquidated.{SettledRun, idle, after_run}

not_here :
    (m : MarketType) (here : Bool) → m ≡ futures → here ≡ true → (is_futures m && here) ≡ false → ⊥
not_here spot here market k h = cc
not_here futures here market k h = ground arith

both_true :
    (m : MarketType) (here : Bool) → (is_futures m && here) ≡ true → (m ≡ futures) × (here ≡ true)
both_true spot here h = cc
both_true futures here h = (refl, h)

some-injective : {A : Type 0} {x y : A} → some x ≡ some y → x ≡ y
some-injective h = cc

module _ (environment : Environment) (config : RunConfig) (model : CostModel) where
  due_run :
      (p : Position) (a : ActiveTrade) (boundary : ℕ) (e e' : Engine) (u : Unit {0}) (total : ℤ)
      → IsRun config e total
      → IsDue config boundary e p a
      → settle_due environment config model p a boundary e ≡ (ok u, e')
      → SettledRun environment config model boundary e total e'
  unfolding settle_due on_book
  due_run p a boundary e e' u total run due h =
      let rate = rate_at environment config model p.symbol boundary e in
      let rates = rates_after environment config model p.symbol boundary e in
      let e1 : Engine = record e { funding_rates = rates } in
      let (price, found, h1) = step_ok (funding_price boundary e1) _ _ h in
      let (cost, costed, h2) = step_ok (settle p rate.0 price.0) _ _ h1 in
      let (mmr, _, h3) = step_ok (maintenance_margin_rate model) _ _ h2 in
      let (r, paid, h4) = step_ok (apply_funding p.symbol p.side cost mmr e1.book).0 _ _ h3 in
      let b : Book = (apply_funding p.symbol p.side cost mmr e1.book).1 in
      let x = apply_funding-IsCharged p.symbol p.side cost mmr e1.book b r (λ i. (paid i, b)) in
      let (symbol, direction, _) = own_key config e p run.keyed due.held in
      let e2 : Engine = charge_trade a boundary rate price r (record e1 { book = b }) in
      let (q, level, q_is, r_is, held, at, margin) =
        charged_position environment config model p cost r e e2 total run due.held x in
      let run2 =
        charged-IsRun config p a _ cost r e e2 total run due.held due.active x refl refl refl
          (refl, refl) in
      let collected = ap (λ (y : FundingMarginResult). y.applied_cost) r_is in
      let c : Charge environment config model boundary e e2 cost = record {
        before = p;
        after = q;
        opened = a;
        settled = charged_trade boundary r _ a;
        price = price;
        level = level;
        collected = applied_cost cost p.margin;
        due = due;
        priced = sym (same_price environment config model boundary e rates) ∙ found;
        costed = costed;
        whole = collected_whole environment config model cost p.margin margin;
        short = collected_short environment config model cost p.margin margin;
        charged = q_is;
        held = held;
        active = refl;
        funding = ap (λ n. a.funding +ℤ n) collected;
        fees = refl;
        marked = refl;
        cash = refl;
        trades = refl;
      } in
      after_run environment config model r.exhausted boundary e e2 e' u total cost c
        (ap (λ (y : Position). y.symbol) q_is ∙ symbol)
        (λ k. direction (sym (ap (λ (y : Position). y.side) q_is) ∙ k))
        (subst (λ t. (t ≡ true) ↔ Exhausts p cost)
          (ap (λ (y : FundingMarginResult). y.exhausted) (sym r_is)) (exhausted_iff p cost margin))
        run2
        (subst
          (λ y.
            after_charge environment config model r.exhausted y price.0 boundary e2 ≡ (ok u, e'))
          (ap (now_held p) at) h4)

  idle_run :
      (boundary : ℕ) (e e' : Engine) (u : Unit {0}) (total : ℤ)
      → IsRun config e total
      → ((p : Position) (a : ActiveTrade) → IsDue config boundary e p a → ⊥)
      → ◌≡◌ {A = Result (Unit {0}) × Engine} (ok tt, e) (ok u, e')
      → SettledRun environment config model boundary e total e'
  idle_run boundary e e' u total run nothing h =
      let same = ap (λ (x : Result (Unit {0}) × Engine). x.1) h in
      idle (sym same) nothing (subst (λ x. IsRun config x total) same run)

  due_there :
      (boundary : ℕ) (a : ActiveTrade)
      → is_due boundary a ≡ true
      → (a.entry_fill.timestamp < boundary) × (elem boundary a.settled_boundaries ≡ false)
  due_there boundary a h = (ground arith, ground arith)

  not_due :
      (boundary : ℕ) (e : Engine) (p q : Position) (a b : ActiveTrade)
      → e.active_trade ≡ some a
      → is_due boundary a ≡ false
      → IsDue config boundary e q b
      → ⊥
  not_due boundary e p q a b active h d =
      let same : a ≡ b = some-injective (sym active ∙ d.active) in
      let h' : is_due boundary b ≡ false = ap (is_due boundary) (sym same) ∙ h in
      ground (arith, d.entered, d.unsettled)

  due_or_not :
      (due : Bool) (p : Position) (a : ActiveTrade) (boundary : ℕ) (e e' : Engine) (u : Unit {0})
      (total : ℤ)
      → is_due boundary a ≡ due
      → config.market_type ≡ futures
      → is_boundary boundary ≡ true
      → IsRun config e total
      → current_position config e ≡ ok (some p)
      → e.active_trade ≡ some a
      → (if due then settle_due environment config model p a boundary e else (ok tt, e))
        ≡ (ok u, e')
      → SettledRun environment config model boundary e total e'
  due_or_not true p a boundary e e' u total test market here run one active h =
      let (entered, unsettled) = due_there boundary a test in
      due_run p a boundary e e' u total run
        (record {
          future = market;
          on_boundary = here;
          held = one;
          active = active;
          entered = entered;
          unsettled = unsettled;
        })
        h
  due_or_not false p a boundary e e' u total test market here run one active h =
      idle_run boundary e e' u total run (λ q b d. not_due boundary e p q a b active test d) h

  held_run :
      (p : Option Position) (a : Option ActiveTrade) (boundary : ℕ) (e e' : Engine) (u : Unit {0})
      (total : ℤ)
      → config.market_type ≡ futures
      → is_boundary boundary ≡ true
      → IsRun config e total
      → current_position config e ≡ ok p
      → e.active_trade ≡ a
      → settle_held environment config model p a boundary e ≡ (ok u, e')
      → SettledRun environment config model boundary e total e'
  unfolding settle_held
  held_run (some p) (some a) boundary e e' u total market here run one active h =
      due_or_not (is_due boundary a) p a boundary e e' u total refl market here run one active h
  held_run none a boundary e e' u total market here run one active h =
      idle_run boundary e e' u total run
        (λ q b d. let k : none ≡ some q = ok-injective (sym one ∙ d.held) in cc) h
  held_run (some p) none boundary e e' u total market here run one active h =
      idle_run boundary e e' u total run
        (λ q b d. let k : none ≡ some b = sym active ∙ d.active in cc) h

  boundary_run :
      (here : Bool) (boundary : ℕ) (e e' : Engine) (u : Unit {0}) (total : ℤ)
      → (is_futures config.market_type && is_boundary boundary) ≡ here
      → IsRun config e total
      → (if here
          then ◌>>=◌ {B = Unit {0}}
              (check (current_position config))
              (λ p. settle_held environment config model p e.active_trade boundary)
              e
          else (ok tt, e))
        ≡ (ok u, e')
      → SettledRun environment config model boundary e total e'
  boundary_run false boundary e e' u total test run h =
      idle_run boundary e e' u total run
        (λ p a d. not_here config.market_type (is_boundary boundary) d.future d.on_boundary test) h
  boundary_run true boundary e e' u total test run h =
      let (market, here) = both_true config.market_type (is_boundary boundary) test in
      let (p, one, h1) = step_ok (current_position config e) _ _ h in
      held_run p e.active_trade boundary e e' u total market here run one refl h1

  -- A settlement of a sound run that returns finds no futures position that is due at the
  -- boundary and changes nothing; or it charges the position, with at most the margin collected
  -- of the cost at the boundary's rate and price, from the margin and as funding of the trade,
  -- and the total of the ledger stays; or, exactly when a positive cost takes the whole margin,
  -- it goes on to apply the fill that liquidates the charged position at the price of the
  -- charge, whose PnL the total takes up.
  pub settle-SettledRun :
      (boundary : ℕ) (e e' : Engine) (u : Unit {0}) (total : ℤ)
      → IsRun config e total
      → settle_at_boundary environment config model boundary e ≡ (ok u, e')
      → SettledRun environment config model boundary e total e'
  unfolding settle_at_boundary
  settle-SettledRun boundary e e' u total run h =
      boundary_run (is_futures config.market_type && is_boundary boundary) boundary e e' u total
        refl run h
