-- ===== src/Engine/Open/Advance.antt =====
-- engine.py `step_open`: the accounts over the open of a bar.
use trading_system_v.Engine.Run.{IsRun}
use trading_system_v.Prelude.{
  ℕ, Option, none, some, List, [], ◌∷◌, ◌≡◌, ◌≢◌, refl, sym, subst, arith,
}
use trading_system_v.Prelude.Int.{ℤ, ◌+ℤ◌}
use trading_system_v.Prelude.Result.{ok}
use trading_system_v.Prelude.Exec.{step_ok}
use trading_system_v.Types.Enums.{both}
use trading_system_v.Types.Position.{Position}
use trading_system_v.Types.Fill.{Fill}
use trading_system_v.Types.Candle.{Candle}
use trading_system_v.Costs.Model.{CostModel}
use trading_system_v.Costs.Funding.{boundaries_between}
use trading_system_v.Execution.Protection.{resolve_triggers}
use trading_system_v.Execution.Protection.Exits.{FirstExit, here, later, resolve_some_lem}
use trading_system_v.Engine.{Environment, RunConfig, PendingOrder, Engine, current_position}
use trading_system_v.Engine.Entries.{costs_of}
use trading_system_v.Engine.Held.{own_key}
use trading_system_v.Engine.Funding.{settle_at_boundary}
use trading_system_v.Engine.Marks.{tracked, track_excursions}
use trading_system_v.Engine.{ActiveTrade}
use trading_system_v.Engine.Pending.{Keeps-settle}
use trading_system_v.Engine.Open.{
  entry_time, check_boundary, check_times, entry_limits, risk_budget, configure_execution, submit,
  with_reason, execute_pending, execute_all, settle_all, walk_triggers, exit_at_trigger,
  trigger_held, step_open,
}
use trading_system_v.Engine.Open.Filled.{IsFor, with_reason-IsFor, submit-IsSubmitted}
use trading_system_v.Engine.Open.Moves.{
  IsSame, Advances, stays, returns, onward, settle-Advances, settle_all-Advances, fill-onward,
}

-- An order of the run's symbol and one direction.
abbrev pub IsOwnOrder : RunConfig → PendingOrder → Type 0
IsOwnOrder config pending =
    (pending.request.symbol ≡ config.symbol) × (pending.request.position_side ≢ both)

abbrev pub AllOwn : RunConfig → List PendingOrder → Type 0
AllOwn config [] = Unit
AllOwn config (pending ∷ rest) = IsOwnOrder config pending × AllOwn config rest

-- The excursions change no cost of a trade.
tracked-own :
    (candle : Candle) (p : Position) (a : ActiveTrade)
    → costs_of (some (tracked candle p a)) ≡ costs_of (some a)
unfolding tracked
tracked-own candle p a = ground arith

at_option :
    (candle : Candle) (p : Position) (o : Option ActiveTrade)
    → costs_of (elim o [ none ↦ none | some a ↦ some (tracked candle p a) ]) ≡ costs_of o
at_option candle p none = refl
at_option candle p (some a) = tracked-own candle p a

tracked-costs :
    (candle : Candle) (p : Position) (e : Engine)
    → costs_of (track_excursions candle p e).active_trade ≡ costs_of e.active_trade
unfolding track_excursions
tracked-costs candle p e = at_option candle p e.active_trade

module _ (environment : Environment) (config : RunConfig) (model : CostModel) where
  execute_pending-Advances :
      (candle : Candle) (pending : PendingOrder) (e e' : Engine) (u : Unit {0}) (total : ℤ)
      → IsOwnOrder config pending
      → IsRun config e total
      → execute_pending environment config model candle pending e ≡ (ok u, e')
      → Advances environment config model e total e'
  unfolding execute_pending
  execute_pending-Advances candle pending e e' u total (symbol, directed) run h =
      let (_, _, h1) = step_ok (check_boundary candle pending) _ _ h in
      let (budget, _, h2) = step_ok (risk_budget environment config model pending e) _ _ h1 in
      let (context, _, h3) =
        step_ok
          (configure_execution config.fill_timing pending.decision_candle e.history
            (entry_limits budget pending e))
          _ _ h2 in
      let s = submit environment config model context pending.request e in
      let (submitted, done, h4) = step_ok s.0 s.1 _ h3 in
      let x =
        submit-IsSubmitted environment config model context pending.request submitted e s.1
          (λ i. (done i, s.1)) in
      let (fill, replaced, h5) = step_ok (with_reason pending.exit_reason submitted) _ _ h4 in
      let (_, _, h6) = step_ok (check_times pending fill) _ _ h5 in
      let (own, _, _, _) =
        with_reason-IsFor pending.exit_reason _ _ submitted fill x.own replaced in
      fill-onward environment config model fill pending.request.symbol pending.request.position_side
        _ _ _ e s.1 e' u total own symbol directed
        (subst (IsSame e) x.after
          (record { book = refl; cash = refl; costs = refl; trades = refl }))
        run h6

  execute_all-Advances :
      (candle : Candle) (orders : List PendingOrder) (e e' : Engine) (u : Unit {0}) (total : ℤ)
      → AllOwn config orders
      → IsRun config e total
      → execute_all environment config model candle orders e ≡ (ok u, e')
      → Advances environment config model e total e'
  unfolding execute_all
  execute_all-Advances candle [] e e' u total own run h =
      returns environment config model e e' u total run h
  execute_all-Advances candle (pending ∷ rest) e e' u total (own, others) run h =
      let s = execute_pending environment config model candle pending e in
      let (v, done, h1) = step_ok s.0 s.1 _ h in
      let x = execute_pending-Advances candle pending e s.1 v total own run (λ i. (done i, s.1)) in
      onward environment config model e s.1 e' total x
        (execute_all-Advances candle rest s.1 e' u (total +ℤ x.pnl) others x.run h1)

  FirstExit-IsFor :
      (p : Position) (stop take : Option ℤ) (entry : Option ℕ) (cs : List Candle) (f : Fill)
      → FirstExit environment.exit_id p model stop take entry cs f
      → IsFor p.symbol p.side f
  FirstExit-IsFor p stop take entry cs f (here reason level at counts exit reference x) = record {
    valid = x.valid;
    symbol_of = x.symbol;
    side_of = x.position_side;
  }
  FirstExit-IsFor p stop take entry cs f (later passes rest) =
      FirstExit-IsFor p stop take entry _ f rest

  walked_candles :
      (p : Position) (cs : List Candle) (e : Engine) (found : Option Fill)
      → walk_triggers environment config model p cs e ≡ ok found
      → resolve_triggers environment.exit_id p cs model e.stop_price e.take_profit_price
          (entry_time environment config model e)
        ≡ ok found
  unfolding walk_triggers
  walked_candles p cs e found h = ground arith

  exit_at_trigger-Advances :
      (candle : Candle) (p : Position) (found : Option Fill) (e e' : Engine) (u : Unit {0})
      (total : ℤ)
      → current_position config e ≡ ok (some p)
      → walk_triggers environment config model p (candle ∷ []) e ≡ ok found
      → IsRun config e total
      → exit_at_trigger environment config model candle p found e ≡ (ok u, e')
      → Advances environment config model e total e'
  unfolding exit_at_trigger track_excursions
  exit_at_trigger-Advances candle p none e e' u total held walked run h =
      returns environment config model e e' u total run h
  exit_at_trigger-Advances candle p (some fill) e e' u total held walked run h =
      let (symbol, directed, _) = own_key config e p run.keyed held in
      let f1 =
        resolve_some_lem environment.exit_id p model e.stop_price e.take_profit_price
          (entry_time environment config model e) (candle ∷ []) fill directed
          (walked_candles p (candle ∷ []) e (some fill) walked) in
      fill-onward environment config model fill p.symbol p.side _ _ _ e _ e' u total
        (FirstExit-IsFor p _ _ _ _ fill f1) symbol directed
        (record { book = refl; cash = refl; costs = tracked-costs candle p e; trades = refl }) run h

  trigger_held-Advances :
      (candle : Candle) (position : Option Position) (e e' : Engine) (u : Unit {0}) (total : ℤ)
      → current_position config e ≡ ok position
      → IsRun config e total
      → trigger_held environment config model candle position e ≡ (ok u, e')
      → Advances environment config model e total e'
  unfolding trigger_held
  trigger_held-Advances candle none e e' u total held run h =
      returns environment config model e e' u total run h
  trigger_held-Advances candle (some p) e e' u total held run h =
      let (found, walked, h1) =
        step_ok (walk_triggers environment config model p (candle ∷ []) e) _ _ h in
      exit_at_trigger-Advances candle p found e e' u total held walked run h1

  -- If the orders that were pending are of the run's symbol and one direction each, the open of
  -- a bar that returns moves the accounts of a sound run by nothing but charges of due
  -- boundaries and fills that the engine applies, and leaves the run sound, its total changed
  -- by the sum of the PnL that these fills realize.
  pub step_open-Advances :
      (candle : Candle) (e e' : Engine) (u : Unit {0}) (total : ℤ)
      → AllOwn config e.pending
      → IsRun config e total
      → step_open environment config model candle e ≡ (ok u, e')
      → Advances environment config model e total e'
  unfolding step_open
  step_open-Advances candle e e' u total own run h =
      let s0 = settle_at_boundary environment config model candle.open_time e in
      let (v0, done0, h1) = step_ok s0.0 s0.1 _ h in
      let x0 =
        settle-Advances environment config model candle.open_time e s0.1 v0 total run
          (λ i. (done0 i, s0.1)) in
      let kept = Keeps-settle environment config model candle.open_time e in
      let e1 : Engine = record s0.1 { pending = [] } in
      let x1 = onward environment config model e s0.1 e1 total x0 (
        stays environment config model s0.1 e1 (total +ℤ x0.pnl)
          (record { book = refl; cash = refl; costs = refl; trades = refl }) x0.run) in
      let s1 = execute_all environment config model candle s0.1.pending e1 in
      let (v1, done1, h2) = step_ok s1.0 s1.1 _ h1 in
      let x2 = onward environment config model e e1 s1.1 total x1 (
        execute_all-Advances candle s0.1.pending e1 s1.1 v1 (total +ℤ x1.pnl)
          (subst (AllOwn config) (sym kept) own) x1.run (λ i. (done1 i, s1.1))) in
      let (boundaries, _, h3) =
        step_ok (boundaries_between candle.open_time candle.close_time) _ _ h2 in
      let s2 = settle_all environment config model boundaries s1.1 in
      let (v2, done2, h4) = step_ok s2.0 s2.1 _ h3 in
      let x3 = onward environment config model e s1.1 s2.1 total x2 (
        settle_all-Advances environment config model boundaries s1.1 s2.1 v2 (total +ℤ x2.pnl)
          x2.run (λ i. (done2 i, s2.1))) in
      let (position, held, h5) = step_ok (current_position config s2.1) _ _ h4 in
      onward environment config model e s2.1 e' total x3
        (trigger_held-Advances candle position s2.1 e' u (total +ℤ x3.pnl) held x3.run h5)
