-- ===== src/Engine/Open/Timing.antt =====
-- When a carried order executes: in the bar that opens, after it was decided.
use trading_system_v.Prelude.{
  ℕ, suc, ◌+◌, refl, ◌<◌, ◌≤◌, false, some, List, [], ◌∷◌, ◌≡◌, ◌∙◌, sym, ap, subst, arith,
}
use trading_system_v.Types.Order.{remaining_quantity}
use trading_system_v.Prelude.Int.{ℤ, pos, ◌≤ℤ◌, ◌-ℤ◌, int_laws}
use trading_system_v.Prelude.Result.{ok}
use trading_system_v.Prelude.Exec.{step_ok}
use trading_system_v.Prelude.Sort.{IsAbove, All}
use trading_system_v.Prelude.{◌⊎◌, inl, inr}
use trading_system_v.Types.Candle.{Candle}
use trading_system_v.Types.Fill.{Fill}
use trading_system_v.Costs.Model.{CostModel}
use trading_system_v.Execution.Trigger.{next_bar, candidates, open_time_of}
use trading_system_v.Execution.Trigger.NextBar.{next_bar_lem, next_bar_terms}
use trading_system_v.Types.Enums.{OrderType}
use trading_system_v.Execution.Matcher.{Limits}
use trading_system_v.Money.{to_decimal}
use trading_system_v.Engine.Fills.{apply_fill}
use trading_system_v.Engine.{Environment, RunConfig, PendingOrder, Engine}
use trading_system_v.Engine.Handler.{eq_candle}
use trading_system_v.Engine.Open.{
  Context, marked, configure_execution, epoch_milliseconds, check_boundary, check_times,
  entry_limits, risk_budget, submit, with_reason, execute_pending,
}
use trading_system_v.Engine.Open.Filled.{broker_order, InBar, with_reason-IsFor, submit-IsSubmitted}

-- The candle is one of the list.
abbrev pub IsIn : Candle → List Candle → Type 0
IsIn c [] = ⊥
IsIn c (d ∷ ds) = (c ≡ d) ⊎ IsIn c ds

another_candle : (c d : Candle) → d.open_time < c.open_time → eq_candle c d ≡ false
unfolding eq_candle
another_candle c d h = ground arith

first_above :
    (decision d : Candle) (cs : List Candle) (n : ℕ)
    → decision.close_time ≤ d.open_time
    → eq_candle d decision ≡ false
    → IsAbove open_time_of n (candidates decision (marked decision (d ∷ cs)))
    → n ≤ d.open_time
unfolding candidates marked
first_above decision d cs n after differs above = ground arith

later-IsAbove :
    (decision d : Candle) (cs : List Candle) (n : ℕ)
    → IsAbove open_time_of n (candidates decision (marked decision (d ∷ cs)))
    → IsAbove open_time_of n (candidates decision (marked decision cs))
unfolding candidates marked
later-IsAbove decision d cs n above = ground arith

-- The first of the marked candles, or one that comes later.
first_candidate :
    (decision c d : Candle) (cs : List Candle) (n : ℕ)
    → decision.close_time ≤ c.open_time
    → eq_candle c decision ≡ false
    → c ≡ d
    → IsAbove open_time_of n (candidates decision (marked decision (d ∷ cs)))
    → n ≤ c.open_time
unfolding candidates marked
first_candidate decision c d cs n after differs same above =
    subst (λ x. n ≤ x.open_time) (sym same)
      (first_above decision d cs n (subst (λ x. decision.close_time ≤ x.open_time) same after)
        (ap (λ x. eq_candle x decision) (sym same) ∙ differs) above)

candidate-le :
    (decision c : Candle) (cs : List Candle) (n : ℕ)
    → decision.close_time ≤ c.open_time
    → eq_candle c decision ≡ false
    → IsIn c cs
    → IsAbove open_time_of n (candidates decision (marked decision cs))
    → n ≤ c.open_time
candidate-le decision c [] n after differs there above = elim there [ ]
candidate-le decision c (d ∷ cs) n after differs (inl same) above =
    first_candidate decision c d cs n after differs same above
candidate-le decision c (d ∷ cs) n after differs (inr there) above =
    candidate-le decision c cs n after differs there (later-IsAbove decision d cs n above)

-- All of the marked candles are of the list.
marked-All :
    (decision : Candle) (cs all : List Candle)
    → ((c : Candle) → IsIn c cs → IsIn c all)
    → All open_time_of (λ h. IsIn h.candle all) (marked decision cs)
unfolding marked
marked-All decision [] all f = tt
marked-All decision (c ∷ cs) all f =
    (f c (inl refl), marked-All decision cs all (λ d there. f d (inr there)))

all_left : (q whole : ℤ) → q ≤ℤ (whole -ℤ pos 0) → q ≤ℤ whole
all_left q whole h = omega (int_laws, h)

-- The checks of an order that is executed.
on_boundary :
    (candle : Candle) (pending : PendingOrder) (u : Unit {0})
    → check_boundary candle pending ≡ ok u
    → pending.decision_candle.close_time ≡ candle.open_time
unfolding check_boundary
on_boundary candle pending u h = ground arith

in_time :
    (pending : PendingOrder) (fill : Fill) (u : Unit {0})
    → check_times pending fill ≡ ok u
    → (pending.feature_ts ≤ pending.decision_ts)
      × (pending.decision_ts < epoch_milliseconds fill.timestamp)
unfolding check_times
in_time pending fill u h = (ground arith, ground arith)

configured :
    (config : RunConfig) (c : Candle) (cs : List Candle) (l : Limits) (context : Context)
    → configure_execution config.fill_timing c cs l ≡ ok context
    → context ≡ record { decision_candle = c; history = cs; limits = l }
unfolding configure_execution
configured config c cs l context h = ground arith

module _ (environment : Environment) (config : RunConfig) (model : CostModel) where
  -- How a carried order was executed in a bar.
  pub record IsExecuted (candle : Candle) (pending : PendingOrder) (e e' : Engine) : Type 0 where
    pub fill : Fill
    pub bar : Candle
    pub held : IsIn bar e.history
    pub opens : bar.open_time ≡ candle.open_time
    pub priced :
        pending.request.order_type ≡ OrderType.market
        → fill.reference_price ≡ to_decimal bar.opening
    pub dated : fill.timestamp ≡ candle.open_time + 1000
    pub seen : pending.feature_ts ≤ pending.decision_ts
    pub decided : pending.decision_ts < epoch_milliseconds fill.timestamp
    pub within : fill.quantity ≤ℤ to_decimal pending.request.quantity
    pub booked :
        apply_fill config model fill
          (some pending.decision_id)
          pending.signal
          pending.candidate_id
          (record e { next_order_sequence = suc e.next_order_sequence })
        ≡ (ok tt, e')

  -- A carried order that a bar of the history executes, and that a candle decided which opened
  -- before it closed, is filled in a candle of the history that opens with the bar, a
  -- millisecond after that open, for a market order at the open of the candle as its reference
  -- price, for at most the requested quantity and after its decision, and the fill is then
  -- applied; what the order saw came no later than the decision.
  pub execute_pending-IsExecuted :
      (candle : Candle) (pending : PendingOrder) (e e' : Engine) (u : Unit {0})
      → pending.decision_candle.open_time < pending.decision_candle.close_time
      → IsIn candle e.history
      → execute_pending environment config model candle pending e ≡ (ok u, e')
      → IsExecuted candle pending e e'
  unfolding execute_pending remaining_quantity
  execute_pending-IsExecuted candle pending e e' u forward here h =
      let decision = pending.decision_candle in
      let (v, met, h1) = step_ok (check_boundary candle pending) _ _ h in
      let boundary = on_boundary candle pending v met in
      let (budget, _, h2) = step_ok (risk_budget environment config model pending e) _ _ h1 in
      let limits = entry_limits budget pending e in
      let (context, set, h3) =
        step_ok (configure_execution config.fill_timing decision e.history limits) _ _ h2 in
      let s = submit environment config model context pending.request e in
      let (submitted, done, h4) = step_ok s.0 s.1 _ h3 in
      let x =
        submit-IsSubmitted environment config model context pending.request submitted e s.1
          (λ i. (done i, s.1)) in
      let (fill, replaced, h5) = step_ok (with_reason pending.exit_reason submitted) _ _ h4 in
      let (w, timed, h6) = step_ok (check_times pending fill) _ _ h5 in
      let (seen, decided) = in_time pending fill w timed in
      let same = configured config decision e.history limits context set in
      let (_, dated, amount, priced) =
        with_reason-IsFor pending.exit_reason _ _ submitted fill x.own replaced in
      let in_bar =
        subst
          (λ (c : Context).
            InBar (broker_order environment config model pending.request e.next_order_sequence)
              c.decision_candle (marked c.decision_candle c.history) next_bar submitted)
          same x.in_bar in
      let bar = in_bar.bar in
      let (close, after, not_before, earliest) =
        next_bar_lem decision (marked decision e.history) bar in_bar.chosen in
      let (there, at_open, on_time) =
        next_bar_terms (λ c. IsIn c e.history) decision (marked decision e.history) bar
          (marked-All decision e.history e.history (λ c k. k)) in_bar.chosen in
      let first =
        candidate-le decision candle e.history bar.candle.open_time (omega (arith, boundary))
          (another_candle candle decision (omega (arith, boundary))) here earliest in
      let moved =
        subst
          (λ y.
            apply_fill config model fill (some pending.decision_id) pending.signal
              pending.candidate_id y
            ≡ (ok u, e'))
          (sym x.after) h6 in
      record {
        fill = fill;
        bar = bar.candle;
        held = there;
        opens = omega (arith, boundary);
        seen = seen;
        decided = decided;
        priced = λ market. priced ∙ in_bar.priced market ∙ at_open;
        dated =
            dated ∙ in_bar.dated ∙ on_time (omega (arith, boundary)) ∙ ap (λ t. t + 1000) boundary;
        within =
            subst (λ q. q ≤ℤ to_decimal pending.request.quantity) (sym amount)
              (all_left _ _ in_bar.within);
        booked = moved;
      }
