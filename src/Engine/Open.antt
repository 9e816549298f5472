-- ===== src/Engine/Open.antt =====
-- engine.py: `step_open`, `walk_triggers` and `_risk_budget`, the open of a bar, and the order that
-- adapters/broker.py fills. The clock stands at the open of the bar.
pub mod Filled
pub mod Moves
pub mod Advance
pub mod Timing
use trading_system_v.Prelude.{
  ℕ, suc, ◌+◌, ◌/◌, ◌<◌, ◌≡◌, refl, String, Bool, true, false, not, ◌&&◌, if◌then◌else◌, Option,
  none, some, List, [], ◌∷◌, ltb, leb, ◌==◌,
}
use trading_system_v.Prelude.Int.{ℤ}
use trading_system_v.Prelude.Result.{Result, ok, err, value_error, assertion_error}
use trading_system_v.Prelude.Result
use trading_system_v.Prelude.Exec.{Exec, ◌>>=◌, ◌>>◌, check, modify}
use trading_system_v.Money.{mul_units, to_decimal}
use trading_system_v.Types.Enums.{ExitReason}
use trading_system_v.Types.Position.{Position}
use trading_system_v.Types.Candle.{Candle}
use trading_system_v.Types.Fill
use trading_system_v.Types.Fill.{Fill}
use trading_system_v.Costs.Model.{CostModel}
use trading_system_v.Costs.Funding.{boundaries_between}
use trading_system_v.Execution.Trigger.{HistoryItem, FillTiming, next_bar}
use trading_system_v.Execution.Matcher
use trading_system_v.Execution.Matcher.{Limits}
use trading_system_v.Execution.Protection.{resolve_triggers}
use trading_system_v.Execution.Normalizer.{OrderRequest, normalize_order}
use trading_system_v.Engine.{
  tf_candle, m1_subcandle, Environment, RunConfig, SizingMethod, risk_based, pct, action_decision,
  PendingOrder, Engine, record_evidence, next_decision, current_position, current_equity,
  leverage_of,
}
use trading_system_v.Engine.Fills.{apply_fill}
use trading_system_v.Engine.Funding.{settle_at_boundary}
use trading_system_v.Engine.Handler.{eq_candle}
use trading_system_v.Engine.Marks.{track_excursions}

-- What the broker is configured with.
pub record Context : Type 0 where
  pub decision_candle : Candle
  pub history : List Candle
  pub limits : Limits

abbrev is_next_bar : FillTiming → Bool
is_next_bar next_bar = true
is_next_bar _ = false

-- `decision_candle not in history`.
unfoldable pub in_history : Candle → List Candle → Bool
in_history candle [] = false
in_history candle (c ∷ cs) =
    let later = in_history candle cs in if eq_candle c candle then true else later

-- The history with its decision candle marked. The candle opens before it closes, so that which of
-- two equal ones is marked does not matter for the bar that comes next.
unfoldable pub marked : Candle → List Candle → List HistoryItem
marked decision [] = []
marked decision (c ∷ cs) =
    record { candle = c; is_decision = eq_candle c decision } ∷ marked decision cs

-- `BacktestBroker.configure_execution`.
unfoldable pub configure_execution : FillTiming → Candle → List Candle → Limits → Result Context
configure_execution fill_timing candle history limits =
    if not (is_next_bar fill_timing)
    then err (value_error "BacktestBroker supports next_bar fill_timing only")
    else if not (in_history candle history)
    then err (value_error "history must contain the decision candle")
    else ok (record { decision_candle = candle; history = history; limits = limits })

-- `int(timestamp * 1000)` of a time that counts microseconds.
abbrev pub epoch_milliseconds : ℕ → ℕ
epoch_milliseconds t = t / 1000

-- `dataclasses.replace(fill, exit_reason=...)`, which validates the fill again.
unfoldable pub with_reason : Option ExitReason → Fill → Result Fill
with_reason none fill = ok fill
with_reason (some reason) fill = Fill.post_init (record fill { exit_reason = some reason })

-- An order is executed in the bar that opens when the one that decided it closes.
unfoldable pub check_boundary : Candle → PendingOrder → Result (Unit {0})
check_boundary candle pending =
    if not (pending.decision_candle.close_time == candle.open_time)
    then err (value_error "pending order crossed a missing candle boundary")
    else ok tt

-- What is seen comes before what is decided, and that before what is executed.
unfoldable pub check_times : PendingOrder → Fill → Result (Unit {0})
check_times pending fill =
    if leb pending.feature_ts pending.decision_ts
      && ltb pending.decision_ts (epoch_milliseconds fill.timestamp)
    then ok tt
    else err (value_error "feature_ts <= decision_ts < execution_ts was violated")

-- The limits of an order in `step_open`.
abbrev pub entry_limits : Option ℤ → PendingOrder → Engine → Limits
entry_limits budget pending e = record {
  risk_budget = budget;
  available_margin = some e.cash;
  leverage = leverage_of pending.signal;
}

-- The exit at a trigger is decided at the open of the bar and executes at its close.
abbrev trigger_decision : Environment → ℕ → Candle → Position → Engine → Engine
trigger_decision environment n candle p e =
    record_evidence
      (action_decision n none candle.open_time "exit" p.side (environment.float_of p.quantity)
        (some candle.close_time))
      e

abbrev given : {A : Type 0} → Option A → Result A
given none = err (assertion_error "")
given (some x) = ok x

module _ (environment : Environment) (config : RunConfig) (model : CostModel) where
  -- `BacktestBroker.submit`; the broker's counter moves on even if the order is refused.
  unfoldable pub submit : Context → OrderRequest → Exec Engine Fill
  submit context request = do
    id ← check (λ e. ok (environment.order_text e.next_order_sequence))
    modify (λ e. record e { next_order_sequence = suc e.next_order_sequence })
    order ← check (λ _.
        normalize_order environment.canonical_id request (record {
          order_id = some id;
          client_order_id = none;
          wallet_id = none;
          signal_id = none;
        }))
    (fill, filled) ← check (λ _.
        Matcher.match order context.decision_candle (marked context.decision_candle context.history)
          model next_bar context.limits)
    check (λ _. ok fill)

  risk_of : SizingMethod → Engine → Result (Option ℤ)
  risk_of pct e = ok none
  risk_of risk_based e = Result.◌>>=◌ (given config.risk_per_trade) (λ risk.
      Result.◌>>=◌ (current_equity config e)
        (λ equity. ok (some (mul_units equity (to_decimal risk)))))

  -- `_risk_budget`.
  unfoldable pub risk_budget : PendingOrder → Engine → Result (Option ℤ)
  unfolding risk_of
  risk_budget pending e =
      if pending.request.reduce_only then ok none else risk_of config.sizing_method e

  -- One of the orders that were carried over to the bar.
  unfoldable pub execute_pending : Candle → PendingOrder → Exec Engine (Unit {0})
  execute_pending candle pending = do
    check (λ _. check_boundary candle pending)
    budget ← check (risk_budget pending)
    context ← check (λ e.
        configure_execution config.fill_timing pending.decision_candle e.history
          (entry_limits budget pending e))
    submitted ← submit context pending.request
    fill ← check (λ _. with_reason pending.exit_reason submitted)
    check (λ _. check_times pending fill)
    apply_fill config model fill (some pending.decision_id) pending.signal pending.candidate_id

  unfoldable pub execute_all : Candle → List PendingOrder → Exec Engine (Unit {0})
  execute_all candle [] e = (ok tt, e)
  execute_all candle (pending ∷ rest) e =
      (execute_pending candle pending >>= λ _. execute_all candle rest) e

  unfoldable pub settle_all : List ℕ → Exec Engine (Unit {0})
  settle_all [] e = (ok tt, e)
  settle_all (boundary ∷ rest) e =
      (settle_at_boundary environment config model boundary >>= λ _. settle_all rest) e

  abbrev pub entry_time : Engine → Option ℕ
  entry_time e = elim e.active_trade [ none ↦ none | some a ↦ some a.entry_fill.timestamp ]

  -- `walk_triggers`, over the bars themselves; a finer feed is refused.
  unfoldable pub walk_triggers : Position → List Candle → Engine → Result (Option Fill)
  walk_triggers p candles e = elim config.trigger_feed [
    | m1_subcandle ↦ err (Result.not_implemented "m1_subcandle trigger walk remains reserved")
    | tf_candle ↦
        resolve_triggers environment.exit_id p candles model e.stop_price e.take_profit_price
          (entry_time e)
  ]

  -- The exit at a trigger, if there is one.
  unfoldable pub exit_at_trigger : Candle → Position → Option Fill → Exec Engine (Unit {0})
  exit_at_trigger candle p none e = (ok tt, e)
  exit_at_trigger candle p (some fill) e =
      let (n, e') = next_decision (track_excursions candle p e) in
      apply_fill config model fill (some n) none none (trigger_decision environment n candle p e')

  unfoldable pub trigger_held : Candle → Option Position → Exec Engine (Unit {0})
  trigger_held candle none e = (ok tt, e)
  trigger_held candle (some p) e =
      (check (walk_triggers p (candle ∷ [])) >>= λ fill. exit_at_trigger candle p fill) e

  -- `step_open`.
  unfoldable pub step_open : Candle → Exec Engine (Unit {0})
  step_open candle = do
    settle_at_boundary environment config model candle.open_time
    carried ← check (λ e. ok e.pending)
    modify (λ e. record e { pending = [] })
    execute_all candle carried
    boundaries ← check (λ _. boundaries_between candle.open_time candle.close_time)
    settle_all boundaries
    position ← check (current_position config)
    trigger_held candle position
