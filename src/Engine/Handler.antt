-- ===== src/Engine/Handler.antt =====
-- engine.py: `_handle_signal`, which queues orders for the next bar.
use trading_system_v.Prelude.{
  ℕ, suc, ◌+◌, Bool, true, false, not, ◌&&◌, if◌then◌else◌, String, Option, none, some, List, [],
  ◌∷◌, ltb, ◌==◌,
}
use mathlib.Core.List.{◌++◌}
use text.Mathlib.Text
use trading_system_v.Prelude.Int.{ℤ, pos, eqb_ℤ}
use trading_system_v.Prelude.Result.{Result, ok, err, value_error, runtime_error}
use trading_system_v.Prelude.Exec.{Exec, ◌>>=◌, ◌>>◌, check, modify}
use trading_system_v.Money.{Float}
use trading_system_v.Types.Enums.{PositionSide, signal_exit, reversal, side_eq}
use trading_system_v.Types.Position.{Position}
use trading_system_v.Types.Candle.{Candle}
use trading_system_v.Types.Signal.{TradingSignal}
use trading_system_v.Sizing.{within_one_percent}
use trading_system_v.Execution.Normalizer.{validate_request}
use trading_system_v.Engine.{
  Environment, RunConfig, signal_record, action_decision, skip_decision, blocked_candidate,
  PendingOrder, Engine, record_evidence, next_decision, current_position,
}
use trading_system_v.Engine.Signals.{
  Intent, exit_position, eq_float, derive_intent, size_of, pending_exit, pending_entry,
  exit_request, entry_request,
}

abbrev pub next_signal : Engine → ℕ × Engine
next_signal e =
    let n = suc e.sequence.signal in (n, record e { sequence = record e.sequence { signal = n } })

abbrev pub next_candidate : Engine → ℕ × Engine
next_candidate e =
    let n = suc e.sequence.candidate in
    (n, record e { sequence = record e.sequence { candidate = n } })

abbrev pub numbered : (Engine → ℕ × Engine) → Exec Engine ℕ
numbered next e = let (n, e') = next e in (ok n, e')

-- `self.pending.append(order)`.
abbrev pub queue : PendingOrder → Engine → Engine
queue order e = record e { pending = e.pending ++ order ∷ [] }

-- `_record_blocked_candidate`.
abbrev pub blocked : Candle → PositionSide → String → Engine → Engine
blocked candle side reason e =
    let (n, e') = next_candidate e in
    record_evidence (blocked_candidate n candle.close_time side reason) e'

-- An entry that is not queued: its decision is skipped, and its candidate not realized.
abbrev pub block : ℕ → ℕ → Candle → PositionSide → String → Exec Engine (Unit {0})
block decision_id signal_id candle side reason e =
    let (n, e') = next_candidate e in
    (
      ok tt,
      record_evidence (blocked_candidate n candle.close_time side reason) (
          record_evidence (skip_decision decision_id (some signal_id) candle.close_time reason) e'),
    )

abbrev eq_option : Option Float → Option Float → Bool
eq_option none none = true
eq_option (some a) (some b) = eq_float a b
eq_option _ _ = false

abbrev eq_count : Option ℤ → Option ℤ → Bool
eq_count none none = true
eq_count (some a) (some b) = eqb_ℤ a b
eq_count _ _ = false

-- `==` of two candles, which compares their fields.
unfoldable pub eq_candle : Candle → Candle → Bool
eq_candle a b =
    Text.◌==◌ a.symbol b.symbol
    && (Text.◌==◌ a.exchange b.exchange
        && (Text.◌==◌ a.timeframe b.timeframe
            && (a.open_time == b.open_time
                && (a.close_time == b.close_time
                    && (eq_float a.opening b.opening
                        && (eq_float a.high b.high
                            && (eq_float a.low b.low
                                && (eq_float a.close b.close
                                    && (eq_float a.volume b.volume
                                        && (eq_option a.quote_volume b.quote_volume
                                            && eq_count a.trade_count b.trade_count))))))))))

abbrev first_of : List Candle → Option Candle
first_of [] = none
first_of (c ∷ cs) = some c

-- `_next_candle`: the one after the first candle of the history that equals it.
unfoldable pub next_candle : Candle → List Candle → Result (Option Candle)
next_candle candle [] = err (value_error "decision candle is absent from Engine history")
next_candle candle (c ∷ cs) =
    let later = next_candle candle cs in if eq_candle c candle then ok (first_of cs) else later

-- The time of the next execution, where the next candle opens as this one closes.
unfoldable pub planned_at : Candle → Option Candle → Option ℕ
planned_at candle none = none
planned_at candle (some next) =
    let earliest = candle.close_time + 1000 in
    if next.open_time == candle.close_time
    then some (if ltb next.open_time earliest then earliest else next.open_time)
    else none

-- `missing_next_bar`: there is a next candle, after a gap.
unfoldable pub is_gap : Candle → Option Candle → Bool
is_gap candle none = false
is_gap candle (some next) = not (next.open_time == candle.close_time)

abbrev pub no_bar_reason : Bool → String
no_bar_reason missing = if missing then "next_candle_gap" else "end_of_data"

abbrev pub same_direction : Option Position → PositionSide → Bool
same_direction none side = false
same_direction (some p) side = side_eq p.side side

-- `self._config().risk_per_trade or 0.0`.
abbrev pub risk_fraction : Option Float → Float
risk_fraction none = record { digits = pos 0; places = 0 }
risk_fraction (some r) = r

module _ (environment : Environment) (config : RunConfig) where
  -- The exit of `_handle_signal`, with what is planned when the next candle follows at once.
  unfoldable pub handle_exit :
      ℕ → ℕ → Candle → TradingSignal → Option ℕ → Bool → Option Position → Exec Engine (Unit {0})
  handle_exit decision_id signal_id candle signal planned missing none =
      modify (
        record_evidence
          (skip_decision decision_id (some signal_id) candle.close_time "no_position"))
  handle_exit decision_id signal_id candle signal none missing (some p) = modify (
      record_evidence
        (skip_decision decision_id (some signal_id) candle.close_time (no_bar_reason missing)))
  handle_exit decision_id signal_id candle signal (some at) missing (some p) =
      modify (
        record_evidence (
          action_decision decision_id (some signal_id) candle.close_time "exit" p.side
            (environment.float_of p.quantity) (some at)))
      >> (do
        check (λ _. validate_request (exit_request environment config p))
        modify (queue (pending_exit environment config p decision_id candle signal_exit signal)))

  -- The orders of an entry, after the exit of the position that it reverses.
  unfoldable pub queue_entry :
      ℕ
      → Candle
      → TradingSignal
      → ℕ
      → PositionSide
      → Float
      → Option Position
      → Exec Engine (Unit {0})
  queue_entry decision_id candle signal candidate_id side quantity none = do
    check (λ _. validate_request (entry_request environment config signal side quantity))
    modify (
        queue
          (pending_entry environment config side quantity decision_id candle signal candidate_id))
  queue_entry decision_id candle signal candidate_id side quantity (some p) = do
    check (λ _. validate_request (exit_request environment config p))
    modify (queue (pending_exit environment config p decision_id candle reversal signal))
    check (λ _. validate_request (entry_request environment config signal side quantity))
    modify (
        queue
          (pending_entry environment config side quantity decision_id candle signal candidate_id))

  -- The entry, sized, with a new candidate: it is blocked by the limits or for want of a next bar,
  -- or queued, after the exit of the position that it reverses.
  unfoldable pub handle_sized :
      ℕ
      → ℕ
      → Candle
      → TradingSignal
      → Option ℕ
      → Bool
      → Option Position
      → PositionSide
      → Float
      → Bool
      → Exec Engine (Unit {0})
  handle_sized decision_id signal_id candle signal none missing position side quantity within e =
      block decision_id signal_id candle side
        (if not within then "exposure_limit" else no_bar_reason missing) e
  handle_sized decision_id signal_id candle signal (some at) missing position side quantity false
        e =
      block decision_id signal_id candle side "exposure_limit" e
  handle_sized decision_id signal_id candle signal (some at) missing position side quantity true e =
      let (candidate_id, e') = next_candidate e in
      (modify (
            record_evidence (
              action_decision decision_id (some signal_id) candle.close_time
                (elim position [ none ↦ "enter" | some p ↦ "reverse" ]) side quantity (some at)))
          >> queue_entry decision_id candle signal candidate_id side quantity position)
        e'

  unfoldable pub handle_entry :
      ℕ
      → ℕ
      → Candle
      → TradingSignal
      → Option ℕ
      → Bool
      → Option Position
      → PositionSide
      → Exec Engine (Unit {0})
  unfolding handle_sized
  handle_entry decision_id signal_id candle signal planned missing position side =
      if same_direction position side
      then modify (
          record_evidence
            (skip_decision decision_id (some signal_id) candle.close_time "pyramiding_disabled"))
        >> modify (blocked candle side "pyramiding_disabled")
      else (do
        (quantity, stop_distance) ← check (size_of environment config signal)
        within ← check (λ _. within_one_percent (risk_fraction config.risk_per_trade))
        handle_sized decision_id signal_id candle signal planned missing position side quantity
            within)

  unfoldable pub handle_intent :
      ℕ
      → ℕ
      → Candle
      → TradingSignal
      → Option ℕ
      → Bool
      → Option Position
      → Intent
      → Option PositionSide
      → Exec Engine (Unit {0})
  unfolding handle_exit handle_entry
  handle_intent decision_id signal_id candle signal planned missing position exit_position side =
      handle_exit decision_id signal_id candle signal planned missing position
  handle_intent decision_id signal_id candle signal planned missing position intent none =
      check (λ _. err (runtime_error "entry and reversal signals require a derived side"))
  handle_intent decision_id signal_id candle signal planned missing position intent (some side) =
      handle_entry decision_id signal_id candle signal planned missing position side

  -- `_handle_signal`.
  unfoldable pub handle_signal : Candle → TradingSignal → Exec Engine (Unit {0})
  unfolding handle_intent
  handle_signal candle signal = do
    position ← check (current_position config)
    (intent, side) ← check (λ _. derive_intent signal position)
    signal_id ← numbered next_signal
    modify (record_evidence (signal_record signal_id candle.close_time signal))
    decision_id ← numbered next_decision
    next ← check (λ e. next_candle candle e.history)
    handle_intent decision_id signal_id candle signal (planned_at candle next) (is_gap candle next)
        position intent side
