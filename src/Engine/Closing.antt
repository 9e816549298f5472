-- ===== src/Engine/Closing.antt =====
-- engine.py: `_close_at_data_gap`, and the part of `finalize` that closes what is still held and
-- records the last equity.
use trading_system_v.Prelude.{ℕ, suc, ◌+◌, ◌-◌, Option, none, some, List, [], ◌∷◌}
use trading_system_v.Prelude.Result.{Result, ok, err, runtime_error, value_error}
use trading_system_v.Prelude.Result
use trading_system_v.Prelude.Exec.{Exec, ◌>>=◌, ◌>>◌, check, modify}
use trading_system_v.Types.Enums.{ExitReason, data_gap, end_of_data}
use trading_system_v.Types.Position.{Position}
use trading_system_v.Types.Candle.{Candle, validate}
use trading_system_v.Costs.Model.{CostModel}
use trading_system_v.Execution.Trigger.{FillTiming, next_bar}
use trading_system_v.Engine.{
  pos, Environment, RunConfig, action_decision, PendingOrder, Engine, record_evidence,
  next_decision, current_position,
}
use trading_system_v.Engine.Fills.{apply_fill}
use trading_system_v.Engine.Signals.{exit_request}
use trading_system_v.Engine.Marks.{record_terminal_equity}
use trading_system_v.Execution.Normalizer.{OrderRequest, validate_request}
use trading_system_v.Engine.Open.{Context, configure_execution, submit, with_reason}

-- The flat bar at the last known price, a millisecond after it.
abbrev pub terminal_candle : Candle → Candle
terminal_candle c = record c {
  open_time = c.close_time + 1000;
  close_time = c.close_time + 1000 + (c.close_time - c.open_time);
  opening = c.close;
  high = c.close;
  low = c.close;
  volume = record { digits = pos 0; places = 0 };
  quote_volume = none;
  trade_count = none;
}

none_pending : List PendingOrder → Result (Unit {0})
none_pending [] = ok tt
none_pending (p ∷ ps) = err (runtime_error "orders must not remain pending across a data gap")

module _ (environment : Environment) (config : RunConfig) (model : CostModel) where
  -- The constructor of the flat bar validates it.
  unfoldable pub terminal_of : Candle → Result Candle
  terminal_of candle = Result.◌>>◌ (validate (terminal_candle candle)) (ok (terminal_candle candle))

  -- The broker is given the last bar and the flat one, and the cash without a risk budget.
  unfoldable pub configure_exit : FillTiming → Candle → Candle → Position → Engine → Result Context
  configure_exit fill_timing candle terminal p e =
      configure_execution fill_timing candle (candle ∷ terminal ∷ [])
        (record { risk_budget = none; available_margin = some e.cash; leverage = p.leverage })

  unfoldable pub execute_exit :
      Context → OrderRequest → ExitReason → Option ℕ → Exec Engine (Unit {0})
  execute_exit context request reason decision_id = do
    submitted ← submit environment config model context request
    fill ← check (λ _. with_reason (some reason) submitted)
    apply_fill config model fill decision_id none none

  -- The exit at a gap.
  unfoldable pub exit_at_gap : Candle → Position → ℕ → Exec Engine (Unit {0})
  exit_at_gap candle p decision_id = do
    terminal ← check (λ _. terminal_of candle)
    context ← check (configure_exit config.fill_timing candle terminal p)
    check (λ _. validate_request (exit_request environment config p))
    execute_exit context (exit_request environment config p) data_gap (some decision_id)
    modify (λ e. record e { data_gap_exit_count = suc e.data_gap_exit_count })

  unfoldable pub close_held : Candle → Option Position → Exec Engine (Unit {0})
  close_held candle none e = (ok tt, e)
  close_held candle (some p) e =
      let (n, e') = next_decision e in
      exit_at_gap candle p n (
        record_evidence
          (action_decision n none candle.close_time "exit" p.side (environment.float_of p.quantity)
            (some (candle.close_time + 1000)))
          e')

  -- `_close_at_data_gap`.
  unfoldable pub close_at_data_gap : Candle → Exec Engine (Unit {0})
  unfolding none_pending
  close_at_data_gap candle = do
    check (λ e. none_pending e.pending)
    position ← check (current_position config)
    close_held candle position

  -- The exit at the end of the data, which no decision is recorded for.
  unfoldable pub exit_at_end : Candle → Position → Exec Engine (Unit {0})
  exit_at_end candle p = do
    terminal ← check (λ _. terminal_of candle)
    check (λ _. validate_request (exit_request environment config p))
    context ← check (configure_exit next_bar candle terminal p)
    execute_exit context (exit_request environment config p) end_of_data none

  unfoldable pub close_last : Candle → Option Position → Exec Engine (Unit {0})
  close_last candle none e = (ok tt, e)
  close_last candle (some p) e = exit_at_end candle p e

  -- The accounts at the end of `finalize`, after the last candle.
  unfoldable pub finalize_accounts : Candle → Exec Engine (Unit {0})
  finalize_accounts last = do
    position ← check (current_position config)
    close_last last position
    record_terminal_equity config (last.close_time + 1000)
