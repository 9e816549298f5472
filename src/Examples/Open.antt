-- ===== src/Examples/Open.antt =====
-- The open of a bar at concrete inputs.
use trading_system_v.Engine.Open.{
  exit_at_trigger, walk_triggers, trigger_held, settle_all, check_times, with_reason, marked,
  submit, in_history, configure_execution, risk_budget, check_boundary, execute_all, step_open,
  execute_pending,
}
use trading_system_v.Execution.Protection.{resolve_candles, resolve_triggers}
use trading_system_v.Costs.Funding.{boundaries_between, is_boundary}
use trading_system_v.Engine.Fills.{
  enter_trade, apply_entry, record_execution, projected_entry_cash, apply_fill,
}
use trading_system_v.Engine.{
  checked_cash, on_book, maintenance_margin_rate, current_equity, current_position, Engine,
  PendingOrder,
}
use trading_system_v.Execution.Book.{set, open_position, get}
use trading_system_v.Costs.Liquidation.{price}
use trading_system_v.Execution.Pricing.{cumulative_average, fill, execution_price}
use trading_system_v.Types.Order.Methods.{mark_as_filled}
use trading_system_v.Execution.Matcher.{
  check_cash, margin_truncated, risk_truncated, reanchor, recompute_qty_and_stop, converge, match,
}
use trading_system_v.Costs.Fee.{calc}
use trading_system_v.Execution.Affordable.{
  entry_cash_requirement, search_units, affordable_entry_quantity,
}
use trading_system_v.Money.{div_units, mul_rate, mul_units, quantize, to_decimal, ten_pow}
use trading_system_v.Execution.Accounting.{position_value, recompute}
use trading_system_v.Costs.Slippage.{apply}
use trading_system_v.Execution.Trigger.{trigger_reference, candidates, execution_candle}
use trading_system_v.Prelude.Sort.{sort}
use trading_system_v.Types.Enums.{is_terminal, long}
use trading_system_v.Money.Half.{round_half_even}
use trading_system_v.Execution.Normalizer.{normalize_order}
use trading_system_v.Engine.Handler.{eq_candle}
use trading_system_v.Engine.Funding.{settle_at_boundary}
use trading_system_v.Prelude.{none, [], ◌∷◌, ◌≡◌, refl, arith, inl, inr}
use trading_system_v.Prelude.Int.{pos, ◌+ℤ◌, ◌-ℤ◌, ◌*ℤ◌, eq_of_parts, int_laws}
use trading_system_v.Prelude.Result.{ok}
use trading_system_v.Engine.Signals.{pending_entry}
use trading_system_v.Engine.Open.Moves.{Advances}
use trading_system_v.Engine.Open.Advance.{AllOwn, step_open-Advances}
use trading_system_v.Engine.Run.{IsRun}
use trading_system_v.Engine.Open.Timing.{IsExecuted, execute_pending-IsExecuted}
use trading_system_v.Examples.Data.{taker_model, first_bar, second_bar}
use trading_system_v.Examples.Engine.{environment, config, signal, start}
use trading_system_v.Examples.Book.{empty_book-IsSound}
use trading_system_v.Types.Position
use trading_system_v.Types.Fill
use trading_system_v.Types.Order
use trading_system_v.Execution.Book

-- An entry of one that the first bar decided.
abbrev waiting : Engine
waiting = record start {
  pending =
      pending_entry environment config long (record { digits = pos 1; places = 0 }) 1 first_bar
        signal 1
      ∷ [];
}

waiting-IsRun : IsRun config waiting (pos 100000000000)
unfolding current_position get
waiting-IsRun = record {
  sound = empty_book-IsSound;
  keyed = λ s d p h. cc;
  cash_nonneg = omega arith;
  balanced = record { position = none; held = refl; sum = eq_of_parts _ _ (omega int_laws) };
}

waiting-AllOwn : AllOwn config waiting.pending
waiting-AllOwn = ((refl, λ h. cc), tt)

opened : (e : Engine) × (step_open environment config taker_model second_bar waiting ≡ (ok tt, e))
unfolding step_open settle_at_boundary is_boundary execute_all execute_pending check_boundary
    risk_budget current_equity current_position get configure_execution in_history eq_candle ◌*ℤ◌
    ten_pow submit normalize_order Order.post_init to_decimal quantize round_half_even match
    is_terminal execution_candle sort candidates marked trigger_reference converge execution_price
    ◌+ℤ◌ Order.remaining_quantity ◌-ℤ◌ apply mul_units mul_rate recompute_qty_and_stop reanchor
    risk_truncated recompute position_value margin_truncated affordable_entry_quantity search_units
    div_units entry_cash_requirement calc check_cash fill mark_as_filled cumulative_average
    Fill.post_init with_reason check_times apply_fill projected_entry_cash record_execution
    apply_entry maintenance_margin_rate price on_book open_position Position.post_init set
    checked_cash enter_trade boundaries_between settle_all trigger_held walk_triggers
    resolve_triggers resolve_candles exit_at_trigger Book.apply
opened = (_, refl)

step_open-Advances_example :
    Advances environment config taker_model waiting (pos 100000000000) opened.0
step_open-Advances_example =
    step_open-Advances environment config taker_model second_bar waiting opened.0 tt
      (pos 100000000000) waiting-AllOwn waiting-IsRun opened.1

-- The same order alone.
abbrev order : PendingOrder
order =
    pending_entry environment config long (record { digits = pos 1; places = 0 }) 1 first_bar signal
      1

executed :
    (e : Engine) × (execute_pending environment config taker_model second_bar order start
      ≡ (ok tt, e))
unfolding step_open settle_at_boundary is_boundary execute_all execute_pending check_boundary
    risk_budget current_equity current_position get configure_execution in_history eq_candle ◌*ℤ◌
    ten_pow submit normalize_order Order.post_init to_decimal quantize round_half_even match
    is_terminal execution_candle sort candidates marked trigger_reference converge execution_price
    ◌+ℤ◌ Order.remaining_quantity ◌-ℤ◌ apply mul_units mul_rate recompute_qty_and_stop reanchor
    risk_truncated recompute position_value margin_truncated affordable_entry_quantity search_units
    div_units entry_cash_requirement calc check_cash fill mark_as_filled cumulative_average
    Fill.post_init with_reason check_times apply_fill projected_entry_cash record_execution
    apply_entry maintenance_margin_rate price on_book open_position Position.post_init set
    checked_cash enter_trade boundaries_between settle_all trigger_held walk_triggers
    resolve_triggers resolve_candles exit_at_trigger Book.apply
executed = (_, refl)

execute_pending-IsExecuted_example :
    IsExecuted environment config taker_model second_bar order start executed.0
execute_pending-IsExecuted_example =
    execute_pending-IsExecuted environment config taker_model second_bar order start executed.0 tt
      (omega arith) (inr (inl refl)) executed.1
