-- ===== src/Examples/Execution.antt =====
-- The properties of triggers, fills and entries at concrete inputs.
use trading_system_v.Prelude.{ℕ, Option, some, none, ◌≡◌, ◌≤◌, ◌<◌, refl, false, arith}
use trading_system_v.Prelude.Int.{ℤ, pos, ◌*ℤ◌, ◌+ℤ◌, ◌-ℤ◌, ◌≤ℤ◌, ◌<ℤ◌}
use trading_system_v.Prelude.Sort.{sort, insert, IsAbove}
use trading_system_v.Prelude.Result.{ok}
use trading_system_v.Money.{Rate, quantize, mul_units, mul_rate, to_decimal, ten_pow}
use trading_system_v.Money.Half.{round_half_even}
use trading_system_v.Types.Enums.{OrderType, is_terminal}
use trading_system_v.Types.Order
use trading_system_v.Types.Order.{Order, remaining_quantity}
use trading_system_v.Types.Order.Methods.{mark_as_filled}
use trading_system_v.Types.Candle.{validate}
use trading_system_v.Types.Timeframe.{parse_timeframe, duration}
use trading_system_v.Types.Fill
use trading_system_v.Types.Fill.{Fill}
use trading_system_v.Costs.Fee
use trading_system_v.Costs.Slippage
use trading_system_v.Execution.Trigger.{
  Execution, candidates, execution_candle, trigger_reference, limit_trigger, open_time_of, next_bar,
}
use trading_system_v.Execution.Trigger.Bounds.{Within, IsFair, trigger_reference-IsFair}
use trading_system_v.Execution.Trigger.NextBar.{next_bar_lem}
use trading_system_v.Execution.Pricing.{execution_price, fill, FillRequest, cumulative_average}
use trading_system_v.Execution.Pricing.Filled.{
  IsFilled, fill-IsFilled, AtOrBeyond, execution_price_lem,
}
use trading_system_v.Execution.Affordable.{
  entry_cash_requirement, affordable_entry_quantity, search_units,
}
use trading_system_v.Execution.Affordable.Largest.{need, affordable_entry_quantity_lem}
use trading_system_v.Execution.Matcher.{
  Limits, converge, match, recompute_qty_and_stop, reanchor, risk_truncated, margin_truncated,
  check_cash,
}
use trading_system_v.Execution.Matcher.Steps.{converge_bounds}
use trading_system_v.Execution.Matcher.Safety.{IsMatched, match-IsMatched, match_cash}
use trading_system_v.Examples.Data.{
  new_order, taker_model, fee_rate, first_bar, second_bar, two_bars,
}

-- A limit order at 99, which the first bar reaches.
abbrev limit_order : Order
limit_order = record new_order { order_type = OrderType.limit; price = some (pos 9900000000) }

limit_hit : trigger_reference limit_order first_bar ≡ ok (some (pos 9900000000, false))
unfolding trigger_reference to_decimal quantize round_half_even ◌*ℤ◌ ten_pow limit_trigger
limit_hit = refl

first_bar_valid : validate first_bar ≡ ok tt
unfolding validate parse_timeframe ◌*ℤ◌ ten_pow duration
first_bar_valid = refl

trigger_reference-IsFair_example :
    Within (to_decimal first_bar.low) (to_decimal first_bar.high) (some (pos 9900000000, false))
    × IsFair OrderType.limit limit_order.side limit_order.price none (some (pos 9900000000, false))
trigger_reference-IsFair_example =
    trigger_reference-IsFair limit_order first_bar (some (pos 9900000000, false)) first_bar_valid
      limit_hit

-- The order that is decided in the first bar executes at the open of the second.
abbrev second_open : Execution
second_open = record { candle = second_bar; reference = pos 10200000000; timestamp = 60001000 }

second_executes : execution_candle first_bar two_bars next_bar ≡ ok second_open
unfolding execution_candle candidates sort insert to_decimal quantize round_half_even ◌*ℤ◌ ten_pow
second_executes = refl

next_bar_lem_example :
    (60000000 ≤ second_bar.open_time)
    × (60000000 < second_open.timestamp)
    × (second_bar.open_time ≤ second_open.timestamp)
    × IsAbove open_time_of second_bar.open_time (candidates first_bar two_bars)
next_bar_lem_example = next_bar_lem first_bar two_bars second_open second_executes

-- Two bought at the reference 102: the price is 102.051 after slippage.
shifted :
    execution_price new_order (pos 10200000000) (pos 200000000) taker_model false
    ≡ ok (pos 10205100000, pos 10200000)
unfolding execution_price Slippage.apply Order.post_init mul_units mul_rate quantize round_half_even
    ◌*ℤ◌ ◌+ℤ◌
shifted = refl

execution_price_lem_example :
    (pos 0 <ℤ pos 200000000)
    × (pos 0 <ℤ pos 10205100000)
    × Slippage.IsAdverse new_order.side (pos 10200000)
    × AtOrBeyond new_order.side (pos 10200000000) (pos 10205100000)
execution_price_lem_example =
    execution_price_lem new_order (pos 10200000000) (pos 200000000) taker_model false
      (pos 10205100000) (pos 10200000) shifted

abbrev two_at_102 : FillRequest
two_at_102 = record {
  reference = pos 10200000000;
  quantity = pos 200000000;
  timestamp = 60001000;
  gap_filled = false;
  qty_truncated = false;
  exit_reason = none;
}

bought : (f : Fill) × (o : Order) × (fill new_order two_at_102 taker_model ≡ ok (f, o))
unfolding fill execution_price Slippage.apply Order.post_init mul_units mul_rate quantize
    round_half_even ◌*ℤ◌ ◌+ℤ◌ Fee.calc mark_as_filled cumulative_average Fill.post_init
bought = (_, _, refl)

fill-IsFilled_example : IsFilled new_order two_at_102 taker_model bought.0 bought.1
fill-IsFilled_example = fill-IsFilled new_order two_at_102 taker_model bought.0 bought.1 bought.2

affordable_entry_quantity_lem_example :
    (k : ℕ) × (affordable_entry_quantity new_order
        (pos 10000000000)
        (pos 200000000)
        (pos 1500000000)
        taker_model
        10
      ≡ ok (pos k))
    × (pos k ≤ℤ pos 200000000)
    × (need (pos 10000000000) fee_rate 10 k ≤ℤ pos 1500000000)
    × ((n : ℕ)
        → pos n ≤ℤ pos 200000000
        → need (pos 10000000000) fee_rate 10 n ≤ℤ pos 1500000000
        → n ≤ k)
affordable_entry_quantity_lem_example =
    affordable_entry_quantity_lem new_order (pos 10000000000) taker_model 10 fee_rate (λ n. refl)
      (omega arith) (omega arith) (omega arith) (pos 200000000) (pos 1500000000) (omega arith)
      (omega arith)

-- With 15 of margin at ten times leverage the order for two is cut.
abbrev fifteen : Limits
fifteen = record { risk_budget = none; available_margin = some (pos 1500000000); leverage = 10 }

settled :
    (q : ℤ) × (s : Option ℤ) × (converge 32 new_order
        (pos 10200000000)
        false
        fifteen
        taker_model
        (pos 200000000)
      ≡ ok (q, s))
unfolding converge execution_price Order.post_init ◌+ℤ◌ ◌-ℤ◌ Slippage.apply mul_units quantize ◌*ℤ◌
    round_half_even mul_rate recompute_qty_and_stop reanchor risk_truncated margin_truncated
    affordable_entry_quantity search_units remaining_quantity Fee.calc entry_cash_requirement
settled = (_, _, refl)

converge_bounds_example : (pos 0 <ℤ settled.0) × (settled.0 ≤ℤ pos 200000000)
converge_bounds_example =
    converge_bounds 32 new_order (pos 10200000000) false fifteen taker_model (pos 200000000)
      settled.0 settled.1 settled.2

matched :
    (f : Fill) × (o : Order) × (match new_order first_bar two_bars taker_model next_bar fifteen
      ≡ ok (f, o))
unfolding match is_terminal execution_candle sort insert candidates trigger_reference to_decimal
    ten_pow converge execution_price Order.post_init ◌+ℤ◌ ◌-ℤ◌ Slippage.apply mul_units quantize
    ◌*ℤ◌ round_half_even mul_rate recompute_qty_and_stop reanchor risk_truncated margin_truncated
    affordable_entry_quantity search_units remaining_quantity Fee.calc entry_cash_requirement
    check_cash fill mark_as_filled cumulative_average Fill.post_init
matched = (_, _, refl)

match-IsMatched_example : IsMatched new_order first_bar two_bars next_bar matched.0 matched.1
match-IsMatched_example =
    match-IsMatched new_order first_bar two_bars taker_model next_bar fifteen matched.0 matched.1
      matched.2

match_cash_example :
    let notional = mul_units (matched.0).price (matched.0).quantity in
    (rate : Rate) × (taker_model.fee new_order.symbol notional ≡ ok rate)
    × ((quantize notional 10 +ℤ mul_rate notional rate +ℤ mul_rate notional rate) ≤ℤ pos 1500000000)
match_cash_example =
    match_cash new_order first_bar two_bars taker_model next_bar fifteen matched.0 matched.1
      (pos 1500000000) matched.2 refl
