-- ===== src/Examples/Types.antt =====
-- The properties of the order, the position and the trade at concrete inputs.
use trading_system_v.Prelude.{◌≡◌, ◌↔◌, refl, true, false, not, arith, some, none}
use trading_system_v.Prelude.Int.{pos, ◌-ℤ◌, ◌*ℤ◌, ◌+ℤ◌, ◌<ℤ◌}
use trading_system_v.Prelude.Result.{ok, err, value_error}
use trading_system_v.Money.{quantize, ten_pow}
use trading_system_v.Money.Half.{round_half_even}
use trading_system_v.Types.Trade
use trading_system_v.Types.Trade.{Trade, expected_net_pnl, post_init_accounts}
use trading_system_v.Types.Enums.{buy, futures, take_profit, filled, is_terminal, is_active}
use trading_system_v.Types.Order
use trading_system_v.Types.Order.Validation
use trading_system_v.Types.Order.Methods.{mark_as_filled}
use trading_system_v.Types.Order.Lifecycle.{
  IsStuck, IsAtomic, terminal_iff_IsStuck, mark_as_filled_iff, mark_as_filled-IsAtomic,
}
use trading_system_v.Types.Position
use trading_system_v.Types.Position.{
  cost_with, add_quantity, added, reduce_quantity, reduced, released_margin,
}
use trading_system_v.Types.Position.Validation as PositionValidation
use trading_system_v.Types.Position.Averaging.{add_quantity_small, add_quantity_large}
use trading_system_v.Types.Position.Reduction.{reduce_quantity_lem}
use trading_system_v.Examples.Data.{new_order, long_position}

new_order-IsValid : Validation.IsValid new_order
new_order-IsValid = record {
  quantity_positive = omega arith;
  filled_nonneg = omega arith;
  filled_within = omega arith;
  fee_nonneg = omega arith;
  exclusive = refl;
  average = refl;
  fill = refl;
}

order_post_init_iff_example :
    (Order.post_init new_order ≡ ok new_order) ↔ Validation.IsValid new_order
order_post_init_iff_example = Validation.order_post_init_iff new_order

terminal_iff_IsStuck_example :
    ((is_terminal filled ≡ true) ↔ IsStuck filled) × (is_active filled ≡ not (is_terminal filled))
terminal_iff_IsStuck_example = terminal_iff_IsStuck filled

mark_as_filled_iff_example :
    ((mark_as_filled (pos 200000000) (pos 5) new_order).0 ≡ ok tt)
    ↔ ((is_active new_order.status ≡ true) × (pos 200000000 ≡ pos 200000000) × (pos 0 <ℤ pos 5))
mark_as_filled_iff_example = mark_as_filled_iff (pos 200000000) (pos 5) new_order new_order-IsValid

mark_as_filled-IsAtomic_example : IsAtomic new_order (mark_as_filled (pos 7) (pos 5) new_order)
mark_as_filled-IsAtomic_example =
    mark_as_filled-IsAtomic (pos 7) (pos 5) new_order new_order-IsValid

position_post_init_iff_example :
    (Position.post_init long_position ≡ (ok tt, long_position))
    ↔ PositionValidation.IsValid long_position
position_post_init_iff_example = PositionValidation.position_post_init_iff long_position

-- The long position's total cost is quantity times price.
pub long_position-IsValid : PositionValidation.IsValid long_position
unfolding ◌*ℤ◌ ◌+ℤ◌
long_position-IsValid = record {
  quantity_nonneg = omega arith;
  leverage_positive = omega arith;
  margin_nonneg = omega arith;
  cost = omega arith;
}

add_quantity_small_example :
    (add_quantity (pos 100000000) (pos 10100000000) long_position
      ≡ (ok tt, added (pos 100000000) (pos 10100000000) long_position))
    × PositionValidation.IsValid (added (pos 100000000) (pos 10100000000) long_position)
unfolding ◌+ℤ◌
add_quantity_small_example =
    add_quantity_small long_position (pos 100000000) (pos 10100000000) long_position-IsValid
      (omega arith) (omega arith) (omega arith)

reduce_quantity_lem_example :
    let q = pos 50000000 in
    (reduce_quantity q long_position
      ≡ (ok (released_margin long_position q), reduced q long_position))
    × PositionValidation.IsValid (reduced q long_position)
    × ((reduced q long_position).quantity +ℤ q ≡ pos 200000000)
    × ((reduced q long_position).margin +ℤ released_margin long_position q ≡ pos 2000000000)
reduce_quantity_lem_example =
    reduce_quantity_lem long_position (pos 50000000) long_position-IsValid (omega arith)
      (omega arith)

-- Three million at 1.00.
abbrev big_position : Position.Position
big_position = record long_position {
  quantity = pos 300000000000000;
  average_price = pos 100000000;
  entry_price = pos 100000000;
  total_cost = pos 300000000000000;
}

big_position-IsValid : PositionValidation.IsValid big_position
unfolding ◌*ℤ◌ ◌+ℤ◌
big_position-IsValid = record {
  quantity_nonneg = omega arith;
  leverage_positive = omega arith;
  margin_nonneg = omega arith;
  cost = omega arith;
}

-- One million more at 1.00000002.
add_quantity_large_example : add_quantity (pos 100000000000000) (pos 100000002) big_position ≡ (
  err (value_error "total_cost must equal quantity * average_price within 0.01"),
  added (pos 100000000000000) (pos 100000002) big_position,
)
unfolding cost_with quantize round_half_even ◌*ℤ◌ ◌+ℤ◌
add_quantity_large_example =
    add_quantity_large big_position (pos 100000000000000) (pos 100000002) big_position-IsValid
      (omega arith) (omega arith) (omega arith) (omega arith) (omega arith)

abbrev small_trade : Trade
small_trade = record {
  source_type = "backtest";
  symbol = "BTCUSDT";
  side = buy;
  market_type = futures;
  entry_price = pos 10000000000;
  entry_quantity = pos 100000000;
  entry_time = 60000000;
  exit_price = pos 11000000000;
  exit_quantity = pos 100000000;
  exit_time = 120000000;
  exit_reason = take_profit;
  gross_pnl = pos 1000000000;
  total_fee = pos 21000000;
  slippage = pos 0;
  funding_cost = pos 1000000;
  liquidation_penalty = pos 0;
  net_pnl = pos 978000000;
  return_pct = pos 9780000;
  r0 = none;
  leverage = 10;
  liquidated = false;
  wallet_id = none;
  backtest_run_id = some "run";
  strategy_id = "s";
  strategy_name = "strategy";
  hold_duration_seconds = pos 60;
  signal_confidence = record { digits = pos 5; places = 1 };
  reason = "target";
}

small_trade_accepted : Trade.post_init small_trade ≡ ok small_trade
unfolding Trade.post_init ◌-ℤ◌ ◌*ℤ◌ ten_pow
small_trade_accepted = refl
