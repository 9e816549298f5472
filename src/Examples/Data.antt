-- ===== src/Examples/Data.antt =====
-- Orders, positions, candles and a cost model for the examples. One is written as 100000000 units.
use trading_system_v.Prelude.{true, false, none, some, List, [], ◌∷◌}
use trading_system_v.Prelude.Int.{pos}
use trading_system_v.Prelude.Result.{ok}
use trading_system_v.Money.{Rate}
use trading_system_v.Types.Enums.{OrderType, buy, sell, new, filled, long, isolated, futures}
use trading_system_v.Types.Order.{Order}
use trading_system_v.Types.Position.{Position}
use trading_system_v.Types.Candle.{Candle}
use trading_system_v.Types.Fill.{Fill}
use trading_system_v.Costs.Model.{CostModel}
use trading_system_v.Execution.Trigger.{HistoryItem}
use trading_system_v.Execution.Book.{Opening}

-- A new market order to buy two at leverage.
abbrev pub new_order : Order
new_order = record {
  id = "o1";
  wallet_id = none;
  signal_id = none;
  order_type = OrderType.market;
  side = buy;
  symbol = "BTCUSDT";
  quantity = pos 200000000;
  price = none;
  filled_quantity = pos 0;
  average_filled_price = none;
  status = new;
  fee = pos 0;
  client_order_id = "c1";
  market_type = futures;
  position_side = long;
  reduce_only = false;
  close_position = false;
  stop_price = none;
  time_in_force = "GTC";
}

abbrev pub filled_order : Order
filled_order = record new_order {
  status = filled;
  filled_quantity = pos 200000000;
  average_filled_price = some (pos 10000000000);
}

-- A long of two at 100, with an isolated margin of 20.
abbrev pub long_position : Position
long_position = record {
  wallet_id = none;
  symbol = "BTCUSDT";
  quantity = pos 200000000;
  average_price = pos 10000000000;
  total_cost = pos 20000000000;
  current_price = pos 10000000000;
  unrealized_pnl = pos 0;
  side = long;
  market_type = futures;
  leverage = 10;
  margin_type = isolated;
  margin = pos 2000000000;
  entry_price = pos 10000000000;
  mark_price = pos 10000000000;
  liquidation_price = pos 9050000000;
  funding_fee_total = pos 0;
}

-- A maintenance rate of 0.5 %, a fee of 0.1 % and slippage of 0.05 %.
abbrev pub maintenance : Rate
maintenance = record { num = pos 5; den_pred = 999 }

abbrev pub fee_rate : Rate
fee_rate = record { num = pos 1; den_pred = 999 }

abbrev pub taker_model : CostModel
taker_model = record {
  fee = λ symbol notional. ok fee_rate;
  slippage = λ order context. ok (record { num = pos 1; den_pred = 1999 });
  funding_rate = λ time. fee_rate;
  maintenance_margin_rate = some maintenance;
}

-- A one-minute candle from 100 down to 96 and up to 104, which closes at 101.
abbrev pub first_bar : Candle
first_bar = record {
  symbol = "BTCUSDT";
  exchange = "binance";
  timeframe = "1m";
  open_time = 0;
  close_time = 60000000;
  opening = record { digits = pos 100; places = 0 };
  high = record { digits = pos 104; places = 0 };
  low = record { digits = pos 96; places = 0 };
  close = record { digits = pos 101; places = 0 };
  volume = record { digits = pos 5; places = 0 };
  quote_volume = none;
  trade_count = none;
}

-- The next bar, which opens at 102.
abbrev pub second_bar : Candle
second_bar = record first_bar {
  open_time = 60000000;
  close_time = 120000000;
  opening = record { digits = pos 102; places = 0 };
}

abbrev pub two_bars : List HistoryItem
two_bars =
    record { candle = first_bar; is_decision = true }
    ∷ record { candle = second_bar; is_decision = false }
    ∷ []

-- An entry of one at 100, and the exit of the same at 110.
abbrev pub entry_fill : Fill
entry_fill = record {
  order_id = "o1";
  symbol = "BTCUSDT";
  side = buy;
  position_side = long;
  reference_price = pos 10000000000;
  price = pos 10000000000;
  quantity = pos 100000000;
  fee = pos 10000000;
  slippage = pos 0;
  liquidity = "taker";
  timestamp = 60000000;
  reduce_only = false;
  exit_reason = none;
  gap_filled = false;
  qty_truncated = false;
}

abbrev pub exit_fill : Fill
exit_fill = record entry_fill {
  side = sell;
  reduce_only = true;
  reference_price = pos 11000000000;
  price = pos 11000000000;
}

abbrev pub ten_times : Opening
ten_times = record {
  leverage = some 10;
  margin_type = some isolated;
  market_type = futures;
  liquidation_price = pos 0;
}
