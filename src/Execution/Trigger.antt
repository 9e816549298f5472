-- ===== src/Execution/Trigger.antt =====
-- execution/matcher.py: the candle that an order executes in, and the price that triggers it.
pub mod Bounds
pub mod NextBar
use trading_system_v.Prelude.{
  ℕ, ◌+◌, Bool, true, false, not, ◌&&◌, leb, ltb, if◌then◌else◌, Option, none, some, List, [], ◌∷◌,
}
use trading_system_v.Prelude.Int.{ℤ, leb_ℤ, ltb_ℤ, min_ℤ, max_ℤ}
use trading_system_v.Prelude.Result.{Result, ok, err, value_error, not_implemented}
use trading_system_v.Prelude.Sort.{sort}
use trading_system_v.Money.{Float, to_decimal}
use trading_system_v.Types.Enums.{OrderType, OrderSide, buy, sell}
use trading_system_v.Types.Order.{Order}
use trading_system_v.Types.Candle.{Candle}

-- FILL_TIMINGS; any other string raises.
pub data FillTiming : Type 0 where
  immediate next_bar unsupported : FillTiming

-- A candle of the history, and whether it is the very decision candle.
pub record HistoryItem : Type 0 where
  pub candle : Candle
  pub is_decision : Bool

pub record Execution : Type 0 where
  pub candle : Candle
  pub reference : ℤ
  pub timestamp : ℕ

-- The candidates for a next-bar execution, in the order of the history.
unfoldable pub candidates : Candle → List HistoryItem → List HistoryItem
candidates candle [] = []
candidates candle (h ∷ hs) =
    let rest = candidates candle hs in
    if not h.is_decision && leb candle.close_time h.candle.open_time then h ∷ rest else rest

abbrev pub open_time_of : HistoryItem → ℕ
open_time_of h = h.candle.open_time

-- max(next.open_time, decision.close_time + 1 ms).
abbrev execution_time : Candle → Candle → ℕ
execution_time next decision =
    let earliest = decision.close_time + 1000 in
    if ltb next.open_time earliest then earliest else next.open_time

next_execution : Candle → List HistoryItem → Result Execution
next_execution candle [] =
    err (value_error "next_bar matching requires a candle after the decision candle")
next_execution candle (h ∷ hs) = ok (record {
  candle = h.candle;
  reference = to_decimal h.candle.opening;
  timestamp = execution_time h.candle candle;
})

-- `_execution_candle`.
unfoldable pub execution_candle : Candle → List HistoryItem → FillTiming → Result Execution
unfolding next_execution
execution_candle candle history immediate =
    ok (record {
      candle = candle;
      reference = to_decimal candle.close;
      timestamp = candle.close_time;
    })
execution_candle candle history next_bar =
    next_execution candle (sort open_time_of (candidates candle history))
execution_candle candle history unsupported = err (value_error "unsupported fill_timing")

-- A reference price, and whether the bar opened past the level.
abbrev pub Trigger : Type 0
Trigger = Option (ℤ × Bool)

-- The LIMIT branch, from the open, the high and the low.
unfoldable pub limit_trigger : OrderSide → ℤ → ℤ → ℤ → ℤ → Trigger
limit_trigger buy price open_price high low =
    if leb_ℤ low price then some (min_ℤ open_price price, ltb_ℤ open_price price) else none
limit_trigger sell price open_price high low =
    if leb_ℤ price high then some (max_ℤ open_price price, ltb_ℤ price open_price) else none

-- The STOP_MARKET branch.
unfoldable pub stop_trigger : OrderSide → ℤ → ℤ → ℤ → ℤ → Trigger
stop_trigger buy stop open_price high low =
    if leb_ℤ stop high then some (max_ℤ open_price stop, ltb_ℤ stop open_price) else none
stop_trigger sell stop open_price high low =
    if leb_ℤ low stop then some (min_ℤ open_price stop, ltb_ℤ open_price stop) else none

-- The TAKE_PROFIT_MARKET branch.
unfoldable pub take_profit_trigger : OrderSide → ℤ → ℤ → ℤ → ℤ → Trigger
take_profit_trigger buy stop open_price high low =
    if leb_ℤ low stop then some (min_ℤ open_price stop, false) else none
take_profit_trigger sell stop open_price high low =
    if leb_ℤ stop high then some (max_ℤ open_price stop, false) else none

limit_or_raise : Option ℤ → OrderSide → ℤ → ℤ → ℤ → Result Trigger
limit_or_raise none side o h l = err (value_error "limit order requires price")
limit_or_raise (some p) side o h l = ok (limit_trigger side p o h l)

-- The branches on `stop_price`; a trailing stop raises once it has one.
stop_or_raise : OrderType → Option ℤ → OrderSide → ℤ → ℤ → ℤ → Result Trigger
stop_or_raise kind none side o h l = err (value_error "trigger order requires stop_price")
stop_or_raise OrderType.stop_market (some s) side o h l = ok (stop_trigger side s o h l)
stop_or_raise OrderType.take_profit_market (some s) side o h l =
    ok (take_profit_trigger side s o h l)
stop_or_raise kind (some s) side o h l = err (not_implemented "trailing-stop matching is reserved")

by_type : OrderType → Order → ℤ → ℤ → ℤ → Result Trigger
by_type OrderType.market order o h l = ok (some (o, false))
by_type OrderType.limit order o h l = limit_or_raise order.price order.side o h l
by_type kind order o h l = stop_or_raise kind order.stop_price order.side o h l

-- `_trigger_reference`.
unfoldable pub trigger_reference : Order → Candle → Result Trigger
unfolding by_type limit_or_raise stop_or_raise
trigger_reference order candle =
    by_type order.order_type order (to_decimal candle.opening) (to_decimal candle.high)
      (to_decimal candle.low)
