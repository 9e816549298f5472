-- ===== src/Execution/Matcher.antt =====
-- execution/matcher.py: `recompute_qty_and_stop` and `match`.
pub mod Steps
pub mod Safety
use trading_system_v.Prelude.{
  ℕ, zero, suc, ◌+◌, Bool, true, false, not, ◌&&◌, ◌||◌, ltb, if◌then◌else◌, Option, none, some,
  List,
}
use trading_system_v.Prelude.Int.{ℤ, pos, ◌+ℤ◌, ◌-ℤ◌, abs, min_ℤ, leb_ℤ, ltb_ℤ, eqb_ℤ}
use trading_system_v.Prelude.Result.{
  Result, ok, err, value_error, runtime_error, ◌>>=◌, ◌>>◌, raise_if,
}
use trading_system_v.Money.{div_units}
use trading_system_v.Types.Enums.{OrderType, PositionSide, long, short, both, is_terminal}
use trading_system_v.Types.Order.{Order, remaining_quantity}
use trading_system_v.Types.Candle.{Candle}
use trading_system_v.Types.Fill.{Fill}
use trading_system_v.Costs.Model.{CostModel}
use trading_system_v.Execution.Trigger.{
  HistoryItem, FillTiming, Execution, Trigger, execution_candle, trigger_reference,
}
use trading_system_v.Execution.Pricing.{execution_price, fill, FillRequest}
use trading_system_v.Execution.Affordable.{entry_cash_requirement, affordable_entry_quantity}

-- The keyword arguments that bound an entry.
pub record Limits : Type 0 where
  pub risk_budget : Option ℤ
  pub available_margin : Option ℤ
  pub leverage : ℕ

-- `order.price or fill_price`: a price of zero counts as none.
abbrev price_or : Option ℤ → ℤ → ℤ
price_or none fill_price = fill_price
price_or (some p) fill_price = if eqb_ℤ p (pos 0) then fill_price else p

anchored_stop : PositionSide → ℤ → ℤ → Result ℤ
anchored_stop long fill_price distance = ok (fill_price -ℤ distance)
anchored_stop short fill_price distance = ok (fill_price +ℤ distance)
anchored_stop both fill_price distance =
    err (value_error "entry direction is ambiguous for PositionSide.BOTH")

-- The stop distance and the stop re-anchored to the fill, for an order that has a stop.
unfoldable pub reanchor : Order → ℤ → Option ℤ → Result (Option (ℤ × ℤ))
unfolding anchored_stop
reanchor order fill_price none = ok none
reanchor order fill_price (some stop) = do
  let distance = abs (price_or order.price fill_price -ℤ stop)
  raise_if (eqb_ℤ distance (pos 0)) "initial stop distance must be positive"
  new_stop ← anchored_stop order.position_side fill_price distance
  ok (some (distance, new_stop))

risk_for : ℤ → Option (ℤ × ℤ) → ℤ → Result ℤ
risk_for budget none quantity = err (value_error "risk truncation requires an initial stop")
risk_for budget (some (distance, new_stop)) quantity =
    ok (min_ℤ quantity (div_units budget distance))

-- The quantity that the risk budget buys at the stop distance, if that is less.
unfoldable pub risk_truncated : Option ℤ → Option (ℤ × ℤ) → ℤ → Result ℤ
unfolding risk_for
risk_truncated none stop quantity = ok quantity
risk_truncated (some budget) stop quantity = do
  raise_if (leb_ℤ budget (pos 0)) "risk_budget must be a positive Decimal"
  risk_for budget stop quantity

-- The quantity that the available margin affords, if that is less.
unfoldable pub margin_truncated : Option ℤ → Order → ℤ → ℕ → CostModel → ℤ → Result ℤ
margin_truncated none order fill_price leverage model quantity = ok quantity
margin_truncated (some available) order fill_price leverage model quantity = do
  raise_if (ltb_ℤ available (pos 0)) "available_margin must be a non-negative Decimal"
  affordable ← affordable_entry_quantity order fill_price quantity available model leverage
  ok (min_ℤ quantity affordable)

abbrev new_stop_of : Option (ℤ × ℤ) → Option ℤ
new_stop_of none = none
new_stop_of (some (distance, new_stop)) = some new_stop

-- `recompute_qty_and_stop`, called with a cost model, as `match` does.
unfoldable pub recompute_qty_and_stop : Order → ℤ → Limits → CostModel → Result (ℤ × Option ℤ)
recompute_qty_and_stop order fill_price limits model = do
  raise_if (leb_ℤ fill_price (pos 0)) "fill_price must be a positive Decimal"
  raise_if (not (ltb 0 limits.leverage)) "leverage must be a positive int"
  stop ← reanchor order fill_price order.stop_price
  by_risk ← risk_truncated limits.risk_budget stop (remaining_quantity order)
  quantity ← margin_truncated limits.available_margin order fill_price limits.leverage model by_risk
  ok (quantity, new_stop_of stop)

-- The loop of `match`, over the rounds that are left: the quantity that repeats, and its stop.
unfoldable pub converge : ℕ → Order → ℤ → Bool → Limits → CostModel → ℤ → Result (ℤ × Option ℤ)
converge zero order reference gap_filled limits model quantity =
    err (runtime_error "fee-aware quantity truncation did not converge")
converge (suc rounds) order reference gap_filled limits model quantity = do
  (preview, _) ← execution_price order reference quantity model gap_filled
  (recomputed, new_stop) ← recompute_qty_and_stop order preview limits model
  let next = min_ℤ quantity recomputed
  let again = converge rounds order reference gap_filled limits model next
  (if eqb_ℤ next quantity then ok (quantity, new_stop) else again)

triggered_or_raise : Trigger → Result (ℤ × Bool)
triggered_or_raise none = err (value_error "order did not trigger in the execution candle")
triggered_or_raise (some t) = ok t

-- `order.order_type is OrderType.MARKET`.
abbrev pub is_market : OrderType → Bool
is_market OrderType.market = true
is_market _ = false

abbrev pub entry_margin : Order → Option ℤ → Option ℤ
entry_margin order available = if order.reduce_only || order.close_position then none else available

-- The order as it is filled: cut down to the quantity, and with its new stop.
abbrev pub truncated_order : Order → ℤ → Option ℤ → Order
truncated_order order quantity new_stop =
    let cut =
      if ltb_ℤ quantity (remaining_quantity order)
      then order.filled_quantity +ℤ quantity
      else order.quantity in
    record order {
      quantity = cut;
      stop_price = elim new_stop [ none ↦ order.stop_price | some s ↦ some s ];
    }

-- The last check: the entry at its final price still fits the cash.
unfoldable pub check_cash : Option ℤ → Order → ℤ → ℤ → Bool → ℕ → CostModel → Result (Unit {0})
check_cash none order reference quantity gap_filled leverage model = ok tt
check_cash (some available) order reference quantity gap_filled leverage model = do
  (final_price, _) ← execution_price order reference quantity model gap_filled
  requirement ← entry_cash_requirement order final_price quantity model leverage
  (if ltb_ℤ available requirement
      then err (runtime_error "truncated entry still exceeds available cash")
      else ok tt)

-- `match`: the fill, and the order that it leaves.
unfoldable pub match :
    Order → Candle → List HistoryItem → CostModel → FillTiming → Limits → Result (Fill × Order)
unfolding triggered_or_raise
match order candle history model fill_timing limits = do
  raise_if (is_terminal order.status) "terminal orders cannot be matched"
  execution ← execution_candle candle history fill_timing
  trigger ← trigger_reference order execution.candle
  (triggered, gap_filled) ← triggered_or_raise trigger
  let reference = if is_market order.order_type then execution.reference else triggered
  let margin = entry_margin order limits.available_margin
  (quantity, new_stop) ←
      converge 32 order reference gap_filled (record limits { available_margin = margin }) model
        (remaining_quantity order)
  raise_if (leb_ℤ quantity (pos 0)) "available risk or margin truncates the order to zero"
  let cut = truncated_order order quantity new_stop
  check_cash margin cut reference quantity gap_filled limits.leverage model
  fill cut
      (record {
        reference = reference;
        quantity = quantity;
        timestamp = execution.timestamp;
        gap_filled = gap_filled;
        qty_truncated = ltb_ℤ quantity (remaining_quantity order);
        exit_reason = none;
      })
      model
