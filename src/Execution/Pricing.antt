-- ===== src/Execution/Pricing.antt =====
-- execution/matcher.py: the execution price after slippage, and `_fill`, which marks the order as
-- filled and returns the fill.
pub mod Filled
use trading_system_v.Prelude.{
  if◌then◌else◌, ℕ, Bool, true, false, not, ◌&&◌, ◌||◌, Option, none, some,
}
use trading_system_v.Prelude.Int.{ℤ, pos, ◌+ℤ◌, ◌*ℤ◌, abs, leb_ℤ, pos_part}
use trading_system_v.Prelude.Result.{
  Result, ok, err, value_error, arithmetic_error, ◌>>=◌, ◌>>◌, raise_if,
}
use trading_system_v.Money.{scale, quantize, mul_units}
use trading_system_v.Types.Enums.{ExitReason}
use trading_system_v.Types.Order.{Order, post_init}
use trading_system_v.Types.Order.Methods.{mark_as_filled}
use trading_system_v.Types.Fill
use trading_system_v.Types.Fill.{Fill}
use trading_system_v.Costs.Model.{CostModel, Context}
use trading_system_v.Costs.Fee
use trading_system_v.Costs.Slippage

-- The order that the slippage is asked for: the fill's quantity on top of what is filled.
abbrev pub priced_order : Order → ℤ → Order
priced_order order quantity = record order { quantity = order.filled_quantity +ℤ quantity }

-- reference + slippage / quantity, where the division by zero raises.
shifted_price : ℤ → ℤ → ℤ → Result ℤ
shifted_price reference signed quantity = do
  (if leb_ℤ quantity (pos 0) then err (arithmetic_error "division by zero") else ok tt)
  ok (quantize (reference *ℤ quantity +ℤ signed *ℤ pos scale) (pos_part quantity))

-- `_execution_price`: the price and the signed slippage.
unfoldable pub execution_price : Order → ℤ → ℤ → CostModel → Bool → Result (ℤ × ℤ)
unfolding shifted_price
execution_price order reference quantity model gap_filled = do
  priced ← post_init (priced_order order quantity)
  signed ←
      Slippage.apply (mul_units reference quantity) order.side model priced
        (record { gap_filled = gap_filled; reference_price = reference })
  actual ← shifted_price reference signed quantity
  raise_if (leb_ℤ actual (pos 0)) "slippage produced a non-positive execution price"
  ok (actual, signed)

-- average_filled_price * filled_quantity, or nothing before the first fill.
abbrev previous_notional : Order → ℤ
previous_notional o = elim o.average_filled_price [
  | none ↦ pos 0
  | some average ↦ average *ℤ o.filled_quantity
]

-- The average price over this fill and those before it.
unfoldable pub cumulative_average : Order → ℤ → ℤ → ℤ
cumulative_average o price quantity =
    quantize (previous_notional o +ℤ price *ℤ quantity) (pos_part (o.filled_quantity +ℤ quantity))

pub record FillRequest : Type 0 where
  pub reference : ℤ
  pub quantity : ℤ
  pub timestamp : ℕ
  pub gap_filled : Bool
  pub qty_truncated : Bool
  pub exit_reason : Option ExitReason

abbrev make_fill : Order → FillRequest → ℤ → ℤ → ℤ → Fill
make_fill order r price signed fee = record {
  order_id = order.id;
  symbol = order.symbol;
  side = order.side;
  position_side = order.position_side;
  reference_price = r.reference;
  price = price;
  quantity = r.quantity;
  fee = fee;
  slippage = abs signed;
  liquidity = "taker";
  timestamp = r.timestamp;
  reduce_only = order.reduce_only || order.close_position;
  exit_reason = r.exit_reason;
  gap_filled = r.gap_filled;
  qty_truncated = r.qty_truncated;
}

-- A method call that raises ends the caller; its object is returned beside.
abbrev pub returned {ℓ} : {S : Type 0} {A : Type ℓ} → Result A × S → Result S
returned (ok a, s) = ok s
returned (err e, s) = err e

-- `_fill`: the fill, and the order that it leaves.
unfoldable pub fill : Order → FillRequest → CostModel → Result (Fill × Order)
fill order r model = do
  (price, signed) ← execution_price order r.reference r.quantity model r.gap_filled
  rate ← model.fee order.symbol (mul_units price r.quantity)
  fee ← Fee.calc (mul_units price r.quantity) rate
  filled ←
      returned (mark_as_filled order.quantity (cumulative_average order price r.quantity) order)
  f ← Fill.post_init (make_fill order r price signed fee)
  ok (f, record filled { fee = filled.fee +ℤ fee })
