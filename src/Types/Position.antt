-- ===== src/Types/Position.antt =====
-- services/core-lib/core_lib/types/position.py: `Position`, its `__post_init__` and its methods.
-- Prices and amounts count units; the methods return the position beside what they return or raise.
pub mod Validation
pub mod Averaging
pub mod Reduction
use trading_system_v.Prelude.{◌*◌, ℕ, String, Bool, true, false, not, if◌then◌else◌, Option, ltb}
use trading_system_v.Prelude.Int.{ℤ, pos, neg, ◌+ℤ◌, ◌-ℤ◌, ◌*ℤ◌, abs, ltb_ℤ, leb_ℤ, eqb_ℤ, pos_part}
use trading_system_v.Prelude.Result.{Result, ok, err, value_error}
use trading_system_v.Prelude.Exec.{Exec, ◌>>=◌, ◌>>◌, check, modify, guard, pure}
use trading_system_v.Money.{scale, quantize, mul_units, div_units}
use trading_system_v.Types.Enums.{
  PositionSide, short, MarketType, futures, spot, MarginType, side_eq,
}

pub record Position : Type 0 where
  pub wallet_id : Option String
  pub symbol : String
  pub quantity : ℤ
  pub average_price : ℤ
  pub total_cost : ℤ
  pub current_price : ℤ
  pub unrealized_pnl : ℤ
  pub side : PositionSide
  pub market_type : MarketType
  pub leverage : ℕ
  pub margin_type : MarginType
  pub margin : ℤ
  pub entry_price : ℤ
  pub mark_price : ℤ
  pub liquidation_price : ℤ
  pub funding_fee_total : ℤ

-- `_TOTAL_COST_TOLERANCE`, 0.01 in units.
abbrev pub total_cost_tolerance : ℕ
total_cost_tolerance = 1000000

-- The test of `_validate_total_cost`: quantity * average_price has sixteen places, so both sides
-- are in units of 1e-16.
unfoldable pub cost_differs : Position → Bool
cost_differs p =
    let expected = p.quantity *ℤ p.average_price in
    ltb_ℤ (pos (total_cost_tolerance * scale)) (abs (p.total_cost *ℤ pos scale -ℤ expected))

-- `_validate_total_cost`.
unfoldable pub validate_total_cost : Exec Position (Unit {0})
unfolding cost_differs
validate_total_cost =
    guard cost_differs "total_cost must equal quantity * average_price within 0.01"

-- `__post_init__`; that leverage is an integer of at least zero is its type here.
unfoldable pub post_init : Exec Position (Unit {0})
unfolding validate_total_cost
post_init = do
  guard (λ p. ltb_ℤ p.quantity (pos 0)) "quantity must be non-negative"
  guard (λ p. not (ltb 0 p.leverage)) "leverage must be positive"
  guard (λ p. ltb_ℤ p.margin (pos 0)) "margin must be non-negative"
  validate_total_cost

abbrev is_futures : MarketType → Bool
is_futures futures = true
is_futures spot = false

-- The unrealized PnL of `update_price`: price move times quantity, or value less cost.
unfoldable pub unrealized : Position → ℤ → ℤ
unrealized p price =
    let price_delta = price -ℤ p.entry_price in
    if is_futures p.market_type
    then mul_units (if side_eq p.side short then neg price_delta else price_delta) p.quantity
    else quantize (p.quantity *ℤ price -ℤ p.total_cost *ℤ pos scale) scale

unfoldable pub update_price : ℤ → Exec Position (Unit {0})
unfolding unrealized validate_total_cost
update_price price = do
  guard (λ p. leb_ℤ price (pos 0)) "mark price must be positive"
  modify (λ p. record p { current_price = price; mark_price = price })
  modify (λ p. record p { unrealized_pnl = unrealized p price })
  validate_total_cost

-- quantize(total_cost + quantity * price).
unfoldable pub cost_with : Position → ℤ → ℤ → ℤ
cost_with p quantity price = quantize (p.total_cost *ℤ pos scale +ℤ quantity *ℤ price) scale

-- The assignments of `add_quantity`.
unfoldable pub added : ℤ → ℤ → Position → Position
unfolding cost_with
added quantity price p =
    let new_quantity = p.quantity +ℤ quantity in
    let new_total_cost = cost_with p quantity price in
    let average = div_units new_total_cost new_quantity in
    record p {
      quantity = new_quantity;
      total_cost = new_total_cost;
      average_price = average;
      entry_price = average;
    }

unfoldable pub add_quantity : ℤ → ℤ → Exec Position (Unit {0})
unfolding validate_total_cost
add_quantity quantity price = do
  guard (λ p. leb_ℤ quantity (pos 0)) "added quantity must be positive"
  guard (λ p. leb_ℤ price (pos 0)) "entry price must be positive"
  modify (added quantity price)
  validate_total_cost

-- quantize(margin * quantity / old_quantity).
unfoldable pub released_margin : Position → ℤ → ℤ
released_margin p quantity = quantize (p.margin *ℤ quantity) (pos_part p.quantity)

abbrev flatten_prices : Position → Position
flatten_prices p =
    if eqb_ℤ p.quantity (pos 0)
    then record p {
      average_price = pos 0;
      entry_price = pos 0;
      current_price = pos 0;
      mark_price = pos 0;
      unrealized_pnl = pos 0;
      liquidation_price = pos 0;
    }
    else p

-- The assignments of `reduce_quantity`.
unfoldable pub reduced : ℤ → Position → Position
unfolding released_margin
reduced quantity p =
    let rest = p.quantity -ℤ quantity in
    flatten_prices (record p {
      quantity = rest;
      total_cost = mul_units rest p.average_price;
      margin = p.margin -ℤ released_margin p quantity;
    })

-- Returns the released margin.
unfoldable pub reduce_quantity : ℤ → Exec Position ℤ
unfolding validate_total_cost
reduce_quantity quantity = do
  guard (λ p. leb_ℤ quantity (pos 0)) "reduced quantity must be positive"
  guard (λ p. ltb_ℤ p.quantity quantity) "cannot reduce more than the position quantity"
  released ← (λ p. (ok (released_margin p quantity), p))
  modify (reduced quantity)
  validate_total_cost
  pure released
