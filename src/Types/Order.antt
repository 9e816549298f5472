-- ===== src/Types/Order.antt =====
-- services/core-lib/core_lib/types/order.py: `Order`, its `__post_init__` and its methods. Prices
-- and quantities count units, so that quantize_price and quantize_amount leave the fields alone.
pub mod Validation
pub mod Methods
pub mod Lifecycle
use trading_system_v.Prelude.{
  true, false, String, Bool, not, ◌&&◌, ◌||◌, if◌then◌else◌, Option, none, some, List, [], ◌∷◌, any,
}
use trading_system_v.Prelude.Int.{ℤ, pos, ◌-ℤ◌, ltb_ℤ, leb_ℤ, eqb_ℤ}
use trading_system_v.Prelude.Result.{Result, ok, ◌>>=◌, ◌>>◌, raise_if}
use trading_system_v.Types.Enums.{
  OrderType, OrderSide, OrderStatus, new, partially_filled, pending_cancel, filled, cancelled,
  expired, rejected, failed, MarketType, PositionSide, status_eq,
}

pub record Order : Type 0 where
  pub id : String
  pub wallet_id : Option String
  pub signal_id : Option String
  pub order_type : OrderType
  pub side : OrderSide
  pub symbol : String
  pub quantity : ℤ
  pub price : Option ℤ
  pub filled_quantity : ℤ
  pub average_filled_price : Option ℤ
  pub status : OrderStatus
  pub fee : ℤ
  pub client_order_id : String
  pub market_type : MarketType
  pub position_side : PositionSide
  pub reduce_only : Bool
  pub close_position : Bool
  pub stop_price : Option ℤ
  pub time_in_force : String

-- `Order.VALID_TRANSITIONS`.
unfoldable pub valid_transitions : OrderStatus → List OrderStatus
valid_transitions new =
    partially_filled ∷ filled ∷ pending_cancel ∷ cancelled ∷ rejected ∷ expired ∷ failed ∷ []
valid_transitions partially_filled =
    partially_filled ∷ filled ∷ pending_cancel ∷ cancelled ∷ failed ∷ []
valid_transitions pending_cancel = cancelled ∷ filled ∷ failed ∷ []
valid_transitions filled = []
valid_transitions cancelled = []
valid_transitions expired = []
valid_transitions rejected = []
valid_transitions failed = []

-- `average_filled_price is None or average_filled_price <= ZERO`.
abbrev pub lacks_average : Option ℤ → Bool
lacks_average none = true
lacks_average (some p) = leb_ℤ p (pos 0)

abbrev pub has_average : Option ℤ → Bool
has_average none = false
has_average (some p) = true

-- The three statuses of an order that has never been filled.
abbrev pub is_untouched : OrderStatus → Bool
is_untouched s = any (status_eq s) (new ∷ expired ∷ rejected ∷ [])

-- `_validate_fill_status`: the average price, then the status against the filled quantity.
unfoldable pub validate_fill_status : Order → Result (Unit {0})
validate_fill_status o =
    let q = o.quantity in
    let f = o.filled_quantity in
    do
      if eqb_ℤ f (pos 0)
          then raise_if (has_average o.average_filled_price)
              "average_filled_price must be None when filled_quantity is zero"
          else raise_if (lacks_average o.average_filled_price)
              "average_filled_price must be positive when filled_quantity is positive"
      raise_if (status_eq o.status partially_filled && not (ltb_ℤ (pos 0) f && ltb_ℤ f q))
          "PARTIALLY_FILLED requires 0 < filled_quantity < quantity"
      raise_if (status_eq o.status filled && not (eqb_ℤ f q))
          "FILLED requires filled_quantity to equal quantity"
      raise_if (not (status_eq o.status filled) && eqb_ℤ f q)
          "only FILLED may have the full quantity filled"
      raise_if (is_untouched o.status && not (eqb_ℤ f (pos 0))) "orders cannot have filled quantity"

-- `__post_init__`: what `Order(...)` and `dataclasses.replace` return, or the exception.
unfoldable pub post_init : Order → Result Order
unfolding validate_fill_status
post_init o = do
  raise_if (leb_ℤ o.quantity (pos 0)) "quantity must be positive"
  raise_if (ltb_ℤ o.filled_quantity (pos 0)) "filled_quantity must be non-negative"
  raise_if (ltb_ℤ o.quantity o.filled_quantity) "filled_quantity cannot exceed quantity"
  raise_if (ltb_ℤ o.fee (pos 0)) "fee must be non-negative"
  raise_if (o.reduce_only && o.close_position)
      "reduce_only and close_position are mutually exclusive"
  validate_fill_status o
  ok o

-- `remaining_quantity`.
unfoldable pub remaining_quantity : Order → ℤ
remaining_quantity o = o.quantity -ℤ o.filled_quantity
