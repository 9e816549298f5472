-- ===== src/Types/Order/Validation.antt =====
-- What `Order.__post_init__` accepts.
use trading_system_v.Prelude.{refl, ◌≡◌, ◌↔◌, false, Option, none, some, ◌&&◌, arith}
use trading_system_v.Prelude.Int.{ℤ, pos, ◌≤ℤ◌, ◌<ℤ◌, ≤ℤ_antisymm, eq_of_parts}
use trading_system_v.Prelude.Result.{ok}
use trading_system_v.Types.Enums.{
  OrderStatus, new, partially_filled, pending_cancel, filled, cancelled, expired, rejected, failed,
}
use trading_system_v.Types.Order.{Order, post_init}

-- How far an order of each status is filled.
abbrev pub FillMatches : OrderStatus → ℤ → ℤ → Type 0
FillMatches new q f = f ≡ pos 0
FillMatches partially_filled q f = (pos 0 <ℤ f) × (f <ℤ q)
FillMatches pending_cancel q f = f <ℤ q
FillMatches filled q f = f ≡ q
FillMatches cancelled q f = f <ℤ q
FillMatches expired q f = f ≡ pos 0
FillMatches rejected q f = f ≡ pos 0
FillMatches failed q f = f <ℤ q

-- An average price, which is positive, is there exactly when something is filled.
abbrev pub AverageMatches : Option ℤ → ℤ → Type 0
AverageMatches none f = f ≡ pos 0
AverageMatches (some p) f = (pos 0 <ℤ p) × (pos 0 <ℤ f)

-- A well-formed order.
pub record IsValid (o : Order) : Type 0 where
  pub quantity_positive : pos 0 <ℤ o.quantity
  pub filled_nonneg : pos 0 ≤ℤ o.filled_quantity
  pub filled_within : o.filled_quantity ≤ℤ o.quantity
  pub fee_nonneg : pos 0 ≤ℤ o.fee
  pub exclusive : (o.reduce_only && o.close_position) ≡ false
  pub average : AverageMatches o.average_filled_price o.filled_quantity
  pub fill : FillMatches o.status o.quantity o.filled_quantity

average_of :
    (o : Order) (a : Option ℤ)
    → post_init o ≡ ok o
    → o.average_filled_price ≡ a
    → AverageMatches a o.filled_quantity
unfolding post_init
average_of o none h e = ground (arith, ≤ℤ_antisymm o.filled_quantity (pos 0))
average_of o (some p) h e = ground arith

fill_of :
    (o : Order) (s : OrderStatus)
    → post_init o ≡ ok o
    → o.status ≡ s
    → FillMatches s o.quantity o.filled_quantity
unfolding post_init
fill_of o new h e = ground (arith, eq_of_parts o.filled_quantity (pos 0))
fill_of o filled h e = ground (arith, eq_of_parts o.filled_quantity o.quantity)
fill_of o expired h e = ground (arith, eq_of_parts o.filled_quantity (pos 0))
fill_of o rejected h e = ground (arith, eq_of_parts o.filled_quantity (pos 0))
fill_of o _ h e = ground arith

-- A new order is accepted exactly when it is well-formed: its amounts are in range, its flags
-- exclude one another, and its average price and status match how far it is filled.
pub order_post_init_iff : (o : Order) → (post_init o ≡ ok o) ↔ IsValid o
unfolding post_init
order_post_init_iff o = (
  λ h. record {
    quantity_positive = ground arith;
    filled_nonneg = ground arith;
    filled_within = ground arith;
    fee_nonneg = ground arith;
    exclusive = ground arith;
    average = average_of o o.average_filled_price h refl;
    fill = fill_of o o.status h refl;
  },
  λ v. ground arith,
)
