-- ===== src/Types/Position/Validation.antt =====
-- What `Position.__post_init__` accepts, and the tolerance on the total cost.
use trading_system_v.Prelude.{◌*◌, ◌<◌, ◌≡◌, ◌↔◌, false, arith}
use trading_system_v.Prelude.Int.{distance_iff, pos, ◌*ℤ◌, ◌+ℤ◌, ◌≤ℤ◌}
use trading_system_v.Prelude.Result.{ok}
use trading_system_v.Money.{scale}
use trading_system_v.Types.Position.{Position, cost_differs, post_init, total_cost_tolerance}

-- total_cost and quantity * average_price are within 0.01 of one another, in units of 1e-16.
abbrev pub CostIsClose : Position → Type 0
CostIsClose p =
    (p.quantity *ℤ p.average_price
      ≤ℤ p.total_cost *ℤ pos scale +ℤ pos (total_cost_tolerance * scale))
    × (p.total_cost *ℤ pos scale
        ≤ℤ p.quantity *ℤ p.average_price +ℤ pos (total_cost_tolerance * scale))

-- A well-formed position.
pub record IsValid (p : Position) : Type 0 where
  pub quantity_nonneg : pos 0 ≤ℤ p.quantity
  pub leverage_positive : 0 < p.leverage
  pub margin_nonneg : pos 0 ≤ℤ p.margin
  pub cost : CostIsClose p

pub cost_iff : (p : Position) → (cost_differs p ≡ false) ↔ CostIsClose p
unfolding cost_differs
cost_iff p =
    distance_iff (p.total_cost *ℤ pos scale) (p.quantity *ℤ p.average_price)
      (total_cost_tolerance * scale)

-- A new position is accepted exactly when its quantity and margin are not negative, its
-- leverage is positive and its total cost is within 0.01 of quantity times average price.
pub position_post_init_iff : (p : Position) → (post_init p ≡ (ok tt, p)) ↔ IsValid p
unfolding post_init
position_post_init_iff p = (
  λ h. record {
    quantity_nonneg = ground arith;
    leverage_positive = ground arith;
    margin_nonneg = ground arith;
    cost = (cost_iff p).0 (ground arith);
  },
  λ v. ground (arith, (cost_iff p).1 v.cost),
)
