-- ===== src/Types/Position/Averaging.antt =====
-- `Position.add_quantity`: the weighted average entry price, and when the total cost check passes.
use trading_system_v.Prelude.{◌/◌, inr, inl, Bool-cases, ℕ, ◌+◌, ◌*◌, ◌%◌, ◌<◌, ◌≤◌, ◌≡◌, arith}
use trading_system_v.Prelude.Int.{
  *ℤ_parts, negsuc, ℤ, pos, ◌≤ℤ◌, ◌<ℤ◌, ◌*ℤ◌, ◌+ℤ◌, pos_part, int_laws, *ℤ_comm,
}
use native.Mathlib.Decide.{dec_lt}
use native.Mathlib.Nat.{div-add-mod, mul-le-mul_left, mod-le}
use trading_system_v.Prelude.Result.{ok, err, value_error}
use trading_system_v.Money.{scale, div_units}
use trading_system_v.Money.Rounding.{quantize-near}
use trading_system_v.Types.Position.{
  Position, added, cost_with, cost_differs, add_quantity, total_cost_tolerance,
}
use trading_system_v.Types.Position.Validation.{IsValid, CostIsClose, cost_iff}

-- An average of a total over a quantity is off by at most half a unit for each unit of quantity.
div_units-near :
    (total n : ℤ)
    → pos 0 <ℤ n
    → let back = n *ℤ div_units total n in
      (back +ℤ back ≤ℤ total *ℤ pos scale +ℤ total *ℤ pos scale +ℤ n)
      × (total *ℤ pos scale +ℤ total *ℤ pos scale ≤ℤ back +ℤ back +ℤ n)
unfolding div_units
div_units-near total (pos n) h =
    rw (*ℤ_comm (pos n)) (quantize-near (total *ℤ pos scale) n (omega arith))
div_units-near total (negsuc n) h = absurd (omega arith)

-- No multiple of `n` is within `w` of a number whose remainder is further from both ends.
far_from_multiples : (n t w k : ℕ) → w < t % n → t % n + w < n → n * k ≤ t + w → t ≤ n * k + w → ⊥
far_from_multiples n t w k above below low high = elim (dec_lt (t / n) k) [
  | yes h ↦ omega (arith, div-add-mod t n, mul-le-mul_left n h)
  | no h ↦ omega (arith, div-add-mod t n, mul-le-mul_left {m = k} {n = t / n} n (omega arith))
]

far_from_products :
    (n t w : ℕ) (a : ℤ)
    → w < t % n
    → t % n + w < n
    → (pos n *ℤ a) ≤ℤ pos t +ℤ pos w
    → pos t ≤ℤ (pos n *ℤ a) +ℤ pos w
    → ⊥
far_from_products n t w (pos k) above below low high =
    far_from_multiples n t w k above below (omega (int_laws, *ℤ_parts (pos n) (pos k)))
      (omega (int_laws, *ℤ_parts (pos n) (pos k)))
far_from_products n t w (negsuc k) above below low high =
    omega (int_laws, *ℤ_parts (pos n) (negsuc k), mod-le t n)

far_cost :
    (n t a : ℤ) (w : ℕ)
    → pos 0 ≤ℤ n
    → pos 0 ≤ℤ t
    → w < (pos_part t * scale) % pos_part n
    → (pos_part t * scale) % pos_part n + w < pos_part n
    → (n *ℤ a) ≤ℤ (t *ℤ pos scale) +ℤ pos w
    → (t *ℤ pos scale) ≤ℤ (n *ℤ a) +ℤ pos w
    → ⊥
far_cost (pos n) (pos t) a w hn ht above below low high =
    far_from_products n (t * scale) w a above below (omega (int_laws, *ℤ_parts (pos t) (pos scale)))
      (omega (int_laws, *ℤ_parts (pos t) (pos scale)))
far_cost (pos n) (negsuc t) a w hn ht above below low high = absurd (omega arith)
far_cost (negsuc n) t a w hn ht above below low high = absurd (omega arith)

-- Two million units of the asset, in units of 1e-8.
abbrev pub averaging_limit : ℕ
averaging_limit = 2 * total_cost_tolerance * scale

module _ (p : Position) (quantity price : ℤ) (valid : IsValid p)
    (quantity_positive : pos 0 <ℤ quantity) where
  added-CostIsClose :
      (p.quantity +ℤ quantity) ≤ℤ pos averaging_limit → CostIsClose (added quantity price p)
  unfolding added
  added-CostIsClose small = omega (
    int_laws,
    valid.quantity_nonneg,
    div_units-near (cost_with p quantity price) (p.quantity +ℤ quantity)
        (omega (int_laws, valid.quantity_nonneg)),
  )

  added-IsValid : CostIsClose (added quantity price p) → IsValid (added quantity price p)
  unfolding added
  added-IsValid close = record {
    quantity_nonneg = omega (int_laws, valid.quantity_nonneg);
    leverage_positive = valid.leverage_positive;
    margin_nonneg = valid.margin_nonneg;
    cost = close;
  }

  -- Up to a resulting position of two million units, an increase of a well-formed position by a
  -- positive quantity at a positive price passes the check of the total cost, and the position
  -- stays well-formed.
  pub add_quantity_small :
      pos 0 <ℤ price
      → (p.quantity +ℤ quantity) ≤ℤ pos averaging_limit
      → (add_quantity quantity price p ≡ (ok tt, added quantity price p))
        × IsValid (added quantity price p)
  unfolding add_quantity
  add_quantity_small price_positive small =
      let close = added-CostIsClose small in
      (ground (arith, (cost_iff (added quantity price p)).1 close), added-IsValid close)

  far :
      let n = pos_part (p.quantity +ℤ quantity) in
      let t = pos_part (cost_with p quantity price) * scale in
      total_cost_tolerance * scale < t % n
      → t % n + total_cost_tolerance * scale < n
      → pos 0 ≤ℤ cost_with p quantity price
      → CostIsClose (added quantity price p)
      → ⊥
  unfolding added
  far above below cost_nonneg close =
      far_cost (p.quantity +ℤ quantity) (cost_with p quantity price)
        (added quantity price p).average_price (total_cost_tolerance * scale)
        (omega (int_laws, valid.quantity_nonneg)) cost_nonneg above below close.0 close.1

  -- Where the exact average of the new position is further than the tolerance, over the
  -- quantity, from both neighbouring prices, the same increase raises for the total cost, and
  -- leaves the position with the new quantity and cost.
  pub add_quantity_large :
      pos 0 <ℤ price
      → let n = pos_part (p.quantity +ℤ quantity) in
        let t = pos_part (cost_with p quantity price) * scale in
        pos 0 ≤ℤ cost_with p quantity price
        → total_cost_tolerance * scale < t % n
        → t % n + total_cost_tolerance * scale < n
        → add_quantity quantity price p ≡ (
          err (value_error "total_cost must equal quantity * average_price within 0.01"),
          added quantity price p,
        )
  unfolding add_quantity
  add_quantity_large price_positive cost_nonneg above below =
      elim (Bool-cases (cost_differs (added quantity price p))) [
        | inl differs ↦ ground arith
        | inr same ↦
            absurd (far above below cost_nonneg ((cost_iff (added quantity price p)).0 same))
      ]
