-- ===== src/Types/Position/Reduction.antt =====
-- `Position.reduce_quantity`: what a partial and a full reduction leave, and the margin they release.
use trading_system_v.Prelude.{refl, ◌+◌, inr, inl, subst, Bool-cases, ap, ◌≡◌, arith}
use trading_system_v.Prelude.Int.{
  neg_part, *ℤ-mono_right, *ℤ_comm, *ℤ_parts, eqb_ℤ, eq_of_parts, negsuc, *ℤ_nonneg, ℤ, pos, ◌≤ℤ◌,
  ◌<ℤ◌, ◌*ℤ◌, ◌+ℤ◌, ◌-ℤ◌, pos_part, int_laws,
}
use trading_system_v.Prelude.Result.{ok}
use trading_system_v.Money.{scale, mul_units, quantize}
use trading_system_v.Money.Half.{round_half_even-zero}
use trading_system_v.Money.Rounding.{
  quantize-near, quantize-mono_num, quantize_nonneg, quantize-whole,
}
use trading_system_v.Types.Position.{Position, reduced, released_margin, reduce_quantity}
use trading_system_v.Types.Position.Validation.{IsValid, cost_iff}

-- The whole of a value is that value.
share-whole : (m n : ℤ) → pos 0 <ℤ n → quantize (m *ℤ n) (pos_part n) ≡ m
share-whole m (pos n) h = quantize-whole m n (omega arith)
share-whole m (negsuc n) h = absurd (omega arith)

-- A share of a value that is not negative lies between nothing and the whole.
share-bounds :
    (m q n : ℤ)
    → pos 0 ≤ℤ m
    → pos 0 ≤ℤ q
    → q ≤ℤ n
    → pos 0 <ℤ n
    → (pos 0 ≤ℤ quantize (m *ℤ q) (pos_part n)) × (quantize (m *ℤ q) (pos_part n) ≤ℤ m)
share-bounds m q (pos n) hm hq le hn = (
  quantize_nonneg (m *ℤ q) n (*ℤ_nonneg m q hm hq),
  subst (λ t. quantize (m *ℤ q) n ≤ℤ t) (share-whole m (pos n) hn)
      (quantize-mono_num (m *ℤ q) (m *ℤ pos n) n (omega arith)
        (rw (*ℤ_comm m q, *ℤ_comm m (pos n)) (*ℤ-mono_right q (pos n) m hm le))),
)
share-bounds m q (negsuc n) hm hq le hn = absurd (omega arith)

mul_units-CostIsClose :
    (q a : ℤ)
    → let t = mul_units q a in
      (q *ℤ a ≤ℤ t *ℤ pos scale +ℤ pos 100000000000000)
      × (t *ℤ pos scale ≤ℤ q *ℤ a +ℤ pos 100000000000000)
unfolding mul_units
mul_units-CostIsClose q a = omega (int_laws, quantize-near (q *ℤ a) scale (omega arith))

zero_product : (a b : ℤ) → a ≡ pos 0 → a *ℤ b ≡ pos 0
zero_product a b e = rw e (eq_of_parts _ _ (omega (int_laws, *ℤ_parts (pos 0) b)))

zero_cost : (a b : ℤ) → a ≡ pos 0 → mul_units a b ≡ pos 0
unfolding mul_units quantize
zero_cost a b e = rw (zero_product a b e) (ap pos (round_half_even-zero scale (omega arith)))

flat_CostIsClose :
    (q a : ℤ)
    → pos_part q + 0 ≡ 0 + neg_part q
    → let t = mul_units q a in
      (q *ℤ pos 0 ≤ℤ t *ℤ pos scale +ℤ pos 100000000000000)
      × (t *ℤ pos scale ≤ℤ q *ℤ pos 0 +ℤ pos 100000000000000)
flat_CostIsClose q a h =
    let e : q ≡ pos 0 = eq_of_parts _ _ (omega arith) in
    rw (zero_cost q a e, zero_product q (pos 0) e) (omega (int_laws, *ℤ_parts (pos 0) (pos scale)))

module _ (p : Position) (quantity : ℤ) (valid : IsValid p) (positive : pos 0 <ℤ quantity)
    (within : quantity ≤ℤ p.quantity) where
  -- The released margin lies between nothing and the position's margin.
  pub released_margin_bounds :
      (pos 0 ≤ℤ released_margin p quantity) × (released_margin p quantity ≤ℤ p.margin)
  unfolding released_margin
  released_margin_bounds =
      share-bounds p.margin quantity p.quantity valid.margin_nonneg (omega arith) within
        (omega arith)

  reduced_margin_nonneg : pos 0 ≤ℤ (p.margin -ℤ released_margin p quantity)
  reduced_margin_nonneg = omega (int_laws, released_margin_bounds)

  reduced-IsValid : IsValid (reduced quantity p)
  unfolding reduced
  reduced-IsValid = elim (Bool-cases (eqb_ℤ (p.quantity -ℤ quantity) (pos 0))) [
    | inl flat ↦ rw flat (record {
      quantity_nonneg = omega int_laws;
      leverage_positive = valid.leverage_positive;
      margin_nonneg = reduced_margin_nonneg;
      cost = flat_CostIsClose (p.quantity -ℤ quantity) p.average_price (ground arith);
    })
    | inr some_left ↦ rw some_left (record {
      quantity_nonneg = omega int_laws;
      leverage_positive = valid.leverage_positive;
      margin_nonneg = reduced_margin_nonneg;
      cost = mul_units-CostIsClose (p.quantity -ℤ quantity) p.average_price;
    })
  ]

  pub quantity-reduced : (reduced quantity p).quantity ≡ p.quantity -ℤ quantity
  unfolding reduced
  quantity-reduced = ground arith

  pub margin-reduced : (reduced quantity p).margin ≡ p.margin -ℤ released_margin p quantity
  unfolding reduced
  margin-reduced = ground arith

  -- A reduction of a well-formed position by a positive quantity within it succeeds and leaves
  -- it well-formed; the quantities add up to the quantity before, and the margin that is
  -- returned and the margin that stays to the margin before.
  pub reduce_quantity_lem :
      (reduce_quantity quantity p ≡ (ok (released_margin p quantity), reduced quantity p))
      × IsValid (reduced quantity p)
      × ((reduced quantity p).quantity +ℤ quantity ≡ p.quantity)
      × ((reduced quantity p).margin +ℤ released_margin p quantity ≡ p.margin)
  unfolding reduce_quantity
  reduce_quantity_lem = (
    ground (arith, (cost_iff (reduced quantity p)).1 reduced-IsValid.cost),
    reduced-IsValid,
    rw quantity-reduced (eq_of_parts _ _ (omega int_laws)),
    rw margin-reduced (eq_of_parts _ _ (omega int_laws)),
  )

pub released_margin-all :
    (p : Position) → pos 0 <ℤ p.quantity → released_margin p p.quantity ≡ p.margin
unfolding released_margin
released_margin-all p positive = share-whole p.margin p.quantity positive

-ℤ_self : (a : ℤ) → a -ℤ a ≡ pos 0
-ℤ_self a = eq_of_parts _ _ (omega int_laws)

reduced-all :
    (p : Position)
    → pos 0 <ℤ p.quantity
    → let q = reduced p.quantity p in
      (q.quantity ≡ pos 0)
      × (q.margin ≡ pos 0)
      × (q.total_cost ≡ pos 0)
      × (q.average_price ≡ pos 0)
      × (q.unrealized_pnl ≡ pos 0)
      × (q.liquidation_price ≡ pos 0)
unfolding reduced
reduced-all p positive = rw (-ℤ_self p.quantity) (
  refl,
  rw (released_margin-all p positive) (-ℤ_self p.margin),
  zero_cost (pos 0) p.average_price refl,
  refl,
  refl,
  refl,
)

-- A reduction of a well-formed position by its whole positive quantity returns the whole
-- margin, and leaves zero for the quantity, the margin, the cost, the average price, the PnL
-- and the liquidation price.
pub reduce_all :
    (p : Position)
    → IsValid p
    → pos 0 <ℤ p.quantity
    → let q = reduced p.quantity p in
      (reduce_quantity p.quantity p ≡ (ok p.margin, q))
      × (q.quantity ≡ pos 0)
      × (q.margin ≡ pos 0)
      × (q.total_cost ≡ pos 0)
      × (q.average_price ≡ pos 0)
      × (q.unrealized_pnl ≡ pos 0)
      × (q.liquidation_price ≡ pos 0)
reduce_all p valid positive =
    let (a, b, c, d, e, f) = reduced-all p positive in
    (
      subst (λ m. reduce_quantity p.quantity p ≡ (ok m, reduced p.quantity p))
          (released_margin-all p positive)
          ((reduce_quantity_lem p p.quantity valid positive (omega arith)).0),
      a,
      b,
      c,
      d,
      e,
      f,
    )
