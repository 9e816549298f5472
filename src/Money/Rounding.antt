-- ===== src/Money/Rounding.antt =====
-- What the quantizers of money.py satisfy on signed values.
use native.Mathlib.Nat.{mul_comm}
use trading_system_v.Prelude.{
  refl, true, ℕ, zero, suc, ◌+◌, ◌*◌, ◌<◌, ◌≡◌, arith, ap, sym, subst, ◌-◌, ◌∙◌,
}
use trading_system_v.Prelude.Int.{
  *ℤ-pos-pos, neg_part, ◌+ℤ◌, ℤ, pos, negsuc, neg, ◌*ℤ◌, ◌≤ℤ◌, int_laws, *ℤ-pos, *ℤ_nonneg,
  *ℤ-mono_right, *ℤ_comm, *ℤ_parts, ≤ℤ_antisymm, eq_of_parts,
}
use trading_system_v.Money.Half.{
  round_half_even-near, round_half_even, round_half_even-mul, round_half_even_mono,
  round_half_even-zero,
}
use trading_system_v.Money.{
  leb_float, Float, ten_pow, to_decimal, pos_part, scale, Rate, den, quantize, mul_units, mul_rate,
}

-- A value that is not negative stays so.
pub quantize_nonneg : (a : ℤ) (d : ℕ) → pos 0 ≤ℤ a → pos 0 ≤ℤ quantize a d
unfolding quantize
quantize_nonneg (pos n) d h = omega arith
quantize_nonneg (negsuc n) d h = absurd (omega arith)

-- A value that is not positive stays so.
pub quantize_nonpos : (a : ℤ) (d : ℕ) → 0 < d → a ≤ℤ pos 0 → quantize a d ≤ℤ pos 0
unfolding quantize
quantize_nonpos (pos zero) d p h = omega (arith, round_half_even-zero d p)
quantize_nonpos (pos (suc n)) d p h = absurd (omega arith)
quantize_nonpos (negsuc n) d p h = omega int_laws

-- A larger fraction does not quantize to less.
pub quantize-mono :
    (a b : ℤ) (d e : ℕ)
    → 0 < d
    → 0 < e
    → (a *ℤ pos e) ≤ℤ (b *ℤ pos d)
    → quantize a d ≤ℤ quantize b e
unfolding quantize
quantize-mono (pos n) (pos m) d e p q h = omega (
  arith,
  round_half_even_mono n d m e p q
      (omega (arith, *ℤ_parts (pos n) (pos e), *ℤ_parts (pos m) (pos d))),
)
quantize-mono (pos n) (negsuc m) d e p q h =
    absurd (omega (arith, *ℤ_parts (pos n) (pos e), *ℤ_parts (negsuc m) (pos d)))
quantize-mono (negsuc n) (pos m) d e p q h = omega int_laws
quantize-mono (negsuc n) (negsuc m) d e p q h = omega (
  int_laws,
  round_half_even_mono (m + 1) e (n + 1) d q p
      (omega (arith, *ℤ_parts (negsuc n) (pos e), *ℤ_parts (negsuc m) (pos d))),
)

-- The same, over one denominator.
pub quantize-mono_num : (a b : ℤ) (d : ℕ) → 0 < d → a ≤ℤ b → quantize a d ≤ℤ quantize b d
quantize-mono_num a b d p h = quantize-mono a b d d p p (*ℤ-mono_right a b (pos d) (omega arith) h)

-- Equal fractions quantize to one value.
pub quantize-eq :
    (a b : ℤ) (d e : ℕ) → 0 < d → 0 < e → a *ℤ pos e ≡ b *ℤ pos d → quantize a d ≡ quantize b e
quantize-eq a b d e p q h =
    ≤ℤ_antisymm _ _ (quantize-mono a b d e p q (rw h (omega arith)))
      (quantize-mono b a e d q p (rw h (omega arith)))

negsuc-*ℤ-pos : (n d : ℕ) → 0 < d → negsuc n *ℤ pos d ≡ negsuc (suc n * d - 1)
negsuc-*ℤ-pos n d p = eq_of_parts _ _ (omega (arith, *ℤ_parts (negsuc n) (pos d)))

neg-suc : (n : ℕ) → neg (pos (suc n)) ≡ negsuc n
neg-suc n = eq_of_parts _ _ (omega int_laws)

negsuc-quantize : (n d : ℕ) → 0 < d → quantize (negsuc (suc n * d - 1)) d ≡ negsuc n
unfolding quantize neg
negsuc-quantize n d p =
    let e : suc n * d - 1 + 1 ≡ suc n * d = omega arith in
    ap (λ t. neg (pos t)) (ap (λ t. round_half_even t d) e ∙ round_half_even-mul (suc n) d p)
    ∙ neg-suc n

-- A value that is already a whole number of units is unchanged.
pub quantize-whole : (a : ℤ) (d : ℕ) → 0 < d → quantize (a *ℤ pos d) d ≡ a
unfolding quantize
quantize-whole (pos n) d p = rw *ℤ-pos (ap pos (round_half_even-mul n d p))
quantize-whole (negsuc n) d p =
    subst (λ t. quantize t d ≡ negsuc n) (sym (negsuc-*ℤ-pos n d p)) (negsuc-quantize n d p)

pub mul_units_nonneg : (a b : ℤ) → pos 0 ≤ℤ a → pos 0 ≤ℤ b → pos 0 ≤ℤ mul_units a b
unfolding mul_units
mul_units_nonneg a b h k = quantize_nonneg (a *ℤ b) scale (*ℤ_nonneg a b h k)

pub mul_rate_nonneg : (a : ℤ) (r : Rate) → pos 0 ≤ℤ a → pos 0 ≤ℤ r.num → pos 0 ≤ℤ mul_rate a r
unfolding mul_rate
mul_rate_nonneg a r h k = quantize_nonneg (a *ℤ r.num) (den r) (*ℤ_nonneg a r.num h k)

module _ (a b : ℤ) (le : a ≤ℤ b) where
  pub mul_units-mono : (c : ℤ) → pos 0 ≤ℤ c → mul_units c a ≤ℤ mul_units c b
  unfolding mul_units
  mul_units-mono c h =
      rw (*ℤ_comm c a, *ℤ_comm c b)
        (quantize-mono_num (a *ℤ c) (b *ℤ c) scale (omega arith) (*ℤ-mono_right a b c h le))

  pub mul_rate-mono : (r : Rate) → pos 0 ≤ℤ r.num → mul_rate a r ≤ℤ mul_rate b r
  unfolding mul_rate
  mul_rate-mono r h =
      quantize-mono_num (a *ℤ r.num) (b *ℤ r.num) (den r) (omega arith)
        (*ℤ-mono_right a b r.num h le)

neg-pos_parts : (r : ℕ) → (pos_part (neg (pos r)) ≡ 0) × (neg_part (neg (pos r)) ≡ r)
unfolding neg
neg-pos_parts r = (ground arith, ground arith)

-- A quantized value is within half a unit of the exact one.
pub quantize-near :
    (a : ℤ) (d : ℕ)
    → 0 < d
    → let back = quantize a d *ℤ pos d in
      (back +ℤ back ≤ℤ a +ℤ a +ℤ pos d) × (a +ℤ a ≤ℤ back +ℤ back +ℤ pos d)
unfolding quantize
quantize-near (pos n) d h = rw *ℤ-pos (omega (int_laws, round_half_even-near n d h))
quantize-near (negsuc n) d h =
    let r = round_half_even (n + 1) d in
    let (p, q) = neg-pos_parts r in
    omega (
      int_laws,
      round_half_even-near (n + 1) d h,
      *ℤ_parts (neg (pos r)) (pos d),
      ap (λ (t : ℕ). t * d) p,
      ap (λ (t : ℕ). t * d) q,
    )

ten_pow_positive : (k : ℕ) → 0 < ten_pow k
unfolding ten_pow
ten_pow_positive zero = omega arith
ten_pow_positive (suc k) = omega (arith, ten_pow_positive k)

scaled_swap : (a : ℤ) (n : ℕ) → a *ℤ pos scale *ℤ pos n ≡ a *ℤ pos n *ℤ pos scale
scaled_swap a n =
    *ℤ-pos-pos a scale n ∙ ap (λ t. a *ℤ pos t) (mul_comm scale n) ∙ sym (*ℤ-pos-pos a n scale)

-- The conversion of floats keeps their order, so that a candle's prices keep theirs.
pub to_decimal-mono : (a b : Float) → leb_float a b ≡ true → to_decimal a ≤ℤ to_decimal b
unfolding to_decimal
to_decimal-mono a b h =
    quantize-mono (a.digits *ℤ pos scale) (b.digits *ℤ pos scale) (ten_pow a.places)
      (ten_pow b.places) (ten_pow_positive a.places) (ten_pow_positive b.places)
      (rw (scaled_swap a.digits (ten_pow b.places), scaled_swap b.digits (ten_pow a.places))
        (*ℤ-mono_right _ _ (pos scale) (omega arith) (ground arith)))

-- The gateway also keeps the sign.
pub to_decimal_nonneg : (x : Float) → pos 0 ≤ℤ x.digits → pos 0 ≤ℤ to_decimal x
unfolding to_decimal
to_decimal_nonneg x h = quantize_nonneg _ _ (*ℤ_nonneg x.digits (pos scale) h (omega arith))

neg-neg : (a : ℤ) → neg (neg a) ≡ a
neg-neg a = eq_of_parts _ _ (omega int_laws)

quantize-negsuc : (n d : ℕ) → quantize (negsuc n) d ≡ neg (pos (round_half_even (suc n) d))
unfolding quantize
quantize-negsuc n d =
    let e : n + 1 ≡ suc n = omega arith in ap (λ t. neg (pos (round_half_even t d))) e

neg-negsuc : (n : ℕ) → neg (negsuc n) ≡ pos (suc n)
neg-negsuc n = eq_of_parts _ _ (omega int_laws)

neg-zero : neg (pos 0) ≡ pos 0
unfolding neg
neg-zero = refl

quantize-zero : (d : ℕ) → 0 < d → quantize (pos 0) d ≡ pos 0
unfolding quantize
quantize-zero d h = ap pos (round_half_even-zero d h)

-- Rounding is symmetric: the opposite value quantizes to the opposite.
pub quantize-neg : (a : ℤ) (d : ℕ) → 0 < d → quantize (neg a) d ≡ neg (quantize a d)
quantize-neg (pos zero) d h = rw (neg-zero, quantize-zero d h) (sym neg-zero)
quantize-neg (pos (suc n)) d h = rw (neg-suc n) (unfold quantize in quantize-negsuc n d)
quantize-neg (negsuc n) d h =
    rw (neg-negsuc n, quantize-negsuc n d, neg-neg) (unfold quantize in refl)

-- A product with a signed unit.
pub *ℤ_minus_one : (a : ℤ) → a *ℤ negsuc 0 ≡ neg a
*ℤ_minus_one a = eq_of_parts _ _ (omega (int_laws, *ℤ_parts a (negsuc 0)))

pub *ℤ_one : (a : ℤ) → a *ℤ pos 1 ≡ a
*ℤ_one a = eq_of_parts _ _ (omega (int_laws, *ℤ_parts a (pos 1)))
