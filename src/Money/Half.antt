-- ===== src/Money/Half.antt =====
-- ROUND_HALF_EVEN of a quotient of naturals, and what it satisfies.
use trading_system_v.Prelude.{
  ℕ, ◌+◌, ◌*◌, ◌/◌, ◌%◌, ◌≤◌, ◌<◌, ◌≡◌, ◌⊎◌, ap, ◌∙◌, inl, inr, arith, ltb, ◌==◌, if◌then◌else◌,
}
use native.Mathlib.Decide.{ℕ_discrete}
use native.Mathlib.Nat.{
  mul-le-mul_right, lt_of_mul-lt-mul_right, div-add-mod, mul-div_cancel, mul-lt-mul_of_pos_right,
  le_of_mul-le-mul_right, le-div_iff_mul-le, div-mul-le_self,
}

-- ROUND_HALF_EVEN of n / d.
unfoldable pub round_half_even : ℕ → ℕ → ℕ
round_half_even n d =
    let q = n / d in
    let r = n % d in
    if ltb (r + r) d then q else if ltb d (r + r) then q + 1 else if q % 2 == 0 then q else q + 1

-- Down with at most half a unit to drop, or up with at least half a unit to drop.
round_half_even-cases :
    (n d : ℕ)
    → 0 < d
    → ((round_half_even n d ≡ n / d) × (2 * (n % d) ≤ d)
        ⊎ (round_half_even n d ≡ n / d + 1) × (d ≤ 2 * (n % d)))
unfolding round_half_even
round_half_even-cases n d h = ground arith

-- The rounded quotient is within half a unit of the exact one.
pub round_half_even-near :
    (n d : ℕ)
    → 0 < d
    → (2 * (round_half_even n d * d) ≤ 2 * n + d) × (2 * n ≤ 2 * (round_half_even n d * d) + d)
round_half_even-near n d h = elim (round_half_even-cases n d h) [
  | inl (e, p) ↦ rw e (omega (arith, div-add-mod n d))
  | inr (e, p) ↦ rw e (omega (arith, div-add-mod n d))
]

-- A whole quotient is itself.
pub round_half_even-mul : (k d : ℕ) → 0 < d → round_half_even (k * d) d ≡ k
round_half_even-mul k d h = elim (round_half_even-cases (k * d) d h) [
  | inl (e, p) ↦ e ∙ mul-div_cancel k h
  | inr (e, p) ↦ absurd (
      omega (
        arith,
        div-add-mod (k * d) d,
        mul-div_cancel k h,
        ap (λ (t : ℕ). d * t) (mul-div_cancel k h),
      ))
]

-- Half a unit goes to the even neighbour.
pub round_half_even-tie : (n d : ℕ) → 0 < d → 2 * (n % d) ≡ d → round_half_even n d % 2 ≡ 0
unfolding round_half_even
round_half_even-tie n d h = ground arith

scaled_lt : (r s d e : ℕ) → 0 < d → 0 < e → r * e ≤ s * d → d < 2 * r → e < 2 * s
scaled_lt r s d e hd he h p = lt_of_mul-lt-mul_right d (omega (arith, mul-lt-mul_of_pos_right p he))

scaled_le : (r s d e : ℕ) → 0 < d → r * e ≤ s * d → d ≤ 2 * r → e ≤ 2 * s
scaled_le r s d e hd h p = le_of_mul-le-mul_right (omega (arith, mul-le-mul_right e p)) hd

-- The remainders of quotients with the same floor are in the order of the quotients.
remainders : (n d m e : ℕ) → n * e ≤ m * d → n / d ≡ m / e → (n % d) * e ≤ (m % e) * d
remainders n d m e h q = omega (
  arith,
  ap (λ (t : ℕ). t * e) (div-add-mod n d),
  ap (λ (t : ℕ). t * d) (div-add-mod m e),
  ap (λ (t : ℕ). d * e * t) q,
)

floor_mono : (n d m e : ℕ) → 0 < d → 0 < e → n * e ≤ m * d → n / d ≤ m / e
floor_mono n d m e hd he h =
    (le-div_iff_mul-le he).1 (
      le_of_mul-le-mul_right {k = d} (omega (arith, h, mul-le-mul_right e (div-mul-le_self n d)))
        hd)

-- A larger quotient does not round to less.
pub round_half_even_mono :
    (n d m e : ℕ) → 0 < d → 0 < e → n * e ≤ m * d → round_half_even n d ≤ round_half_even m e
unfolding round_half_even
round_half_even_mono n d m e hd he h = elim (ℕ_discrete (n / d) (m / e)) [
  | yes q ↦ ground (
    arith,
    q,
    remainders n d m e h q,
    scaled_lt (n % d) (m % e) d e hd he,
    scaled_le (n % d) (m % e) d e hd,
  )
  | no q ↦ ground (arith, q, floor_mono n d m e hd he h)
]

pub round_half_even-zero : (d : ℕ) → 0 < d → round_half_even 0 d ≡ 0
round_half_even-zero d h =
    let e : ◌≡◌ {A = ℕ} 0 (0 * d) = omega arith in
    ap (λ t. round_half_even t d) e ∙ round_half_even-mul 0 d h
