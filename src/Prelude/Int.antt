-- ===== src/Prelude/Int.antt =====
-- Signed integers over the native numbers. Sums and orders go through the two parts of an integer.
use Prim.Native.Nat.{ℕ, suc, ◌+◌, ◌-◌, ◌*◌, ◌≤◌, ◌<◌}
use mathlib.Core.Path.{◌≡◌, refl, ap}
use mathlib.Core.Bool.{false, Bool}
use mathlib.Core.Logic.{◌↔◌, ◌⊎◌}
use native.Mathlib.Omega.{arith}
use native.Mathlib.Nat.{mul-le-mul_right}
use trading_system_v.Prelude.Tests.{ltb, leb, ◌==◌, if◌then◌else◌}

-- `negsuc n` is -(n + 1).
pub data ℤ : Type 0 where
  pos : ℕ → ℤ
  negsuc : ℕ → ℤ

abbrev pub pos_part : ℤ → ℕ
pos_part (pos n) = n
pos_part (negsuc n) = 0

abbrev pub neg_part : ℤ → ℕ
neg_part (pos n) = 0
neg_part (negsuc n) = suc n

-- a - b, as an integer.
abbrev pub sub_ℕ : ℕ → ℕ → ℤ
sub_ℕ a b = if leb b a then pos (a - b) else negsuc (b - a - 1)

infixl 65 ◌+ℤ◌ ◌-ℤ◌
infixl 70 ◌*ℤ◌
infix 50 ◌≤ℤ◌ ◌<ℤ◌
unfoldable pub ◌+ℤ◌ : ℤ → ℤ → ℤ
a +ℤ b = sub_ℕ (pos_part a + pos_part b) (neg_part a + neg_part b)

unfoldable pub ◌-ℤ◌ : ℤ → ℤ → ℤ
a -ℤ b = sub_ℕ (pos_part a + neg_part b) (neg_part a + pos_part b)

unfoldable pub ◌*ℤ◌ : ℤ → ℤ → ℤ
a *ℤ b =
    sub_ℕ (pos_part a * pos_part b + neg_part a * neg_part b)
      (pos_part a * neg_part b + neg_part a * pos_part b)

unfoldable pub neg : ℤ → ℤ
neg a = sub_ℕ (neg_part a) (pos_part a)

abbrev pub ◌≤ℤ◌ : ℤ → ℤ → Type 0
a ≤ℤ b = pos_part a + neg_part b ≤ pos_part b + neg_part a

abbrev pub ◌<ℤ◌ : ℤ → ℤ → Type 0
a <ℤ b = pos_part a + neg_part b < pos_part b + neg_part a

abbrev pub ltb_ℤ : ℤ → ℤ → Bool
ltb_ℤ a b = ltb (pos_part a + neg_part b) (pos_part b + neg_part a)

abbrev pub leb_ℤ : ℤ → ℤ → Bool
leb_ℤ a b = leb (pos_part a + neg_part b) (pos_part b + neg_part a)

abbrev pub eqb_ℤ : ℤ → ℤ → Bool
eqb_ℤ a b = pos_part a + neg_part b == pos_part b + neg_part a

abbrev pub min_ℤ : ℤ → ℤ → ℤ
min_ℤ a b = if ltb_ℤ b a then b else a

abbrev pub max_ℤ : ℤ → ℤ → ℤ
max_ℤ a b = if ltb_ℤ a b then b else a

abbrev pub abs : ℤ → ℤ
abs a = pos (pos_part a + neg_part a)

-- With these the operations can stay shut.
pub +ℤ_parts :
    (a b : ℤ)
    → pos_part (a +ℤ b) + neg_part a + neg_part b ≡ neg_part (a +ℤ b) + pos_part a + pos_part b
unfolding ◌+ℤ◌
+ℤ_parts a b = ground arith

pub -ℤ_parts :
    (a b : ℤ)
    → pos_part (a -ℤ b) + neg_part a + pos_part b ≡ neg_part (a -ℤ b) + pos_part a + neg_part b
unfolding ◌-ℤ◌
-ℤ_parts a b = ground arith

pub neg_parts : (a : ℤ) → pos_part (neg a) + pos_part a ≡ neg_part (neg a) + neg_part a
unfolding neg
neg_parts a = ground arith

pub eq_of_parts : (a b : ℤ) → pos_part a + neg_part b ≡ pos_part b + neg_part a → a ≡ b
eq_of_parts a b h = ground arith

pub ruleset int_laws = (arith, +ℤ_parts, -ℤ_parts, neg_parts, eq_of_parts)

pub ≤ℤ_total : (a b : ℤ) → (a ≤ℤ b) ⊎ (b ≤ℤ a)
≤ℤ_total a b = omega arith

pub ≤ℤ_antisymm : (a b : ℤ) → a ≤ℤ b → b ≤ℤ a → a ≡ b
≤ℤ_antisymm a b h k = ground arith

-- A product of numbers that are not negative is their product.
pub *ℤ-pos : (m n : ℕ) → pos m *ℤ pos n ≡ pos (m * n)
unfolding ◌*ℤ◌
*ℤ-pos m n = ground arith

pub pos_of_nonneg : (a : ℤ) → pos 0 ≤ℤ a → a ≡ pos (pos_part a)
pos_of_nonneg (pos n) h = refl
pos_of_nonneg (negsuc n) h = absurd (omega arith)

pub *ℤ_parts :
    (a b : ℤ)
    → pos_part (a *ℤ b) + (pos_part a * neg_part b + neg_part a * pos_part b)
      ≡ neg_part (a *ℤ b) + (pos_part a * pos_part b + neg_part a * neg_part b)
unfolding ◌*ℤ◌
*ℤ_parts a b = ground arith

pub *ℤ-mono_right : (a b c : ℤ) → pos 0 ≤ℤ c → a ≤ℤ b → (a *ℤ c) ≤ℤ (b *ℤ c)
*ℤ-mono_right a b (pos n) hc h =
    omega (arith, *ℤ_parts a (pos n), *ℤ_parts b (pos n), mul-le-mul_right n h)
*ℤ-mono_right a b (negsuc n) hc h = absurd (omega arith)

pub *ℤ_comm : (a b : ℤ) → a *ℤ b ≡ b *ℤ a
*ℤ_comm a b = eq_of_parts _ _ (omega (arith, *ℤ_parts a b, *ℤ_parts b a))

pub *ℤ_nonneg : (a b : ℤ) → pos 0 ≤ℤ a → pos 0 ≤ℤ b → pos 0 ≤ℤ (a *ℤ b)
*ℤ_nonneg (pos m) (pos n) h k = rw *ℤ-pos (omega arith)
*ℤ_nonneg (pos m) (negsuc n) h k = absurd (omega arith)
*ℤ_nonneg (negsuc m) b h k = absurd (omega arith)

pub parts_exclusive : (a : ℤ) → (pos_part a ≡ 0) ⊎ (neg_part a ≡ 0)
parts_exclusive a = ground arith

-- The test of a distance, against both bounds.
pub distance_iff :
    (a b : ℤ) (t : ℕ)
    → (ltb_ℤ (pos t) (abs (a -ℤ b)) ≡ false) ↔ ((b ≤ℤ a +ℤ pos t) × (a ≤ℤ b +ℤ pos t))
distance_iff a b t = (
  λ h. (
    ground (arith, -ℤ_parts a b, +ℤ_parts a (pos t), parts_exclusive (a -ℤ b)),
    ground (arith, -ℤ_parts a b, +ℤ_parts b (pos t), parts_exclusive (a -ℤ b)),
  ),
  λ h.
      ground
        (arith, -ℤ_parts a b, +ℤ_parts a (pos t), +ℤ_parts b (pos t), parts_exclusive (a -ℤ b)),
)

pub *ℤ-pos-pos : (a : ℤ) (m n : ℕ) → a *ℤ pos m *ℤ pos n ≡ a *ℤ pos (m * n)
*ℤ-pos-pos a m n = eq_of_parts _ _ (
    omega (
      arith,
      *ℤ_parts a (pos m),
      *ℤ_parts (a *ℤ pos m) (pos n),
      *ℤ_parts a (pos (m * n)),
      ap (λ (t : ℕ). t * n) (*ℤ_parts a (pos m)),
    ))
