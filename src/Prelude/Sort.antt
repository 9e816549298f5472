-- ===== src/Prelude/Sort.antt =====
-- `sorted(items, key=...)` with a numeric key: a stable insertion sort.
use Prim.Native.Nat.{ℕ, ◌≤◌}
use mathlib.Core.Logic.{◌↔◌}
use mathlib.Core.List.{List, [], ◌∷◌}
use native.Mathlib.Omega.{arith}
use mathlib.Core.Bool.{true, false}
use trading_system_v.Prelude.Tests.{leb, if◌then◌else◌}

module _ {ℓ} {A : Type ℓ} (key : A → ℕ) where
  unfoldable pub insert : A → List A → List A
  insert x [] = x ∷ []
  insert x (y ∷ ys) = if leb (key x) (key y) then x ∷ y ∷ ys else y ∷ insert x ys

  unfoldable pub sort : List A → List A
  unfolding insert
  sort [] = []
  sort (x ∷ xs) = insert x (sort xs)

  -- Every key is at least `n`.
  abbrev pub IsAbove : ℕ → List A → Type 0
  IsAbove n [] = Unit
  IsAbove n (x ∷ xs) = (n ≤ key x) × IsAbove n xs

  abbrev pub IsSorted : List A → Type 0
  IsSorted [] = Unit
  IsSorted (x ∷ xs) = IsAbove (key x) xs × IsSorted xs

  insert-IsAbove :
      (n : ℕ) (x : A) (xs : List A) → n ≤ key x → IsAbove n xs → IsAbove n (insert x xs)
  unfolding insert
  insert-IsAbove n x [] h a = (h, tt)
  insert-IsAbove n x (y ∷ ys) h a = ground (arith, insert-IsAbove n x ys h a.1)

  IsAbove-le : (m n : ℕ) (xs : List A) → m ≤ n → IsAbove n xs → IsAbove m xs
  IsAbove-le m n [] h a = tt
  IsAbove-le m n (x ∷ xs) h a = (omega arith, IsAbove-le m n xs h a.1)

  insert-IsSorted : (x : A) (xs : List A) → IsSorted xs → IsSorted (insert x xs)
  unfolding insert
  insert-IsSorted x [] s = (tt, tt)
  insert-IsSorted x (y ∷ ys) s =
      ground (
        arith,
        insert-IsSorted x ys s.1,
        insert-IsAbove (key y) x ys,
        IsAbove-le (key x) (key y) ys,
      )

  pub sort-IsSorted : (xs : List A) → IsSorted (sort xs)
  unfolding sort
  sort-IsSorted [] = tt
  sort-IsSorted (x ∷ xs) = insert-IsSorted x (sort xs) (sort-IsSorted xs)

  insert_bounds :
      (n : ℕ) (x : A) (xs : List A) → IsAbove n (insert x xs) → (n ≤ key x) × IsAbove n xs
  unfolding insert
  insert_bounds n x [] a = (a.0, tt)
  insert_bounds n x (y ∷ ys) a = ground (arith, insert_bounds n x ys)

  -- A bound on all keys survives the sort, both ways.
  pub sort-IsAbove : (n : ℕ) (xs : List A) → IsAbove n xs ↔ IsAbove n (sort xs)
  unfolding sort
  sort-IsAbove n [] = (λ h. tt, λ h. tt)
  sort-IsAbove n (x ∷ xs) = (
    λ h. insert-IsAbove n x (sort xs) h.0 ((sort-IsAbove n xs).0 h.1),
    λ h. let (a, b) = insert_bounds n x (sort xs) h in (a, (sort-IsAbove n xs).1 b),
  )

  abbrev pub All : (A → Type 0) → List A → Type 0
  All P [] = Unit
  All P (x ∷ xs) = P x × All P xs

  insert-All : (P : A → Type 0) (x : A) (xs : List A) → P x → All P xs → All P (insert x xs)
  unfolding insert
  insert-All P x [] p a = (p, tt)
  insert-All P x (y ∷ ys) p a =
      elim (leb (key x) (key y)) as (λ b. All P (if b then x ∷ y ∷ ys else y ∷ insert x ys)) [
        | true ↦ (p, a)
        | false ↦ (a.0, insert-All P x ys p a.1)
      ]

  -- What holds of all items holds of all of the sorted ones.
  pub sort-All : (P : A → Type 0) (xs : List A) → All P xs → All P (sort xs)
  unfolding sort
  sort-All P [] a = tt
  sort-All P (x ∷ xs) a = insert-All P x (sort xs) a.0 (sort-All P xs a.1)
