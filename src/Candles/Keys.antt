-- ===== src/Candles/Keys.antt =====
-- candles.py: the keys of the groups are the buckets of the rows, so the least one is the bucket of
-- the earliest row.
use trading_system_v.Prelude.{
  ℕ, ◌%◌, ◌≤◌, ◌*◌, Bool, true, false, ◌||◌, if◌then◌else◌, List, [], ◌∷◌, ◌++◌, any, ◌==◌, ltb,
  ◌≡◌, inl, inr, Bool-cases, refl, ◌∙◌, subst, arith,
}
use trading_system_v.Prelude.Result.{ok, >>=-eq-ok, ok-injective}
use trading_system_v.Candles.{
  second, Row, Groups, bucket_start, has_time, add_row, group_rows, rows_at, first_bucket,
}
use trading_system_v.Candles.Grid.{bucket_start-grid}
use trading_system_v.Candles.Grouping.{in_bucket, rows_at-group_rows, added_cases}

-- Every key has the property.
abbrev KeysAre : (ℕ → Type 0) → Groups → Type 0
KeysAre P [] = Unit
KeysAre P ((key, rows) ∷ g) = P key × KeysAre P g

abbrev BucketsAre : ℕ → (ℕ → Type 0) → List Row → Type 0
BucketsAre d P [] = Unit
BucketsAre d P (r ∷ rs) = P (bucket_start r.time d) × BucketsAre d P rs

add_row-KeysAre :
    (P : ℕ → Type 0) (b : ℕ) (row : Row) (g h : Groups)
    → P b
    → KeysAre P g
    → add_row b row g ≡ ok h
    → KeysAre P h
unfolding add_row
add_row-KeysAre P b row [] h p k e = subst (KeysAre P) (ok-injective e) (p, tt)
add_row-KeysAre P b row ((key, rows) ∷ g) h p k e =
    elim (added_cases (key == b) (has_time row.time rows) (add_row b row g)
      ((key, rows ++ row ∷ []) ∷ g) (key, rows) h e) [
        | inl (own, same) ↦ subst (KeysAre P) same k
        | inr (other, more, call, same) ↦
            subst (KeysAre P) same (k.0, add_row-KeysAre P b row g more p k.1 call)
      ]

group_rows-KeysAre :
    (P : ℕ → Type 0) (d : ℕ) (rows : List Row) (g h : Groups)
    → BucketsAre d P rows
    → KeysAre P g
    → group_rows d rows g ≡ ok h
    → KeysAre P h
unfolding group_rows
group_rows-KeysAre P d [] g h ps k e = subst (KeysAre P) (ok-injective e) k
group_rows-KeysAre P d (r ∷ rs) g h (p, ps) k e =
    let (more, call, rest) = >>=-eq-ok (add_row (bucket_start r.time d) r g) _ e in
    group_rows-KeysAre P d rs more h ps
      (add_row-KeysAre P (bucket_start r.time d) r g more p k call) rest

lesser : (P : ℕ → Type 0) (less : Bool) (a b : ℕ) → P a → P b → P (if less then a else b)
lesser P true a b p q = p
lesser P false a b p q = q

first_bucket-KeysAre :
    (P : ℕ → Type 0) (least : ℕ) (g : Groups) → P least → KeysAre P g → P (first_bucket least g)
unfolding first_bucket
first_bucket-KeysAre P least [] p k = p
first_bucket-KeysAre P least ((key, rows) ∷ g) p k =
    first_bucket-KeysAre P (if ltb key least then key else least) g
      (lesser P (ltb key least) key least k.0 p) k.1

on_grid : (n : ℕ) (rows : List Row) → BucketsAre (n * second) (λ k. k % (n * second) ≡ 0) rows
on_grid n [] = tt
on_grid n (r ∷ rs) = (bucket_start-grid r.time n, on_grid n rs)

-- Some row is in the bucket.
abbrev pub is_bucket : ℕ → List Row → ℕ → Bool
is_bucket d rows k = any (λ r. bucket_start r.time d == k) rows

BucketsAre-mono :
    (d : ℕ) (P Q : ℕ → Type 0) (rows : List Row)
    → ((k : ℕ) → P k → Q k)
    → BucketsAre d P rows
    → BucketsAre d Q rows
BucketsAre-mono d P Q [] f h = tt
BucketsAre-mono d P Q (r ∷ rs) f h = (f _ h.0, BucketsAre-mono d P Q rs f h.1)

or_right : (a b : Bool) → b ≡ true → (a || b) ≡ true
or_right true b h = refl
or_right false b h = h

own_buckets : (d : ℕ) (rows : List Row) → BucketsAre d (λ k. is_bucket d rows k ≡ true) rows
own_buckets d [] = tt
own_buckets d (r ∷ rs) = (
  ground arith,
  BucketsAre-mono d (λ k. is_bucket d rs k ≡ true) (λ k. is_bucket d (r ∷ rs) k ≡ true) rs
      (λ k h. or_right (bucket_start r.time d == k) (is_bucket d rs k) h) (own_buckets d rs),
)

first_bucket-le : (least : ℕ) (g : Groups) → first_bucket least g ≤ least
unfolding first_bucket
first_bucket-le least [] = omega arith
first_bucket-le least ((key, rows) ∷ g) =
    ground (arith, first_bucket-le (if ltb key least then key else least) g)

later_rows :
    (own : Bool) (rows later other : List Row)
    → own ≡ false
    → (if own then rows else later) ≡ other
    → later ≡ other
later_rows true rows later other e h = cc
later_rows false rows later other e h = h

found_at :
    (own : Bool) (r : Row) (rs later : List Row) (found : Bool)
    → (own || found) ≡ true
    → (found ≡ true → (x : Row) × (xs : List Row) × (later ≡ x ∷ xs))
    → (x : Row) × (xs : List Row) × ((if own then r ∷ later else later) ≡ x ∷ xs)
found_at true r rs later found h f = (r, later, refl)
found_at false r rs later found h f = f h

-- No key that holds rows is below the least one.
first_bucket_least :
    (least : ℕ) (g : Groups) (b : ℕ) (r : Row) (rs : List Row)
    → rows_at b g ≡ r ∷ rs
    → first_bucket least g ≤ b
unfolding first_bucket rows_at
first_bucket_least least [] b r rs h = cc
first_bucket_least least ((key, rows) ∷ g) b r rs h =
    let next = if ltb key least then key else least in
    elim (Bool-cases (key == b)) [
      | inl own ↦ ground (arith, first_bucket-le next g)
      | inr other ↦ first_bucket_least next g b r rs (later_rows (key == b) rows _ _ other h)
    ]

first_of :
    (key : ℕ) (own : List Row) (g : Groups) (b : ℕ) (r : Row) (rs : List Row)
    → rows_at b ((key, own) ∷ g) ≡ r ∷ rs
    → first_bucket key g ≤ b
unfolding rows_at
first_of key own g b r rs h = elim (Bool-cases (key == b)) [
  | inl same ↦ ground (arith, first_bucket-le key g)
  | inr other ↦ first_bucket_least key g b r rs (later_rows (key == b) own _ _ other h)
]

pub in_own_bucket :
    (d : ℕ) (rows : List Row) (b : ℕ)
    → is_bucket d rows b ≡ true
    → (r : Row) × (rs : List Row) × (in_bucket d b rows ≡ r ∷ rs)
unfolding in_bucket
in_own_bucket d [] b h = cc
in_own_bucket d (r ∷ rs) b h =
    found_at (bucket_start r.time d == b) r rs (in_bucket d b rs) _ h (in_own_bucket d rs b)

-- The least key is the bucket of some row, on the grid, and not after the bucket of any row.
pub first_bucket_lem :
    (n : ℕ) (rows : List Row) (key : ℕ) (own : List Row) (g : Groups)
    → let d = n * second in
      group_rows d rows [] ≡ ok ((key, own) ∷ g)
      → (first_bucket key g % d ≡ 0)
        × (is_bucket d rows (first_bucket key g) ≡ true)
        × ((b : ℕ) → is_bucket d rows b ≡ true → first_bucket key g ≤ b)
unfolding rows_at
first_bucket_lem n rows key own g h =
    let d = n * second in
    let grid = group_rows-KeysAre (λ k. k % d ≡ 0) d rows [] _ (on_grid n rows) tt h in
    let held =
      group_rows-KeysAre (λ k. is_bucket d rows k ≡ true) d rows [] _ (own_buckets d rows) tt h in
    (
      first_bucket-KeysAre (λ k. k % d ≡ 0) key g grid.0 grid.1,
      first_bucket-KeysAre (λ k. is_bucket d rows k ≡ true) key g held.0 held.1,
      λ b e.
          let (r, rs, at) = in_own_bucket d rows b e in
          first_of key own g b r rs (rows_at-group_rows d rows [] ((key, own) ∷ g) b h ∙ at),
    )
