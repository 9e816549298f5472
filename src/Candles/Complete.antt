-- ===== src/Candles/Complete.antt =====
-- candles.py: the test for a complete bucket, in terms of its minutes.
use trading_system_v.Prelude.{
  ℕ, zero, suc, ◌+◌, ◌*◌, ◌<◌, Bool, true, false, ◌&&◌, ◌||◌, List, [], ◌∷◌, any, all, ◌==◌, ◌≡◌,
  refl, subst, ◌⊎◌, inl, inr, arith,
}
use trading_system_v.Candles.{minute, Row, has_time, expected_times, is_complete}

-- Each of the minutes has a row.
abbrev pub HasEvery : ℕ → ℕ → List Row → Type 0
HasEvery start count rows = (k : ℕ) → k < count → has_time (start + k * minute) rows ≡ true

abbrev pub IsMinute : ℕ → ℕ → ℕ → Type 0
IsMinute start count time = (k : ℕ) × (k < count) × (time ≡ start + k * minute)

-- Each of the rows has one of the minutes.
abbrev pub OnMinutes : ℕ → ℕ → List Row → Type 0
OnMinutes start count [] = Unit
OnMinutes start count (r ∷ rs) = IsMinute start count r.time × OnMinutes start count rs

both_true : (a b : Bool) → (a && b) ≡ true → (a ≡ true) × (b ≡ true)
both_true true b h = (refl, h)
both_true false b h = cc

either_true : (a b : Bool) → (a || b) ≡ true → (a ≡ true) ⊎ (b ≡ true)
either_true true b h = inl refl
either_true false b h = inr h

HasEvery-all :
    (start count : ℕ) (rows : List Row)
    → all (λ t. has_time t rows) (expected_times start count) ≡ true
    → HasEvery start count rows
unfolding expected_times
HasEvery-all start zero rows h k below = ground arith
HasEvery-all start (suc n) rows h zero below =
    subst (λ t. has_time t rows ≡ true) (omega arith) (both_true _ _ h).0
HasEvery-all start (suc n) rows h (suc k) below =
    subst (λ t. has_time t rows ≡ true) (omega arith)
      (HasEvery-all (start + minute) n rows (both_true _ _ h).1 k (omega arith))

IsMinute-any :
    (start count time : ℕ)
    → any (λ t. t == time) (expected_times start count) ≡ true
    → IsMinute start count time
unfolding expected_times
IsMinute-any start zero time h = cc
IsMinute-any start (suc n) time h = elim (either_true (start == time) _ h) [
  | inl own ↦ (0, omega arith, ground arith)
  | inr later ↦
      let (k, below, same) = IsMinute-any (start + minute) n time later in
      (suc k, omega arith, omega arith)
]

OnMinutes-all :
    (start count : ℕ) (rows : List Row)
    → all (λ r. any (λ t. t == r.time) (expected_times start count)) rows ≡ true
    → OnMinutes start count rows
OnMinutes-all start count [] h = tt
OnMinutes-all start count (r ∷ rs) h =
    let (own, others) = both_true _ _ h in
    (IsMinute-any start count r.time own, OnMinutes-all start count rs others)

-- A complete bucket has one of the minutes in each row, and each of the minutes in a row.
pub is_complete_lem :
    (start count : ℕ) (rows : List Row)
    → is_complete rows (expected_times start count) ≡ true
    → OnMinutes start count rows × HasEvery start count rows
unfolding is_complete
is_complete_lem start count rows h =
    let (on, every) = both_true _ _ h in
    (OnMinutes-all start count rows on, HasEvery-all start count rows every)
