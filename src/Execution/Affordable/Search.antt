-- ===== src/Execution/Affordable/Search.antt =====
-- The binary search of `_affordable_entry_quantity` finds the largest affordable quantity.
use native.Mathlib.Decide.{dec_lt, dec_le}
use trading_system_v.Prelude.{
  refl, ◌∙◌, ℕ, zero, suc, ◌+◌, ◌-◌, ◌/◌, ◌≤◌, ◌<◌, ◌≡◌, ◌⊎◌, inl, inr, true, false, arith, ltb,
}
use trading_system_v.Prelude.Int.{neg_part, ℤ, ◌≤ℤ◌, leb_ℤ}
use trading_system_v.Prelude.Result.{Result, ok}
use trading_system_v.Execution.Affordable.{pos_part, requirement_at, search_units}

-- Every quantity has a requirement, `need`, and a larger quantity needs no less.
module _ (cost : ℕ → Result ℤ) (need : ℕ → ℤ) (available : ℤ)
    (total : (n : ℕ) → requirement_at cost n ≡ ok (need n))
    (mono : (m n : ℕ) → m ≤ n → need m ≤ℤ need n) where
  -- What the search returns: an affordable quantity, and no larger one below `beyond` is affordable.
  abbrev pub IsLargest : Result ℕ → ℕ → ℕ → Type 0
  IsLargest result best beyond =
      (k : ℕ) × (result ≡ ok k)
      × (need k ≤ℤ available)
      × (best ≤ k)
      × ((k < beyond) ⊎ (k ≡ best))
      × ((n : ℕ) → n < beyond → need n ≤ℤ available → n ≤ k)

  module _ (fuel low beyond best : ℕ) (more : low < beyond) where
    abbrev middle : ℕ
    middle = (low + (beyond - 1)) / 2

    search_above :
        need middle ≤ℤ available
        → search_units (suc fuel) cost available low beyond best
          ≡ search_units fuel cost available (middle + 1) beyond middle
    unfolding search_units
    search_above fits =
        let t : ltb low beyond ≡ true = ground arith in
        let l : leb_ℤ (need middle) available ≡ true = ground arith in rw (t, total middle, l)

    search_below :
        ¬ (need middle ≤ℤ available)
        → search_units (suc fuel) cost available low beyond best
          ≡ search_units fuel cost available low middle best
    unfolding search_units
    search_below exceeds =
        let t : ltb low beyond ≡ true = ground arith in
        let l : leb_ℤ (need middle) available ≡ false = ground arith in rw (t, total middle, l)

    above-IsLargest :
        need middle ≤ℤ available
        → best ≤ low
        → IsLargest (search_units fuel cost available (middle + 1) beyond middle) middle beyond
        → IsLargest (search_units (suc fuel) cost available low beyond best) best beyond
    above-IsLargest fits lo (k, e, affordable, least, range, top) =
        (k, search_above fits ∙ e, affordable, omega arith, inl (omega arith), top)

    below-IsLargest :
        ¬ (need middle ≤ℤ available)
        → best ≤ low
        → IsLargest (search_units fuel cost available low middle best) best middle
        → IsLargest (search_units (suc fuel) cost available low beyond best) best beyond
    below-IsLargest exceeds lo (k, e, affordable, least, range, top) = (
      k,
      search_below exceeds ∙ e,
      affordable,
      least,
      omega arith,
      λ n h fits. elim (dec_lt n middle) [
        | yes p ↦ top n p fits
        | no p ↦ absurd (exceeds (omega (arith, mono middle n (omega arith))))
      ],
    )

  search_done :
      (fuel low beyond best : ℕ)
      → beyond ≤ low
      → search_units (suc fuel) cost available low beyond best ≡ ok best
  unfolding search_units
  search_done fuel low beyond best h = let t : ltb low beyond ≡ false = ground arith in rw t

  pub search_units-IsLargest :
      (fuel low beyond best : ℕ)
      → beyond - low < fuel
      → need best ≤ℤ available
      → best ≤ low
      → low ≤ best + 1
      → IsLargest (search_units fuel cost available low beyond best) best beyond
  search_units-IsLargest zero low beyond best enough fits lo hi = absurd (omega arith)
  search_units-IsLargest (suc fuel) low beyond best enough fits lo hi = elim (dec_lt low beyond) [
    | no p ↦ (
      best,
      search_done fuel low beyond best (omega arith),
      fits,
      omega arith,
      inr refl,
      λ n h k. omega arith,
    )
    | yes p ↦
        let m = (low + (beyond - 1)) / 2 in
        elim (dec_le (pos_part (need m) + neg_part available)
          (pos_part available + neg_part (need m))) [
            | yes q ↦ above-IsLargest fuel low beyond best p q lo (
                search_units-IsLargest fuel (m + 1) beyond m (omega arith) q (omega arith)
                  (omega arith))
            | no q ↦
                below-IsLargest fuel low beyond best p q lo
                  (search_units-IsLargest fuel low m best (omega arith) fits lo hi)
          ]
  ]
