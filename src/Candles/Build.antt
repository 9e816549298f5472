-- ===== src/Candles/Build.antt =====
-- candles.py `_build_candle`: the candle of a bucket's rows.
use trading_system_v.Prelude.{ℕ, ◌+◌, List, [], ◌∷◌, ◌≡◌, ◌⊎◌, inl, inr, refl, sym, subst, arith}
use trading_system_v.Prelude.Int.{ℤ, ◌≤ℤ◌, max_ℤ, min_ℤ}
use trading_system_v.Prelude.Result.{ok, >>=-eq-ok, ok-injective}
use trading_system_v.Money.{Float}
use trading_system_v.Types.Candle.{Candle, validate}
use trading_system_v.Candles.{
  Row, Target, build_candle, candle_of, highest, lowest, last_close, volume_sum,
}

abbrev pub AllRows : (Row → Type 0) → List Row → Type 0
AllRows P [] = Unit
AllRows P (r ∷ rs) = P r × AllRows P rs

abbrev pub SomeRow : (Row → Type 0) → List Row → Type 0
SomeRow P [] = ⊥
SomeRow P (r ∷ rs) = P r ⊎ SomeRow P rs

-- A price that no row passes, and that some row reaches.
abbrev pub IsHighest : List Row → ℤ → Type 0
IsHighest rows h = AllRows (λ r. r.high ≤ℤ h) rows × SomeRow (λ r. r.high ≡ h) rows

abbrev pub IsLowest : List Row → ℤ → Type 0
IsLowest rows l = AllRows (λ r. l ≤ℤ r.low) rows × SomeRow (λ r. r.low ≡ l) rows

highest_lem :
    (best : ℤ) (rs : List Row)
    → (best ≤ℤ highest best rs)
      × AllRows (λ r. r.high ≤ℤ highest best rs) rs
      × ((highest best rs ≡ best) ⊎ SomeRow (λ r. r.high ≡ highest best rs) rs)
unfolding highest
highest_lem best [] = (omega arith, tt, inl refl)
highest_lem best (r ∷ rs) = ground (arith, highest_lem (max_ℤ best r.high) rs)

lowest_lem :
    (best : ℤ) (rs : List Row)
    → (lowest best rs ≤ℤ best)
      × AllRows (λ r. lowest best rs ≤ℤ r.low) rs
      × ((lowest best rs ≡ best) ⊎ SomeRow (λ r. r.low ≡ lowest best rs) rs)
unfolding lowest
lowest_lem best [] = (omega arith, tt, inl refl)
lowest_lem best (r ∷ rs) = ground (arith, lowest_lem (min_ℤ best r.low) rs)

highest-IsHighest : (r : Row) (rs : List Row) → IsHighest (r ∷ rs) (highest r.high rs)
highest-IsHighest r rs =
    let (le, all, from) = highest_lem r.high rs in
    ((le, all), elim from [ inl e ↦ inl (sym e) | inr later ↦ inr later ])

lowest-IsLowest : (r : Row) (rs : List Row) → IsLowest (r ∷ rs) (lowest r.low rs)
lowest-IsLowest r rs =
    let (le, all, from) = lowest_lem r.low rs in
    ((le, all), elim from [ inl e ↦ inl (sym e) | inr later ↦ inr later ])

-- The candle that is built summarizes its ordered rows.
pub record IsSummary (float_of : ℤ → Float) (target : Target) (open_time : ℕ) (rows : List Row)
    (c : Candle) : Type 0 where
  pub first : Row
  pub rest : List Row
  pub high : ℤ
  pub low : ℤ
  pub ordered : rows ≡ first ∷ rest
  pub opens : c.opening ≡ float_of first.opening
  pub closes : c.close ≡ float_of (last_close first rest)
  pub volume : c.volume ≡ float_of (volume_sum rows)
  pub high_of : c.high ≡ float_of high
  pub low_of : c.low ≡ float_of low
  pub highest : IsHighest rows high
  pub lowest : IsLowest rows low
  pub starts : c.open_time ≡ open_time
  pub ends : c.close_time ≡ open_time + target.length
  pub valid : validate c ≡ ok tt

-- A candle that is built opens at the first of its ordered rows and closes at the last, has the
-- highest of their highs, the lowest of their lows and the sum of their volumes, and passes the
-- validation of candles.
pub build_candle-IsSummary :
    (float_of : ℤ → Float) (target : Target) (open_time : ℕ) (rows : List Row) (c : Candle)
    → build_candle float_of target open_time rows ≡ ok c
    → IsSummary float_of target open_time rows c
unfolding build_candle
build_candle-IsSummary float_of target open_time [] c h = cc
build_candle-IsSummary float_of target open_time (r ∷ rs) c h =
    let d = candle_of float_of target open_time r rs in
    let (u, valid, same) = >>=-eq-ok (validate d) _ h in
    subst (IsSummary float_of target open_time (r ∷ rs)) (ok-injective same) (record {
      first = r;
      rest = rs;
      high = highest r.high rs;
      low = lowest r.low rs;
      ordered = refl;
      opens = refl;
      closes = refl;
      volume = refl;
      high_of = refl;
      low_of = refl;
      highest = highest-IsHighest r rs;
      lowest = lowest-IsLowest r rs;
      starts = refl;
      ends = refl;
      valid = valid;
    })
