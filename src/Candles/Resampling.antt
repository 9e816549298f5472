-- ===== src/Candles/Resampling.antt =====
-- candles.py `resample_confirmed_ohlcv`: which candles it returns, against the source rows.
use trading_system_v.Prelude.{
  ℕ, suc, ◌+◌, ◌-◌, ◌*◌, ◌/◌, ◌%◌, ◌≤◌, ◌<◌, String, Bool, true, false, if◌then◌else◌, List, [],
  ◌∷◌, ltb, ◌≡◌, ◌⊎◌, inl, inr, refl, sym, ◌∙◌, subst, arith,
}
use trading_system_v.Prelude.Result.{Result, ok, >>=-eq-ok, ok-injective}
use trading_system_v.Prelude.Sort.{sort}
use trading_system_v.Prelude.Int.{ℤ}
use trading_system_v.Money.{Float}
use trading_system_v.Types.Candle.{Candle}
use trading_system_v.Candles.{
  second, minute, Row, ResampledCandles, Groups, rows_at, group_rows, first_bucket, bucket_start,
  expected_times, is_complete, Target, build_candle, bucket_loop, from_first, nothing,
  timeframe_duration, resample_confirmed_ohlcv,
}
use trading_system_v.Candles.Grid.{
  timeframe_duration_lem, bucket_start-le, bucket_start-lt, bucket_start-grid, grid_gap,
}
use trading_system_v.Candles.Keys.{is_bucket, first_bucket_lem, in_own_bucket}
use native.Mathlib.Nat.{add-mod_right}
use trading_system_v.Candles.Grouping.{in_bucket, rows_at-group_rows}
use trading_system_v.Candles.Complete.{OnMinutes, HasEvery, is_complete_lem}
use trading_system_v.Candles.Loop.{total, IsInOrder, bucket_loop-IsInOrder, bucket_loop-total}

grouped :
    (d : ℕ) (rows : List Row) (g : Groups) (b : ℕ)
    → group_rows d rows [] ≡ ok g
    → rows_at b g ≡ in_bucket d b rows
unfolding rows_at
grouped d rows g b h = rows_at-group_rows d rows [] g b h

-- The bucket of the earliest row.
pub record IsFirst (rows : List Row) (d : ℕ) (first : ℕ) : Type 0 where
  pub grid : first % d ≡ 0
  pub held : is_bucket d rows first ≡ true
  pub least : (b : ℕ) → is_bucket d rows b ≡ true → first ≤ b

-- What a run of the resampling went through, when it returned something.
record Run (float_of : ℤ → Float) (rows : List Row) (target : Target) (boundary : ℕ)
    (m : ResampledCandles) : Type 0 where
  groups : Groups
  first : ℕ
  starts : IsFirst rows target.length first
  grouping : group_rows target.length rows [] ≡ ok groups
  reached : target.length ≤ boundary
  ordered : first ≤ bucket_start (boundary - target.length) target.length
  loop :
      bucket_loop float_of
        (suc (bucket_start (boundary - target.length) target.length))
        target
        groups
        first
        (bucket_start (boundary - target.length) target.length)
      ≡ ok m

from_cases :
    (early before : Bool) (loop : Result ResampledCandles) (m : ResampledCandles)
    → (if early then ok nothing else if before then ok nothing else loop) ≡ ok m
    → ((m ≡ nothing) × ((early ≡ true) ⊎ (before ≡ true)))
      ⊎ ((early ≡ false) × (before ≡ false) × (loop ≡ ok m))
from_cases true before loop m h = inl (sym (ok-injective h), inl refl)
from_cases false true loop m h = inl (sym (ok-injective h), inr refl)
from_cases false false loop m h = inr (refl, refl, h)

-- No row stands in a bucket that has ended by the boundary.
abbrev pub NoneEnded : List Row → ℕ → ℕ → Type 0
NoneEnded rows d boundary = (b : ℕ) → is_bucket d rows b ≡ true → boundary < b + d

not_ended :
    (rows : List Row) (d n boundary first : ℕ)
    → 0 < n
    → d ≡ n * second
    → IsFirst rows d first
    → ((ltb boundary d ≡ true) ⊎ (ltb (bucket_start (boundary - d) d) first ≡ true))
    → NoneEnded rows d boundary
not_ended rows d n boundary first positive w start (inl early) b h = ground arith
not_ended rows d n boundary first positive w start (inr before) b h =
    let past : bucket_start (boundary - d) d < first = ground arith in
    let upto : boundary - d < bucket_start (boundary - d) d + d =
      subst (λ x. boundary - x < bucket_start (boundary - x) x + x) (sym w)
        (bucket_start-lt _ n positive) in
    let grid : bucket_start (boundary - d) d % d ≡ 0 =
      subst (λ x. bucket_start (boundary - x) x % x ≡ 0) (sym w) (bucket_start-grid _ n) in
    omega (
      arith,
      grid_gap (bucket_start (boundary - d) d) first d grid start.grid past,
      start.least b h,
    )

IsFirst-key :
    (rows : List Row) (d n : ℕ) (key : ℕ) (own : List Row) (g : Groups)
    → d ≡ n * second
    → group_rows d rows [] ≡ ok ((key, own) ∷ g)
    → IsFirst rows d (first_bucket key g)
IsFirst-key rows d n key own g e h =
    subst (λ x. group_rows x rows [] ≡ ok ((key, own) ∷ g) → IsFirst rows x (first_bucket key g))
      (sym e)
      (λ k.
        let (grid, held, least) = first_bucket_lem n rows key own g k in
        record { grid = grid; held = held; least = least })
      h

-- With no groups there were no rows.
no_rows :
    {A : Type 0} (rows : List Row) (d n b : ℕ)
    → d ≡ n * second
    → group_rows d rows [] ≡ ok []
    → is_bucket d rows b ≡ true
    → A
unfolding rows_at
no_rows rows d n b w e h =
    let (r, rs, at) = in_own_bucket d rows b h in
    let k : r ∷ rs ≡ [] = sym at ∙ sym (grouped d rows [] b e) in cc

from_first_cases :
    (float_of : ℤ → Float) (rows : List Row) (target : Target) (boundary n : ℕ) (groups : Groups)
    (m : ResampledCandles)
    → 0 < n
    → target.length ≡ n * second
    → group_rows target.length rows [] ≡ ok groups
    → from_first float_of target boundary groups ≡ ok m
    → ((m ≡ nothing) × NoneEnded rows target.length boundary) ⊎ Run float_of rows target boundary m
unfolding from_first
from_first_cases float_of rows target boundary n [] m positive w e h =
    inl (sym (ok-injective h), λ b k. no_rows rows target.length n b w e k)
from_first_cases float_of rows target boundary n ((key, own) ∷ g) m positive w e h =
    let latest = bucket_start (boundary - target.length) target.length in
    let first = first_bucket key g in
    elim (from_cases (ltb boundary target.length) (ltb latest first)
      (bucket_loop float_of (suc latest) target ((key, own) ∷ g) first latest) m h) [
        | inl (same, why) ↦ inl (
          same,
          not_ended rows target.length n boundary first positive w
              (IsFirst-key rows target.length n key own g w e) why,
        )
        | inr (reached, ordered, loop) ↦ inr (record {
          groups = (key, own) ∷ g;
          first = first;
          starts = IsFirst-key rows target.length n key own g w e;
          grouping = e;
          reached = ground arith;
          ordered = ground arith;
          loop = loop;
        })
      ]

abbrev pub target_of : String → String → String → ℕ → Target
target_of symbol exchange timeframe d = record {
  symbol = symbol;
  exchange = exchange;
  timeframe = timeframe;
  length = d;
}

resample_cases :
    (float_of : ℤ → Float) (rows : List Row) (symbol exchange timeframe : String) (boundary : ℕ)
    (m : ResampledCandles)
    → resample_confirmed_ohlcv float_of rows symbol exchange timeframe boundary ≡ ok m
    → (d : ℕ) × (timeframe_duration timeframe ≡ ok d)
      × (((m ≡ nothing) × NoneEnded rows d boundary)
          ⊎ Run float_of rows (target_of symbol exchange timeframe d) boundary m)
unfolding resample_confirmed_ohlcv
resample_cases float_of rows symbol exchange timeframe boundary m h =
    let (d, timed, h1) = >>=-eq-ok (timeframe_duration timeframe) _ h in
    let (groups, e, h2) = >>=-eq-ok (group_rows d rows []) _ h1 in
    let (n, positive, w) = timeframe_duration_lem timeframe d timed in
    (
      d,
      timed,
      from_first_cases float_of rows (target_of symbol exchange timeframe d) boundary n groups m
          positive w e h2,
    )

-- The last bucket that ends by the boundary.
abbrev pub latest_before : ℕ → ℕ → ℕ
latest_before boundary d = bucket_start (boundary - d) d

-- When the resampling returns anything, the candles and the dropped buckets together are all the
-- buckets from the earliest row's to the last one that has ended by the boundary.
pub resample_total :
    (float_of : ℤ → Float) (rows : List Row) (symbol exchange timeframe : String) (boundary : ℕ)
    (m : ResampledCandles)
    → resample_confirmed_ohlcv float_of rows symbol exchange timeframe boundary ≡ ok m
    → (d : ℕ) × (timeframe_duration timeframe ≡ ok d)
      × (((total m ≡ 0) × NoneEnded rows d boundary)
          ⊎ ((first : ℕ) × IsFirst rows d first
              × (total m ≡ (latest_before boundary d + d - first) / d)))
resample_total float_of rows symbol exchange timeframe boundary m h =
    let (d, timed, cases) = resample_cases float_of rows symbol exchange timeframe boundary m h in
    let (n, positive, w) = timeframe_duration_lem timeframe d timed in
    (
      d,
      timed,
      elim cases [
        | inl (none_at_all, later) ↦ inl (rw none_at_all refl, later)
        | inr run ↦ inr (
          run.first,
          run.starts,
          bucket_loop-total float_of _ run.groups _ run.first (latest_before boundary d) m
              (omega arith) (omega (arith, run.ordered)) (omega arith) run.loop,
        )
      ],
    )

-- The candles in order: each is on the grid, ends by the boundary, and is built from the source
-- rows of its bucket, which are one for every minute of it; none opens before the last one closed.
abbrev pub IsResampled : (ℤ → Float) → List Row → Target → ℕ → ℕ → List Candle → Type 0
IsResampled float_of rows target boundary lower [] = Unit
IsResampled float_of rows target boundary lower (c ∷ cs) =
    (t : ℕ) × (lower ≤ t)
    × (t % target.length ≡ 0)
    × (t + target.length ≤ boundary)
    × OnMinutes t (target.length / minute) (in_bucket target.length t rows)
    × HasEvery t (target.length / minute) (in_bucket target.length t rows)
    × (build_candle float_of target t (sort (λ r. r.time) (in_bucket target.length t rows)) ≡ ok c)
    × IsResampled float_of rows target boundary (t + target.length) cs

in_source :
    (float_of : ℤ → Float) (rows : List Row) (target : Target) (boundary first : ℕ) (g : Groups)
    (lower : ℕ) (cs : List Candle)
    → group_rows target.length rows [] ≡ ok g
    → target.length ≤ boundary
    → lower % target.length ≡ 0
    → IsInOrder float_of target g lower (latest_before boundary target.length) cs
    → IsResampled float_of rows target boundary lower cs
in_source float_of rows target boundary first g lower [] e reached grid h = tt
in_source float_of rows target boundary first g lower (c ∷ cs) e reached grid
      (t, after, upto, own, complete, built, rest) =
    let at = grouped target.length rows g t e in
    let aligned = own ∙ grid in
    let (on, every) =
      is_complete_lem t (target.length / minute) (in_bucket target.length t rows) (
        subst (λ x. is_complete x (expected_times t (target.length / minute)) ≡ true) at
          complete) in
    (
      t,
      after,
      aligned,
      omega (arith, bucket_start-le (boundary - target.length) target.length),
      on,
      every,
      subst (λ x. build_candle float_of target t (sort (λ r. r.time) x) ≡ ok c) at built,
      in_source float_of rows target boundary first g (t + target.length) cs e reached
          (add-mod_right t target.length ∙ aligned) rest,
    )

lowered :
    (float_of : ℤ → Float) (rows : List Row) (target : Target) (boundary lower : ℕ)
    (cs : List Candle)
    → IsResampled float_of rows target boundary lower cs
    → IsResampled float_of rows target boundary 0 cs
lowered float_of rows target boundary lower [] h = tt
lowered float_of rows target boundary lower (c ∷ cs) (t, _, grid, ends, on, every, b, rest) =
    (t, omega arith, grid, ends, on, every, b, rest)

-- Every candle that the resampling returns is built from the source rows of its own bucket, which
-- are one for each minute of it; it opens at a multiple of the duration, not before the candle
-- before it closes, and has closed by the boundary.
pub resample-IsResampled :
    (float_of : ℤ → Float) (rows : List Row) (symbol exchange timeframe : String) (boundary : ℕ)
    (m : ResampledCandles)
    → resample_confirmed_ohlcv float_of rows symbol exchange timeframe boundary ≡ ok m
    → (d : ℕ) × (timeframe_duration timeframe ≡ ok d)
      × IsResampled float_of rows (target_of symbol exchange timeframe d) boundary 0 m.candles
resample-IsResampled float_of rows symbol exchange timeframe boundary m h =
    let (d, timed, cases) = resample_cases float_of rows symbol exchange timeframe boundary m h in
    (
      d,
      timed,
      elim cases [
        | inl (none_at_all, later) ↦
            subst
              (λ x.
                IsResampled float_of rows (target_of symbol exchange timeframe d) boundary 0
                  x.candles)
              (sym none_at_all) tt
        | inr run ↦ lowered float_of rows _ boundary run.first m.candles (
            in_source float_of rows _ boundary run.first run.groups run.first m.candles run.grouping
              run.reached run.starts.grid
              (bucket_loop-IsInOrder float_of _ run.groups _ run.first _ m run.loop))
      ],
    )
