-- ===== src/Candles/Loop.antt =====
-- candles.py: what the loop over the buckets returns.
use trading_system_v.Prelude.{
  ℕ, zero, suc, ◌+◌, ◌-◌, ◌/◌, ◌%◌, ◌≤◌, ◌<◌, Bool, true, false, if◌then◌else◌, List, [], ◌∷◌, leb,
  ◌≡◌, refl, sym, ◌∙◌, arith, length,
}
use trading_system_v.Prelude.Result.{Result, ok, ◌>>=◌, >>=-eq-ok, ok-injective}
use trading_system_v.Prelude.Sort.{sort}
use trading_system_v.Money.{Float}
use trading_system_v.Types.Candle.{Candle}
use trading_system_v.Candles.{
  ℤ, minute, ResampledCandles, Groups, rows_at, expected_times, is_complete, Target, build_candle,
  with_candle, with_dropped, bucket_loop, nothing,
}
use native.Mathlib.Nat.{div-eq-sub-div, div-eq_of_lt, add-mod_right}

abbrev pub total : ResampledCandles → ℕ
total m = length m.candles + m.dropped_bucket_count

none_left :
    (current latest d : ℕ)
    → latest < current
    → current ≤ latest + d
    → (latest + d - current) / d ≡ 0
none_left current latest d past near = div-eq_of_lt (omega arith)

same_count : (d a b : ℕ) → a ≡ b → a / d + 1 ≡ suc (b / d)
same_count d a b e = rw e (omega arith)

one_left :
    (current latest d : ℕ)
    → 0 < d
    → current ≤ latest
    → (latest + d - current) / d ≡ suc ((latest + d - (current + d)) / d)
one_left current latest d positive goes =
    div-eq-sub-div positive (omega arith)
    ∙ same_count d (latest + d - current - d) (latest + d - (current + d)) (omega arith)

one_built :
    (c : Candle) (m : ResampledCandles) (n : ℕ) → total m ≡ n → total (with_candle c m) ≡ suc n
one_built c m n h = omega arith

one_dropped : (m : ResampledCandles) (n : ℕ) → total m ≡ n → total (with_dropped m) ≡ suc n
one_dropped m n h = omega arith

module _ (float_of : ℤ → Float) (target : Target) (groups : Groups) where
  abbrev bucket_complete : ℕ → Bool
  bucket_complete t = is_complete (rows_at t groups) (expected_times t (target.length / minute))

  abbrev BuiltAt : ℕ → Candle → Type 0
  BuiltAt t c = build_candle float_of target t (sort (λ r. r.time) (rows_at t groups)) ≡ ok c

  -- What a round does with the rest of the loop.
  data Round (current latest : ℕ) (rest : Result ResampledCandles) (m : ResampledCandles)
      : Type 0 where
    ends : latest < current → m ≡ nothing → Round current latest rest m
    builds :
        (c : Candle) (more : ResampledCandles)
        → current ≤ latest
        → bucket_complete current ≡ true
        → BuiltAt current c
        → rest ≡ ok more
        → m ≡ with_candle c more
        → Round current latest rest m
    drops :
        (more : ResampledCandles)
        → current ≤ latest
        → bucket_complete current ≡ false
        → rest ≡ ok more
        → m ≡ with_dropped more
        → Round current latest rest m

  Round-cases :
      (current latest : ℕ) (goes complete : Bool) (rest : Result ResampledCandles)
      (m : ResampledCandles)
      → leb current latest ≡ goes
      → bucket_complete current ≡ complete
      → (if goes
          then if complete
            then (build_candle float_of target current (sort (λ r. r.time) (rows_at current groups))
                >>= λ c. rest >>= λ more. ok (with_candle c more))
            else (rest >>= λ more. ok (with_dropped more))
          else ok nothing)
        ≡ ok m
      → Round current latest rest m
  Round-cases current latest false complete rest m e k h =
      ends (ground arith) (sym (ok-injective h))
  Round-cases current latest true true rest m e k h =
      let (c, built, h1) = >>=-eq-ok (build_candle float_of target current _) _ h in
      let (more, call, h2) = >>=-eq-ok rest _ h1 in
      builds c more (ground arith) k built call (sym (ok-injective h2))
  Round-cases current latest true false rest m e k h =
      let (more, call, h1) = >>=-eq-ok rest _ h in
      drops more (ground arith) k call (sym (ok-injective h1))

  Round-of :
      (fuel current latest : ℕ) (m : ResampledCandles)
      → bucket_loop float_of (suc fuel) target groups current latest ≡ ok m
      → Round current latest
          (bucket_loop float_of fuel target groups (current + target.length) latest)
          m
  unfolding bucket_loop
  Round-of fuel current latest m h =
      Round-cases current latest (leb current latest) (bucket_complete current) _ m refl refl h

  -- The candles and the dropped buckets together are the buckets from the current one to the latest.
  pub bucket_loop-total :
      (fuel current latest : ℕ) (m : ResampledCandles)
      → 0 < target.length
      → current ≤ latest + target.length
      → latest < current + fuel
      → bucket_loop float_of fuel target groups current latest ≡ ok m
      → total m ≡ (latest + target.length - current) / target.length
  unfolding bucket_loop
  bucket_loop-total zero current latest m positive near enough h =
      rw (sym (ok-injective h)) (sym (none_left current latest target.length (omega arith) near))
  bucket_loop-total (suc fuel) current latest m positive near enough h =
      elim (Round-of fuel current latest m h) [
        | ends past e ↦ rw e (sym (none_left current latest target.length past near))
        | builds c more goes k b call e ↦ rw e (
            one_built c more _ (
              bucket_loop-total fuel (current + target.length) latest more positive (omega arith)
                (omega arith) call)
            ∙ sym (one_left current latest target.length positive goes))
        | drops more goes k call e ↦ rw e (
            one_dropped more _ (
              bucket_loop-total fuel (current + target.length) latest more positive (omega arith)
                (omega arith) call)
            ∙ sym (one_left current latest target.length positive goes))
      ]

  -- The candles in order: each is built from a complete bucket of the grid, none before the one
  -- before.
  abbrev pub IsInOrder : ℕ → ℕ → List Candle → Type 0
  IsInOrder current latest [] = Unit
  IsInOrder current latest (c ∷ cs) =
      (t : ℕ) × (current ≤ t)
      × (t ≤ latest)
      × (t % target.length ≡ current % target.length)
      × (bucket_complete t ≡ true)
      × BuiltAt t c
      × IsInOrder (t + target.length) latest cs

  skip_one :
      (current latest : ℕ) (cs : List Candle)
      → IsInOrder (current + target.length) latest cs
      → IsInOrder current latest cs
  skip_one current latest [] h = tt
  skip_one current latest (c ∷ cs) (t, lower, upper, grid, k, b, rest) =
      (t, omega arith, upper, grid ∙ add-mod_right current target.length, k, b, rest)

  pub bucket_loop-IsInOrder :
      (fuel current latest : ℕ) (m : ResampledCandles)
      → bucket_loop float_of fuel target groups current latest ≡ ok m
      → IsInOrder current latest m.candles
  unfolding bucket_loop
  bucket_loop-IsInOrder zero current latest m h = rw (sym (ok-injective h)) tt
  bucket_loop-IsInOrder (suc fuel) current latest m h = elim (Round-of fuel current latest m h) [
    | ends past e ↦ rw e tt
    | builds c more goes k b call e ↦ rw e (
      current,
      omega arith,
      goes,
      refl,
      k,
      b,
      bucket_loop-IsInOrder fuel (current + target.length) latest more call,
    )
    | drops more goes k call e ↦ rw e (
        skip_one current latest more.candles
          (bucket_loop-IsInOrder fuel (current + target.length) latest more call))
  ]
