-- ===== src/Candles/Grid.antt =====
-- candles.py: durations and the starts of buckets.
use trading_system_v.Prelude.{
  ℕ, ◌+◌, ◌-◌, ◌*◌, ◌/◌, ◌%◌, ◌≤◌, ◌<◌, String, Option, none, some, ◌≡◌, ap, ◌∙◌, arith,
}
use Prim.Native.Char.{code}
use Prim.Native.String.{[], ◌∷◌}
use native.Mathlib.Nat.{
  mul-mod_left, mul-div_cancel, mul_assoc, div-add-mod', mul-pos, mod-lt, lt_of_mul-lt-mul_right,
  mul-le-mul_right, add-mul, one-mul,
}
use trading_system_v.Prelude.Result.{ok, >>=-eq-ok, ok-injective}
use trading_system_v.Types.Timeframe.{
  TimeUnit, minutes, hours, days, time_unit_of, with_unit, parse_rest, parse_timeframe, Timeframe,
  unit_seconds, duration,
}
use trading_system_v.Types.Candle.{matched}
use trading_system_v.Candles.{second, bucket_start, timeframe_duration}

unit_grows : (n : ℕ) (u : Option TimeUnit) (t : Timeframe) → with_unit n u ≡ some t → n ≤ t.count
unit_grows n none t h = cc
unit_grows n (some u) t h = let e : n ≡ t.count = cc in omega arith

digits_grow : (n : ℕ) (s : String) (t : Timeframe) → parse_rest n s ≡ some t → n ≤ t.count
unfolding parse_rest
digits_grow n [] t h = cc
digits_grow n (c ∷ []) t h = unit_grows n (time_unit_of (code c)) t h
digits_grow n (c ∷ d ∷ rest) t h =
    ground (arith, digits_grow (n * 10 + (code c - b'0')) (d ∷ rest) t)

-- The first digit is not zero.
count_positive : (s : String) (t : Timeframe) → parse_timeframe s ≡ some t → 0 < t.count
unfolding parse_timeframe
count_positive [] t h = cc
count_positive (c ∷ rest) t h = ground (arith, digits_grow (code c - b'0') rest t)

unit_positive : (u : TimeUnit) → 0 < unit_seconds u
unit_positive minutes = omega arith
unit_positive hours = omega arith
unit_positive days = omega arith

matched_ok : (o : Option Timeframe) (t : Timeframe) → matched o ≡ ok t → o ≡ some t
matched_ok none t h = cc
matched_ok (some u) t h = ap some (ok-injective h)

whole : (d n : ℕ) → second * n ≡ d → d ≡ n * second
whole d n h = omega arith

-- A duration is a positive number of whole seconds.
pub timeframe_duration_lem :
    (s : String) (d : ℕ) → timeframe_duration s ≡ ok d → (n : ℕ) × (0 < n) × (d ≡ n * second)
unfolding timeframe_duration duration
timeframe_duration_lem s d h =
    let (t, parsed, same) = >>=-eq-ok (matched (parse_timeframe s)) _ h in
    (
      unit_seconds t.time_unit * t.count,
      mul-pos (unit_positive t.time_unit)
          (count_positive s t (matched_ok (parse_timeframe s) t parsed)),
      whole d (unit_seconds t.time_unit * t.count) (ok-injective same),
    )

pub bucket_start-le : (v d : ℕ) → bucket_start v d ≤ v
unfolding bucket_start
bucket_start-le v d = omega arith

whole_buckets : (q s : ℕ) → (q - q % s) * second ≡ q / s * (s * second)
whole_buckets q s =
    let e : q - q % s ≡ q / s * s = omega (arith, div-add-mod' q s) in
    ap (λ n. n * second) e ∙ mul_assoc (q / s) s second

pub bucket_start-grid : (v s : ℕ) → bucket_start v (s * second) % (s * second) ≡ 0
unfolding bucket_start
bucket_start-grid v s =
    let e : 0 < second = omega arith in
    rw (mul-div_cancel s e, whole_buckets (v / second) s)
      (mul-mod_left (v / second / s) (s * second))

-- A bucket reaches past the times in it.
pub bucket_start-lt : (v s : ℕ) → 0 < s → v < bucket_start v (s * second) + s * second
unfolding bucket_start
bucket_start-lt v s h =
    let e : 0 < second = omega arith in
    rw (mul-div_cancel s e) (omega (arith, mod-lt (v / second) h))

multiple : (a d : ℕ) → a % d ≡ 0 → a ≡ a / d * d
multiple a d h = omega (arith, div-add-mod' a d)

-- Two multiples are a whole step apart.
pub grid_gap : (a b d : ℕ) → a % d ≡ 0 → b % d ≡ 0 → a < b → a + d ≤ b
grid_gap a b d h k less =
    let below : a / d * d < b / d * d = omega (arith, multiple a d h, multiple b d k) in
    let step : a / d < b / d = lt_of_mul-lt-mul_right d below in
    let fits : (a / d + 1) * d ≤ b / d * d = mul-le-mul_right d (omega arith) in
    omega (arith, multiple a d h, multiple b d k, add-mul (a / d) 1 d, one-mul d)
