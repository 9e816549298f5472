-- ===== src/Candles.antt =====
-- services/core-lib/core_lib/candles.py: one-minute rows of the database into larger candles. Times
-- count microseconds of UTC from the epoch. That a row has eight columns of their types is its type
-- here; `float_of` is Python's `float` of a decimal that counts units.

pub mod Build
pub mod Complete
pub mod Grid
pub mod Grouping
pub mod Keys
pub mod Loop
pub mod Resampling
use trading_system_v.Prelude.{
  ℕ, zero, suc, ◌+◌, ◌-◌, ◌*◌, ◌/◌, ◌%◌, String, Bool, true, false, not, ◌&&◌, if◌then◌else◌,
  Option, none, some, List, [], ◌∷◌, ◌++◌, ltb, leb, ◌==◌, any, all,
}
use trading_system_v.Prelude.Int.{ℤ, pos, ◌+ℤ◌, max_ℤ, min_ℤ}
use trading_system_v.Prelude.Result.{◌>>◌, Result, ok, err, value_error, index_error, ◌>>=◌}
use trading_system_v.Prelude.Sort.{sort}
use trading_system_v.Money.{Float}
use trading_system_v.Types.Candle.{validate, Candle, matched}
use trading_system_v.Types.Timeframe.{parse_timeframe, duration}

abbrev pub second : ℕ
second = 1000000

-- `_MINUTE`.
abbrev pub minute : ℕ
minute = 60000000

-- A row of ohlcv_futures: prices and volumes count units.
pub record Row : Type 0 where
  pub time : ℕ
  pub opening : ℤ
  pub high : ℤ
  pub low : ℤ
  pub close : ℤ
  pub volume : ℤ
  pub quote_volume : Option ℤ
  pub trade_count : Option ℤ

pub record ResampledCandles : Type 0 where
  pub candles : List Candle
  pub dropped_bucket_count : ℕ

-- `timeframe_duration`: every unit is a whole number of minutes, so its second test never raises.
unfoldable pub timeframe_duration : String → Result ℕ
timeframe_duration timeframe = matched (parse_timeframe timeframe) >>= λ t. ok (duration t)

-- `_bucket_start`, which drops the part of a second.
unfoldable pub bucket_start : ℕ → ℕ → ℕ
bucket_start value length =
    let seconds = length / second in
    let epoch_seconds = value / second in (epoch_seconds - epoch_seconds % seconds) * second

-- `grouped`, a dict of dicts: the rows of each bucket, in the order they came.
abbrev pub Groups : Type 0
Groups = List (ℕ × List Row)

-- `grouped.get(current, {})`.
unfoldable pub rows_at : ℕ → Groups → List Row
rows_at bucket [] = []
rows_at bucket ((key, rows) ∷ groups) =
    let rest = rows_at bucket groups in if key == bucket then rows else rest

abbrev pub has_time : ℕ → List Row → Bool
has_time time = any (λ r. r.time == time)

-- The body of the loop over the rows: `setdefault`, the test for a duplicate, the assignment.
unfoldable pub add_row : ℕ → Row → Groups → Result Groups
add_row bucket row [] = ok ((bucket, row ∷ []) ∷ [])
add_row bucket row ((key, rows) ∷ groups) =
    let rest = add_row bucket row groups in
    if key == bucket
    then if has_time row.time rows
      then err (value_error "duplicate 1m source candle")
      else ok ((key, rows ++ row ∷ []) ∷ groups)
    else (rest >>= λ later. ok ((key, rows) ∷ later))

unfoldable pub group_rows : ℕ → List Row → Groups → Result Groups
group_rows length [] groups = ok groups
group_rows length (row ∷ rows) groups =
    add_row (bucket_start row.time length) row groups >>= λ more. group_rows length rows more

-- `min(grouped)`, over the keys that are left.
unfoldable pub first_bucket : ℕ → Groups → ℕ
first_bucket least [] = least
first_bucket least ((key, rows) ∷ groups) =
    first_bucket (if ltb key least then key else least) groups

-- `{current + index * _MINUTE for index in range(expected_count)}`.
unfoldable pub expected_times : ℕ → ℕ → List ℕ
expected_times current zero = []
expected_times current (suc count) = current ∷ expected_times (current + minute) count

-- `set(bucket) == expected_times`.
unfoldable pub is_complete : List Row → List ℕ → Bool
is_complete bucket expected =
    all (λ r. any (λ t. t == r.time) expected) bucket && all (λ t. has_time t bucket) expected

-- `sum` of a column, or None where a row has none.
unfoldable pub optional_sum : (Row → Option ℤ) → List Row → Option ℤ
optional_sum column [] = some (pos 0)
optional_sum column (r ∷ rs) =
    let rest = optional_sum column rs in
    elim (column r) [ none ↦ none | some x ↦ elim rest [ none ↦ none | some s ↦ some (x +ℤ s) ] ]

unfoldable pub volume_sum : List Row → ℤ
volume_sum [] = pos 0
volume_sum (r ∷ rs) = r.volume +ℤ volume_sum rs

unfoldable pub highest : ℤ → List Row → ℤ
highest best [] = best
highest best (r ∷ rs) = highest (max_ℤ best r.high) rs

unfoldable pub lowest : ℤ → List Row → ℤ
lowest best [] = best
lowest best (r ∷ rs) = lowest (min_ℤ best r.low) rs

unfoldable pub last_close : Row → List Row → ℤ
last_close r [] = r.close
last_close r (next ∷ rs) = last_close next rs

abbrev float_or_none : (ℤ → Float) → Option ℤ → Option Float
float_or_none float_of none = none
float_or_none float_of (some x) = some (float_of x)

-- What a resampling is asked for.
pub record Target : Type 0 where
  pub symbol : String
  pub exchange : String
  pub timeframe : String
  pub length : ℕ

abbrev pub with_candle : Candle → ResampledCandles → ResampledCandles
with_candle c more = record more { candles = c ∷ more.candles }

abbrev pub with_dropped : ResampledCandles → ResampledCandles
with_dropped more = record more { dropped_bucket_count = suc more.dropped_bucket_count }

abbrev pub nothing : ResampledCandles
nothing = record { candles = []; dropped_bucket_count = 0 }

module _ (float_of : ℤ → Float) where
  -- The candle of the ordered rows, of which there is a first one.
  abbrev pub candle_of : Target → ℕ → Row → List Row → Candle
  candle_of target open_time first rest = record {
    symbol = target.symbol;
    exchange = target.exchange;
    timeframe = target.timeframe;
    open_time = open_time;
    close_time = open_time + target.length;
    opening = float_of first.opening;
    high = float_of (highest first.high rest);
    low = float_of (lowest first.low rest);
    close = float_of (last_close first rest);
    volume = float_of (volume_sum (first ∷ rest));
    quote_volume = float_or_none float_of (optional_sum (λ r. r.quote_volume) (first ∷ rest));
    trade_count = optional_sum (λ r. r.trade_count) (first ∷ rest);
  }

  -- `_build_candle`; `opens[0]` raises on no rows, and the constructor of Candle validates.
  unfoldable pub build_candle : Target → ℕ → List Row → Result Candle
  build_candle target open_time [] = err (index_error "list index out of range")
  build_candle target open_time (first ∷ rest) =
      let c = candle_of target open_time first rest in validate c >> ok c

  -- `while current <= latest_complete_bucket`, for at most `fuel` rounds.
  unfoldable pub bucket_loop : ℕ → Target → Groups → ℕ → ℕ → Result ResampledCandles
  bucket_loop zero target groups current latest = ok nothing
  bucket_loop (suc fuel) target groups current latest =
      let rest = bucket_loop fuel target groups (current + target.length) latest in
      let bucket = rows_at current groups in
      let expected = expected_times current (target.length / minute) in
      let built = build_candle target current (sort (λ r. r.time) bucket) >>= λ c.
      rest >>= λ more. ok (with_candle c more) in
      let dropped = rest >>= λ more. ok (with_dropped more) in
      if leb current latest
      then if is_complete bucket expected then built else dropped
      else ok nothing

  -- The loop from the first bucket, when the latest complete one is not before it.
  unfoldable pub from_first : Target → ℕ → Groups → Result ResampledCandles
  from_first target boundary [] = ok nothing
  from_first target boundary ((key, rows) ∷ groups) =
      let first = first_bucket key groups in
      let latest = bucket_start (boundary - target.length) target.length in
      let all_groups = (key, rows) ∷ groups in
      if ltb boundary target.length
      then ok nothing
      else if ltb latest first
      then ok nothing
      else bucket_loop (suc latest) target all_groups first latest

  -- `resample_confirmed_ohlcv`. A boundary less than one duration after the epoch has no bucket
  -- before it.
  unfoldable pub resample_confirmed_ohlcv :
      List Row → String → String → String → ℕ → Result ResampledCandles
  resample_confirmed_ohlcv rows symbol exchange timeframe boundary =
      timeframe_duration timeframe >>= λ length. group_rows length rows [] >>= λ groups.
      from_first
        (record { symbol = symbol; exchange = exchange; timeframe = timeframe; length = length })
        boundary groups
