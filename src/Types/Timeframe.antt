-- ===== src/Types/Timeframe.antt =====
-- The timeframe of a candle: `^(?P<count>[1-9]\d*)(?P<unit>[mhd])$` (candle.py, candles.py). The
-- digits read are the ASCII ones.
use trading_system_v.Prelude.{
  ℕ, ◌+◌, ◌-◌, ◌*◌, Bool, ◌&&◌, leb, if◌then◌else◌, Option, none, some, ◌==◌,
}
use Prim.Native.String.{String, [], ◌∷◌}
use Prim.Native.Char.{code}

pub data TimeUnit : Type 0 where
  minutes hours days : TimeUnit

pub record Timeframe : Type 0 where
  pub count : ℕ
  pub time_unit : TimeUnit

abbrev pub time_unit_of : ℕ → Option TimeUnit
time_unit_of c =
    if c == b'm'
    then some minutes
    else if c == b'h'
    then some hours
    else if c == b'd'
    then some days
    else none

abbrev is_digit : ℕ → Bool
is_digit c = leb b'0' c && leb c b'9'

abbrev pub with_unit : ℕ → Option TimeUnit → Option Timeframe
with_unit n none = none
with_unit n (some u) = some (record { count = n; time_unit = u })

-- The rest of the pattern, after the digits that make `n`.
unfoldable pub parse_rest : ℕ → String → Option Timeframe
parse_rest n [] = none
parse_rest n (c ∷ []) = with_unit n (time_unit_of (code c))
parse_rest n (c ∷ rest) =
    let more = parse_rest (n * 10 + (code c - b'0')) rest in
    if is_digit (code c) then more else none

unfoldable pub parse_timeframe : String → Option Timeframe
unfolding parse_rest
parse_timeframe [] = none
parse_timeframe (c ∷ rest) =
    if leb b'1' (code c) && leb (code c) b'9' then parse_rest (code c - b'0') rest else none

-- `_TIMEFRAME_SECONDS`.
abbrev pub unit_seconds : TimeUnit → ℕ
unit_seconds minutes = 60
unit_seconds hours = 3600
unit_seconds days = 86400

-- `_TIMEFRAME_UNITS[unit] * int(count)`, in microseconds.
unfoldable pub duration : Timeframe → ℕ
duration t = 1000000 * (unit_seconds t.time_unit * t.count)
