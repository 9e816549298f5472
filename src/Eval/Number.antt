-- ===== src/Eval/Number.antt =====
-- The floats of a metric set, where NaN and the infinities occur, and their comparisons.
use trading_system_v.Prelude.{ℕ, ◌+◌, ◌/◌, Bool, true, false}
use trading_system_v.Prelude.Int.{ℤ, pos, negsuc, neg, abs}
use trading_system_v.Money.{Float, leb_float, ltb_float, ten_pow}

pub data Number : Type 0 where
  nan minus_infinity plus_infinity : Number
  finite : Float → Number

-- `math.isnan`.
abbrev pub is_nan : Number → Bool
is_nan nan = true
is_nan _ = false

-- `a <= b`; nothing compares with NaN.
abbrev pub leb_number : Number → Number → Bool
leb_number nan _ = false
leb_number minus_infinity nan = false
leb_number minus_infinity _ = true
leb_number plus_infinity plus_infinity = true
leb_number plus_infinity _ = false
leb_number (finite a) nan = false
leb_number (finite a) minus_infinity = false
leb_number (finite a) plus_infinity = true
leb_number (finite a) (finite b) = leb_float a b

-- `a < b`.
abbrev pub ltb_number : Number → Number → Bool
ltb_number nan _ = false
ltb_number minus_infinity nan = false
ltb_number minus_infinity minus_infinity = false
ltb_number minus_infinity _ = true
ltb_number plus_infinity _ = false
ltb_number (finite a) nan = false
ltb_number (finite a) minus_infinity = false
ltb_number (finite a) plus_infinity = true
ltb_number (finite a) (finite b) = ltb_float a b

-- `abs`.
abbrev pub abs_number : Number → Number
abs_number nan = nan
abs_number minus_infinity = plus_infinity
abs_number plus_infinity = plus_infinity
abs_number (finite x) = finite (record { digits = abs x.digits; places = x.places })

truncated : ℤ → ℕ → ℤ
truncated (pos n) d = pos (n / d)
truncated (negsuc n) d = neg (pos ((n + 1) / d))

-- `int` of a finite float, which truncates.
unfoldable pub whole : Float → ℤ
unfolding truncated
whole x = truncated x.digits (ten_pow x.places)
