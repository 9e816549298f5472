-- ===== src/Money.antt =====
-- services/core-lib/core_lib/types/money.py and the decimal arithmetic that the money code writes:
-- a price or an amount is the integer that counts its units of 0.00000001.
pub mod Half
pub mod Rounding
use trading_system_v.Prelude.{ℕ, zero, suc, ◌+◌, ◌*◌, Bool}
use trading_system_v.Prelude.Int.{ℤ, pos, negsuc, neg, ◌*ℤ◌, pos_part, leb_ℤ, ltb_ℤ}
use Half.{round_half_even}

-- Units in one: Q_PRICE and Q_AMOUNT are both 0.00000001.
abbrev pub scale : ℕ
scale = 100000000

-- The exact value num / den, a whole number of units after ROUND_HALF_EVEN.
unfoldable pub quantize : ℤ → ℕ → ℤ
quantize (pos n) den = pos (round_half_even n den)
quantize (negsuc n) den = neg (pos (round_half_even (n + 1) den))

-- A rate (of a fee, of slippage, of funding, of maintenance margin): num / (den_pred + 1).
pub record Rate : Type 0 where
  pub num : ℤ
  pub den_pred : ℕ

abbrev pub den : Rate → ℕ
den r = suc r.den_pred

abbrev pub zero_rate : Rate
zero_rate = record { num = pos 0; den_pred = 0 }

-- quantize(a * b) for two values that count units.
unfoldable pub mul_units : ℤ → ℤ → ℤ
mul_units a b = quantize (a *ℤ b) scale

-- quantize(a * rate).
unfoldable pub mul_rate : ℤ → Rate → ℤ
mul_rate a rate = quantize (a *ℤ rate.num) (den rate)

-- quantize(a / b) for two values that count units, of which `b` is positive.
unfoldable pub div_units : ℤ → ℤ → ℤ
div_units a b = quantize (a *ℤ pos scale) (pos_part b)

-- A finite float as the decimal that `str` prints, digits / 10^places: what the program reads of it.
pub record Float : Type 0 where
  pub digits : ℤ
  pub places : ℕ

-- 10^k, as a number of units that stays positive.
unfoldable pub ten_pow : ℕ → ℕ
ten_pow zero = 1
ten_pow (suc k) = 10 * ten_pow k

abbrev pub leb_float : Float → Float → Bool
leb_float a b = leb_ℤ (a.digits *ℤ pos (ten_pow b.places)) (b.digits *ℤ pos (ten_pow a.places))

abbrev pub ltb_float : Float → Float → Bool
ltb_float a b = ltb_ℤ (a.digits *ℤ pos (ten_pow b.places)) (b.digits *ℤ pos (ten_pow a.places))

-- execution/normalizer.py `to_decimal`: through `str` once, then to units.
unfoldable pub to_decimal : Float → ℤ
to_decimal x = quantize (x.digits *ℤ pos scale) (ten_pow x.places)
