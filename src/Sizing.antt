-- ===== src/Sizing.antt =====
-- services/core-lib/core_lib/sizing: the quantities of an entry and the limits on its risk. That an
-- input is a finite float is its type here. The arithmetic of binary floats is an argument.
use trading_system_v.Prelude.{Bool, not, ◌||◌}
use trading_system_v.Prelude.Int.{pos, leb_ℤ, ltb_ℤ, abs}
use trading_system_v.Prelude.Result.{Result, ok, ◌>>◌, raise_if}
use trading_system_v.Money.{Float, leb_float, ltb_float}

-- The operators of Python on two finite floats, where the result is finite.
pub record FloatArithmetic : Type 0 where
  pub sub : Float → Float → Float
  pub mul : Float → Float → Float
  pub div : Float → Float → Float
  pub add : Float → Float → Float

abbrev pub float_abs : Float → Float
float_abs x = record x { digits = abs x.digits }

abbrev pub not_positive : Float → Bool
not_positive x = leb_ℤ x.digits (pos 0)

abbrev pub is_negative : Float → Bool
is_negative x = ltb_ℤ x.digits (pos 0)

-- MAX_RISK_PER_TRADE, 0.01.
abbrev pub max_risk_per_trade : Float
max_risk_per_trade = record { digits = pos 1; places = 2 }

-- math.nextafter(0.01, inf).
abbrev pub after_one_percent : Float
after_one_percent = record { digits = pos 10000000000000002; places = 18 }

abbrev pub one_float : Float
one_float = record { digits = pos 1; places = 0 }

module _ (arithmetic : FloatArithmetic) where
  -- risk_money.py `size`.
  unfoldable pub size : Float → Float → Float → Result Float
  size risk_per_trade equity stop_distance = do
    raise_if (not_positive risk_per_trade || not (leb_float risk_per_trade max_risk_per_trade))
        "risk_per_trade must be in (0, 0.01]"
    raise_if (not_positive equity || not_positive stop_distance)
        "equity and stop_distance must be positive"
    ok (arithmetic.div (arithmetic.mul risk_per_trade equity) stop_distance)

  -- wallet_pct.py `size`.
  unfoldable pub wallet_pct_size : Float → Float → Result Float
  wallet_pct_size available_balance position_size_pct = do
    raise_if (is_negative available_balance) "available_balance must be non-negative"
    raise_if (is_negative position_size_pct || ltb_float one_float position_size_pct)
        "position_size_pct must be between zero and one"
    ok (arithmetic.mul available_balance position_size_pct)

  -- risk_money.py `one_r`.
  unfoldable pub one_r : Float → Float → Float → Result Float
  one_r entry stop quantity = do
    raise_if (not_positive entry || (not_positive stop || not_positive quantity))
        "entry, stop, and quantity must be positive"
    ok (arithmetic.mul (float_abs (arithmetic.sub entry stop)) quantity)

  -- turtle_unit.py `unit_size`.
  unfoldable pub unit_size : Float → Float → Float → Result Float
  unit_size risk_per_trade equity n = size risk_per_trade equity n

-- exposure_limit.py `_within_limit`, of one contribution against the limit of 0.01: the sum of one
-- float is that float.
unfoldable pub within_one_percent : Float → Result Bool
within_one_percent risk = do
  raise_if (is_negative risk) "risk contributions must be finite and non-negative"
  ok (leb_float risk after_one_percent)
