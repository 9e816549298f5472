-- ===== src/Types/Signal.antt =====
-- services/core-lib/core_lib/types/signal.py and types/decision.py. That a field has the type that
-- the code tests is its type here, and times are aware of UTC.
use trading_system_v.Prelude.{
  ℕ, String, Bool, true, false, not, ◌&&◌, ◌||◌, Option, none, some, ltb, leb,
}
use Prim.Native.String.{[], ◌∷◌}
use Prim.Native.Char.{code}
use trading_system_v.Prelude.{◌==◌}
use trading_system_v.Prelude.Int.{pos, leb_ℤ}
use trading_system_v.Prelude.Result.{Result, ◌>>◌, raise_if}
use trading_system_v.Money.{Float, leb_float}
use trading_system_v.Types.Enums.{MarketType}

-- Of the metadata it has what the engine reads, money_management.requested_quantity.
pub record TradingSignal : Type 0 where
  pub symbol : String
  pub timestamp : ℕ
  pub confidence : Float
  pub price : Float
  pub stop_loss : Option Float
  pub take_profit : Option Float
  pub market_type : MarketType
  pub leverage : Option ℕ
  pub reason : String
  pub requested_quantity : Option Float

abbrev zero_float : Float
zero_float = record { digits = pos 0; places = 0 }

abbrev unit_float : Float
unit_float = record { digits = pos 1; places = 0 }

abbrev within_unit : Float → Bool
within_unit x = leb_float zero_float x && leb_float x unit_float

abbrev not_positive : Option Float → Bool
not_positive none = false
not_positive (some x) = leb_ℤ x.digits (pos 0)

abbrev no_leverage : Option ℕ → Bool
no_leverage none = false
no_leverage (some n) = not (ltb 0 n)

-- `TradingSignal.__post_init__`.
unfoldable pub validate_signal : TradingSignal → Result (Unit {0})
validate_signal s = do
  raise_if (not (within_unit s.confidence)) "confidence must be between 0 and 1"
  raise_if (leb_ℤ s.price.digits (pos 0)) "price must be positive"
  raise_if (not_positive s.stop_loss) "stop_loss must be positive"
  raise_if (not_positive s.take_profit) "take_profit must be positive"
  raise_if (no_leverage s.leverage) "leverage must be positive"

pub data DecisionAction : Type 0 where
  enter_long enter_short exit hold : DecisionAction

pub record DecisionIntent : Type 0 where
  pub action : DecisionAction
  pub symbol : String
  pub timestamp : ℕ
  pub reference_price : Float
  pub confidence : Float
  pub reason : String

-- Whether a text is empty after `strip`, of the ASCII whitespace.
abbrev is_space : ℕ → Bool
is_space c =
    c == b' '
    || (c == 9 || (c == 10 || (c == 11 || (c == 12 || (c == 13 || (leb 28 c && leb c 31))))))

unfoldable pub is_blank : String → Bool
is_blank [] = true
is_blank (c ∷ rest) = let later = is_blank rest in is_space (code c) && later

-- `DecisionIntent.__post_init__`.
unfoldable pub validate_decision : DecisionIntent → Result (Unit {0})
unfolding is_blank
validate_decision d = do
  raise_if (is_blank d.symbol) "symbol must not be empty"
  raise_if (leb_ℤ d.reference_price.digits (pos 0))
      "reference_price must be a finite positive float"
  raise_if (not (within_unit d.confidence)) "confidence must be a finite float between 0 and 1"
  raise_if (is_blank d.reason) "reason must not be empty"
