-- ===== src/Types/Candle.antt =====
-- services/core-lib/core_lib/types/candle.py. Times count microseconds of UTC.
use trading_system_v.Prelude.{ℕ, String, ◌+◌, Bool, false, not, ◌||◌, Option, none, some, ◌==◌}
use trading_system_v.Prelude.Int.{ℤ, pos, ltb_ℤ, leb_ℤ}
use trading_system_v.Prelude.Result.{Result, ok, ◌>>=◌, ◌>>◌, raise_if, err, value_error}
use trading_system_v.Money.{Float, ltb_float}
use trading_system_v.Types.Timeframe.{Timeframe, parse_timeframe, duration}

pub record Candle : Type 0 where
  pub symbol : String
  pub exchange : String
  pub timeframe : String
  pub open_time : ℕ
  pub close_time : ℕ
  pub opening : Float
  pub high : Float
  pub low : Float
  pub close : Float
  pub volume : Float
  pub quote_volume : Option Float
  pub trade_count : Option ℤ

abbrev non_positive : Float → Bool
non_positive x = leb_ℤ x.digits (pos 0)

abbrev negative : Float → Bool
negative x = ltb_ℤ x.digits (pos 0)

abbrev some_and {ℓ} : {A : Type ℓ} → (A → Bool) → Option A → Bool
some_and p none = false
some_and p (some x) = p x

abbrev pub matched : Option Timeframe → Result Timeframe
matched none = err (value_error "unsupported timeframe")
matched (some t) = ok t

-- `validate`; `high < max(open, close)` is that it is below one of them.
unfoldable pub validate : Candle → Result (Unit {0})
validate c = do
  t ← matched (parse_timeframe c.timeframe)
  raise_if (not (c.close_time == c.open_time + duration t))
      "close_time must equal open_time + timeframe"
  raise_if
      (non_positive c.opening
        || (non_positive c.high || (non_positive c.low || non_positive c.close)))
      "all candle prices must be positive"
  raise_if (ltb_float c.high c.opening || ltb_float c.high c.close)
      "high must be at least max(open, close)"
  raise_if (ltb_float c.opening c.low || ltb_float c.close c.low)
      "low must be at most min(open, close)"
  raise_if (negative c.volume) "volume must be non-negative"
  raise_if (some_and negative c.quote_volume) "quote_volume must be non-negative"
  raise_if (some_and (λ n. ltb_ℤ n (pos 0)) c.trade_count) "trade_count must be non-negative"
