-- ===== src/Examples/Candles.antt =====
-- The properties of the resampling of candles at concrete inputs.
use trading_system_v.Prelude.{ℕ, some, none, List, [], ◌∷◌, ◌≡◌, ◌↔◌, refl, ◌-◌, ◌+◌, ◌/◌, ◌⊎◌}
use trading_system_v.Prelude.Int.{ℤ, pos}
use trading_system_v.Prelude.Result.{ok}
use trading_system_v.Money.{Float}
use trading_system_v.Types.Timeframe.{parse_timeframe, parse_rest, duration}
use trading_system_v.Types.Candle.{validate, Candle}
use trading_system_v.Money.{ten_pow}
use trading_system_v.Prelude.Int.{◌*ℤ◌, ◌+ℤ◌}
use trading_system_v.Prelude.Sort.{sort, insert}
use trading_system_v.Candles.{
  Groups, Target, timeframe_duration, group_rows, add_row, bucket_start, from_first, first_bucket,
  bucket_loop, is_complete, rows_at, expected_times, build_candle, highest, lowest, last_close,
  optional_sum, volume_sum, ResampledCandles, resample_confirmed_ohlcv, Row,
}
use trading_system_v.Candles.Build.{build_candle-IsSummary, IsSummary}
use trading_system_v.Candles.Resampling.{
  resample_total, resample-IsResampled, NoneEnded, IsFirst, latest_before, IsResampled, target_of,
}
use trading_system_v.Candles.Grouping.{group_rows_iff, IsDistinct}
use trading_system_v.Candles.Loop.{total}

abbrev units : ℤ → Float
units x = record { digits = x; places = 8 }

abbrev row : ℕ → ℤ → Row
row time price = record {
  time = time;
  opening = price;
  high = price;
  low = price;
  close = price;
  volume = pos 100000000;
  quote_volume = none;
  trade_count = some (pos 3);
}

-- Minutes 0, 1, 2, 4 and 5.
abbrev rows : List Row
rows =
    row 0 (pos 100)
    ∷ row 60000000 (pos 110)
    ∷ row 120000000 (pos 120)
    ∷ row 300000000 (pos 90)
    ∷ row 240000000 (pos 80)
    ∷ []

-- The bucket of minute 2 is short of a row.
two_minutes :
    (m : ResampledCandles) × (resample_confirmed_ohlcv units rows "BTCUSDT" "binance" "2m" 360000000
      ≡ ok m)
unfolding resample_confirmed_ohlcv timeframe_duration parse_timeframe parse_rest group_rows add_row
    bucket_start duration from_first first_bucket bucket_loop is_complete rows_at expected_times
    build_candle sort insert validate highest lowest last_close optional_sum volume_sum ten_pow ◌*ℤ◌
    ◌+ℤ◌
two_minutes = (_, refl)

resample_total_example :
    (d : ℕ) × (timeframe_duration "2m" ≡ ok d)
    × (((total two_minutes.0 ≡ 0) × NoneEnded rows d 360000000)
        ⊎ ((first : ℕ) × IsFirst rows d first
            × (total two_minutes.0 ≡ (latest_before 360000000 d + d - first) / d)))
resample_total_example =
    resample_total units rows "BTCUSDT" "binance" "2m" 360000000 two_minutes.0 two_minutes.1

resample-IsResampled_example :
    (d : ℕ) × (timeframe_duration "2m" ≡ ok d)
    × IsResampled units rows
        (target_of "BTCUSDT" "binance" "2m" d)
        360000000
        0
        two_minutes.0.candles
resample-IsResampled_example =
    resample-IsResampled units rows "BTCUSDT" "binance" "2m" 360000000 two_minutes.0 two_minutes.1

group_rows_iff_example : ((h : Groups) × (group_rows 120000000 rows [] ≡ ok h)) ↔ IsDistinct rows
group_rows_iff_example = group_rows_iff 120000000 rows

abbrev two_minute : Target
two_minute = record {
  symbol = "BTCUSDT";
  exchange = "binance";
  timeframe = "2m";
  length = 120000000;
}

abbrev first_rows : List Row
first_rows = row 0 (pos 100) ∷ row 60000000 (pos 110) ∷ []

first_candle : (c : Candle) × (build_candle units two_minute 0 first_rows ≡ ok c)
unfolding timeframe_duration parse_timeframe parse_rest duration build_candle validate highest
    lowest last_close optional_sum volume_sum ten_pow ◌*ℤ◌ ◌+ℤ◌
first_candle = (_, refl)

build_candle-IsSummary_example : IsSummary units two_minute 0 first_rows first_candle.0
build_candle-IsSummary_example =
    build_candle-IsSummary units two_minute 0 first_rows first_candle.0 first_candle.1
