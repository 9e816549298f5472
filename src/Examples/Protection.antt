-- ===== src/Examples/Protection.antt =====
-- The properties of exits at concrete inputs.
use trading_system_v.Prelude.{
  arith, inl, ℕ, String, some, none, [], ◌∷◌, ◌≡◌, ◌↔◌, ◌≢◌, refl, true, false, if◌then◌else◌,
}
use trading_system_v.Prelude.Int.{pos, ◌*ℤ◌, ◌+ℤ◌, neg}
use trading_system_v.Prelude.Sort.{sort, insert}
use trading_system_v.Prelude.Result.{ok}
use trading_system_v.Money.{quantize, mul_units, mul_rate, to_decimal, ten_pow}
use trading_system_v.Money.Half.{round_half_even}
use trading_system_v.Types.Enums.{
  long, both, ExitReason, stop_loss, take_profit, liquidation, is_long,
}
use trading_system_v.Types.Order
use trading_system_v.Types.Order.Methods.{mark_as_filled}
use trading_system_v.Types.Fill
use trading_system_v.Types.Fill.{Fill}
use trading_system_v.Costs.Fee
use trading_system_v.Costs.Slippage
use trading_system_v.Costs.Liquidation.{is_triggered}
use trading_system_v.Execution.Pricing.{execution_price, fill, cumulative_average}
use trading_system_v.Execution.Protection.{
  hits, choose, protection_reference, exit_of, liquidation_level, liquidation_position,
  resolve_candles, resolve_triggers, synthetic_exit_order, exit_at,
}
use trading_system_v.Execution.Protection.Precedence.{
  Reaches, NoBetterExit, chosen, StopIsHit, LiquidatesFirst, IsBeyond, choose_stop_iff,
  choose_liquidation_iff, choose_target_iff,
}
use trading_system_v.Execution.Protection.Exits.{
  FirstExit, AllPass, sorted_candles, resolve_none_iff, resolve_some_lem,
}
use trading_system_v.Examples.Data.{long_position, taker_model, first_bar, second_bar}

choose_stop_iff_example :
    (chosen long (pos 96) (pos 104) (pos 90) false (some (pos 98)) (some (pos 103))
      ≡ some (stop_loss, pos 98))
    ↔ ((some (pos 98) ≡ some (pos 98))
        × Reaches long (pos 96) (pos 104) (pos 98)
        × (false ≡ true → IsBeyond long (pos 90) (pos 98) → ⊥))
choose_stop_iff_example =
    choose_stop_iff long (pos 96) (pos 104) (pos 90) false (some (pos 98)) (some (pos 103)) (pos 98)

choose_liquidation_iff_example :
    (chosen long (pos 85) (pos 104) (pos 90) true (some (pos 88)) none ≡ some (liquidation, pos 90))
    ↔ ((pos 90 ≡ pos 90)
        × (true ≡ true)
        × LiquidatesFirst long (pos 85) (pos 104) (pos 90) (some (pos 88)))
choose_liquidation_iff_example =
    choose_liquidation_iff long (pos 85) (pos 104) (pos 90) true (some (pos 88)) none (pos 90)

choose_target_iff_example :
    (chosen long (pos 96) (pos 104) (pos 90) false (some (pos 95)) (some (pos 103))
      ≡ some (take_profit, pos 103))
    ↔ ((some (pos 103) ≡ some (pos 103))
        × NoBetterExit long (if is_long long then pos 104 else pos 96) (pos 103)
        × (false ≡ false)
        × (StopIsHit long (pos 96) (pos 104) (some (pos 95)) → ⊥))
choose_target_iff_example =
    choose_target_iff long (pos 96) (pos 104) (pos 90) false (some (pos 95)) (some (pos 103))
      (pos 103)

abbrev fixed_id : String → ℕ → ExitReason → String
fixed_id symbol time reason = symbol

long_is_directed : long_position.side ≢ both
long_is_directed h = cc

-- The first bar opened at the entry, and goes down to 96, below the stop at 97.
resolve_none_iff_example :
    (resolve_triggers fixed_id long_position
        (first_bar ∷ [])
        taker_model
        (some (pos 9700000000))
        none
        (some 0)
      ≡ ok none)
    ↔ AllPass fixed_id long_position taker_model
        (some (pos 9700000000))
        none
        (some 0)
        (sorted_candles (first_bar ∷ []))
resolve_none_iff_example =
    resolve_none_iff fixed_id long_position taker_model (some (pos 9700000000)) none (some 0)
      (first_bar ∷ []) long_is_directed

-- So it is skipped.
first_bar_skipped :
    resolve_triggers fixed_id long_position
      (first_bar ∷ [])
      taker_model
      (some (pos 9700000000))
      none
      (some 0)
    ≡ ok none
unfolding sort
first_bar_skipped =
    (resolve_none_iff fixed_id long_position taker_model (some (pos 9700000000)) none (some 0)
        (first_bar ∷ []) long_is_directed).1
      (inl (omega arith), tt)

stopped :
    (f : Fill) × (resolve_triggers fixed_id long_position
        (second_bar ∷ first_bar ∷ [])
        taker_model
        (some (pos 9700000000))
        none
        (some 0)
      ≡ ok (some f))
unfolding resolve_triggers resolve_candles exit_of liquidation_level liquidation_position
    is_triggered hits choose exit_at protection_reference synthetic_exit_order sort insert
    to_decimal ten_pow execution_price Order.post_init ◌+ℤ◌ Slippage.apply mul_units quantize ◌*ℤ◌
    round_half_even mul_rate Fee.calc fill mark_as_filled cumulative_average Fill.post_init neg
stopped = (_, refl)

resolve_some_lem_example :
    FirstExit fixed_id long_position taker_model
      (some (pos 9700000000))
      none
      (some 0)
      (sorted_candles (second_bar ∷ first_bar ∷ []))
      stopped.0
resolve_some_lem_example =
    resolve_some_lem fixed_id long_position taker_model (some (pos 9700000000)) none (some 0)
      (second_bar ∷ first_bar ∷ []) stopped.0 long_is_directed stopped.1
