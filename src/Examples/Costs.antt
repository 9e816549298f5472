-- ===== src/Examples/Costs.antt =====
-- The properties of the costs at concrete inputs.
use trading_system_v.Prelude.{false, ℕ, List, ◌≡◌, ◌&&◌, refl, arith, ltb, leb}
use trading_system_v.Prelude.Int.{ℤ, pos, ◌*ℤ◌, ◌≤ℤ◌}
use trading_system_v.Prelude.Result.{ok}
use trading_system_v.Money.{mul_rate, quantize}
use trading_system_v.Money.Half.{round_half_even}
use trading_system_v.Types.Enums.{buy, long, short}
use trading_system_v.Costs.Slippage
use trading_system_v.Costs.Slippage.{IsAdverse, apply-IsAdverse}
use trading_system_v.Costs.Funding.{is_boundary, boundaries_between, elem, boundaries_between_lem}
use trading_system_v.Costs.Liquidation.{price}
use trading_system_v.Costs.Liquidation.Levels.{price_sides}
use trading_system_v.Examples.Data.{new_order, taker_model, maintenance}

small_slippage :
    Slippage.apply
      (pos 20000000000)
      buy
      taker_model
      new_order
      (record { gap_filled = false; reference_price = pos 10000000000 })
    ≡ ok (pos 10000000)
unfolding Slippage.apply mul_rate quantize round_half_even ◌*ℤ◌
small_slippage = refl

apply-IsAdverse_example : IsAdverse buy (pos 10000000)
apply-IsAdverse_example =
    apply-IsAdverse (pos 20000000000) buy taker_model new_order
      (record { gap_filled = false; reference_price = pos 10000000000 }) (pos 10000000)
      small_slippage

boundaries_between_lem_example :
    (bs : List ℕ) × (boundaries_between 0 57600000001 ≡ ok bs)
    × ((t : ℕ) → elem t bs ≡ (ltb 0 t && (leb t 57600000001 && is_boundary t)))
boundaries_between_lem_example = boundaries_between_lem 0 57600000001 (omega arith)

price_sides_example :
    (l s : ℤ) × (price (pos 10000000000) 10 maintenance long ≡ ok l)
    × (price (pos 10000000000) 10 maintenance short ≡ ok s)
    × (l ≤ℤ pos 10000000000)
    × (pos 10000000000 ≤ℤ s)
unfolding ◌*ℤ◌
price_sides_example =
    price_sides (pos 10000000000) 10 maintenance (omega arith) (omega arith) (omega arith)
      (omega arith) (omega arith)
