-- ===== src/Costs/Model.antt =====
-- services/core-lib/core_lib/ports/cost_model.py: what an injected cost model answers.
use trading_system_v.Prelude.{ℕ, String, Bool, Option}
use trading_system_v.Prelude.Int.{ℤ}
use trading_system_v.Prelude.Result.{Result}
use trading_system_v.Money.{Rate}
use trading_system_v.Types.Order.{Order}

-- The context dictionary that execution/matcher.py hands to `slippage`.
pub record Context : Type 0 where
  pub gap_filled : Bool
  pub reference_price : ℤ

-- `liq_params` has the one entry that is read, maintenance_margin_rate, when it has it.
pub record CostModel : Type 0 where
  pub fee : String → ℤ → Result Rate
  pub slippage : Order → Context → Result Rate
  pub funding_rate : ℕ → Rate
  pub maintenance_margin_rate : Option Rate
