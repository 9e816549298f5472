-- ===== src/Costs.antt =====
-- services/core-lib/core_lib/costs: the fee, slippage, funding and liquidation formulas, and the
-- port ports/cost_model.py that injects the rates.
pub mod Model
pub mod Fee
pub mod Slippage
pub mod Funding
pub mod Liquidation
