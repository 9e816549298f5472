-- ===== src/Eval.antt =====
-- services/core-lib/core_lib/eval: the gates that a strategy's metrics pass, and the final decision.
pub mod Number
pub mod Gate
pub mod Decision
pub mod Integrity
