-- ===== src/Examples.antt =====
-- The properties at concrete inputs.
mod Data
mod Types
mod Costs
mod Execution
mod Protection
mod Book
mod Eval
mod Candles
mod Engine
mod Open
