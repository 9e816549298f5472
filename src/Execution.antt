-- ===== src/Execution.antt =====
-- services/core-lib/core_lib/execution: matching orders and protections against candles, the
-- position book, and the accounting identity.
pub mod Trigger
pub mod Pricing
pub mod Affordable
pub mod Matcher
pub mod Normalizer
pub mod Protection
pub mod Book
pub mod Accounting
