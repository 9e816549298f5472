-- ===== src/Types.antt =====
-- services/core-lib/core_lib/types: the enums, and the record types of the modules below.
pub mod Enums
pub mod Order
pub mod Position
pub mod Fill
pub mod Trade
pub mod Timeframe
pub mod Candle
pub mod Signal
