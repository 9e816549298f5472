-- ===== src/Lib.antt =====
-- A model of the core of the trading system, services/core-lib/core_lib: the money arithmetic, the
-- value types, the costs, the execution of orders and the resampling of candles, and of the accounts
-- of the backtest engine that runs on them, with what makes them correct. The engine hands an order
-- and candles to `match`, a position and candles to `resolve_triggers`, the fills to the position
-- book, and keeps the cash, the trades and the pending orders itself.
--
-- Prelude: the names that all modules share, signed integers over native naturals (Int), errors as
-- values (Result), methods that mutate an object and may raise (Exec), a stable sort (Sort).
-- Money: core_lib/types/money.py and `to_decimal` of core_lib/execution/normalizer.py.
-- Types: core_lib/types. Enums, Order (order.py; Order/Methods has `_transition_to` and the methods
-- that mark an order, and `can_transition` of core_lib/execution/order_lifecycle.py), Position
-- (position.py), Fill (fill.py), Trade (trade.py), Candle and Timeframe (candle.py),
-- Signal (signal.py and decision.py). A dataclass is a
-- record, `__post_init__` is `post_init`, and each method has its name.
-- Costs: core_lib/costs. Fee, Slippage, Funding and Liquidation have the names of the source, and
-- Model is the protocol of core_lib/ports/cost_model.py, a record of functions.
-- Execution: core_lib/execution. Trigger (`_execution_candle`, `_trigger_reference`), Pricing
-- (`_execution_price`, `_fill`), Affordable (`_entry_cash_requirement`, `_affordable_entry_quantity`),
-- Matcher (`recompute_qty_and_stop`, `match`) and Protection (`resolve_triggers`, `liquidation_fill`)
-- are parts of matcher.py; Book is position_book.py, Accounting accounting.py, and Normalizer
-- `normalize_order` of normalizer.py with the `OrderRequest` of order.py.
-- Eval: core_lib/eval, the gates that a strategy's metrics pass. Gate is thresholds.py, profile.py and
-- hard_gate.py, Decision decision.py and Integrity integrity.py.
-- Candles: core_lib/candles.py. `_bucket_start` is bucket_start, the dict of dicts is `Groups`, the
-- loop over the rows group_rows and the loop over the buckets bucket_loop.
-- Sizing: core_lib/sizing, risk_money.py, wallet_pct.py, turtle_unit.py and the limit of
-- exposure_limit.py that the engine asks for.
-- Engine: services/backtest-service/backtest_service/engine/engine.py. Its state is the record Engine;
-- Trades is `_complete_trade`, Fills `_apply_fill`, Funding `_settle_at_boundary` and `_funding_price`,
-- Signals `_derive_intent`, `_size` and the two requests, Handler `_handle_signal` and `_next_candle`,
-- Marks `_mark_grid`, `_record_terminal_equity` and `_track_excursions`, Open `step_open`,
-- `walk_triggers` and `_risk_budget` with the `configure_execution` and `submit` of adapters/broker.py,
-- and Closing `_close_at_data_gap` and the last exit of `finalize`. Charged, Liquidated and Settled hold
-- what a settlement comes to, and Open/Moves and Open/Advance what the open of a bar does to the
-- accounts. A trigger feed other than tf_candle is refused where the engine refuses it.
-- A module's children hold its theorems; Examples applies them to concrete orders and candles.
--
-- How the code is read:
-- A Decimal price or amount is the integer that counts its units of 0.00000001, so quantize_price
-- and quantize_amount leave a field alone. A product or a quotient is an exact fraction that is
-- quantized once, half-even; the rounding of the 28 digits of the decimal context itself, which
-- exact values below 10^28 do not meet, is not modelled. A rate is an exact fraction.
-- A float is the decimal that `str` prints of it; infinities and NaN are left out, but for the metrics
-- (Eval/Number). The edges of an envelope are float sums, which are parameters. A date is a
-- number of microseconds of UTC; dates without a zone, which the code refuses, are left out.
-- Tests on the type of an argument are its type here. An id is its text. uuid5 is a parameter.
-- An exception is its class and message, without the values that the message shows.
-- A method of an order or a position returns the object beside its result, so that what was written
-- before a raise stays; `fill` and `match` return the order only when they return a fill.
-- The cost model is an argument; where a property asks for one fee rate, that is a hypothesis.
--
-- The record Environment of Engine holds what the engine calls and is not written here: the `float` of
-- a Decimal, uuid5, the feed of funding rates, and the arithmetic of binary floats, which sizes an
-- entry. The evidence is the list of the records that the sink was handed, with the values of the
-- accounts; their names and descriptions, and the indicator values, are left out.
--
-- Loops: the search for an affordable quantity has fuel for the length of its range, and the loop over
-- days fuel for the days since the epoch; both are shown to be enough. The loop over buckets has a
-- round for each microsecond up to the last bucket, which is shown to count every bucket. The 32 rounds of `converge`
-- are the source's own. The other loops are over lists.
--
-- Not modelled: the indicators and patterns, which compute with floats over arrays; the set-up
-- of the engine, its loop over candles and its reports, the strategies, the formulas of the metrics
-- and the services, which are clients of these parts; storage, HTTP, the
-- web application and the vendored TA-Lib.
pub mod Prelude
pub mod Money
pub mod Types
pub mod Costs
pub mod Execution
pub mod Candles
pub mod Sizing
pub mod Engine
pub mod Eval
pub mod Examples
