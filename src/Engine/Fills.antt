-- ===== src/Engine/Fills.antt =====
-- engine.py: `_apply_fill` and `_complete_trade`, the accounts of a fill.
use trading_system_v.Engine.Trades.{complete_trade}
use trading_system_v.Prelude.{ℕ, String, not, if◌then◌else◌, Option, none, some, []}
use trading_system_v.Prelude.Int.{ℤ, pos, ◌+ℤ◌, ◌-ℤ◌, abs, ltb_ℤ, leb_ℤ, eqb_ℤ}
use trading_system_v.Prelude.Result.{
  Result, ok, err, value_error, type_error, assertion_error, runtime_error, arithmetic_error,
}
use trading_system_v.Prelude.Result
use trading_system_v.Prelude.Exec.{Exec, ◌>>=◌, ◌>>◌, check, modify}
use trading_system_v.Money.{Float, quantize, mul_units, to_decimal}
use trading_system_v.Types.Enums.{
  MarketType, futures, spot, isolated, ExitReason, liquidation, is_long,
}
use trading_system_v.Types.Position.{Position, released_margin}
use trading_system_v.Types.Fill.{Fill}
use trading_system_v.Types.Signal.{TradingSignal}
use trading_system_v.Costs.Model.{CostModel}
use trading_system_v.Costs.Liquidation
use trading_system_v.Execution.Book
use trading_system_v.Execution.Book.{Opening}
use trading_system_v.Engine.{
  RunConfig, execution, ActiveTrade, Engine, record_evidence, next_execution, next_trade,
  checked_cash, current_position, leverage_of, maintenance_margin_rate, on_book,
}

-- The margin that a notional takes: a leveraged part of it, or all of it on the spot market.
abbrev pub margin_for : MarketType → ℕ → ℤ → ℤ
margin_for futures leverage notional = quantize notional leverage
margin_for spot leverage notional = notional

-- The cash after an entry, as it is projected before the book changes.
unfoldable pub projected_entry_cash : RunConfig → Fill → ℕ → ℤ → Result ℤ
projected_entry_cash config fill leverage cash =
    let added_margin =
      margin_for config.market_type leverage (mul_units fill.price fill.quantity) in
    let projected = cash -ℤ added_margin -ℤ fill.fee in
    if ltb_ℤ projected (pos 0)
    then err (value_error "entry margin plus fee exceeds available cash after truncation")
    else ok projected

abbrev pub margin_of : Option Position → ℤ
margin_of none = pos 0
margin_of (some p) = p.margin

-- `_next("execution")` and the EXECUTION record.
unfoldable pub record_execution : Option ℕ → Fill → Exec Engine ℕ
record_execution decision_id fill e =
    let (n, e') = next_execution e in (ok n, record_evidence (execution n decision_id fill) e')

unfoldable pub entry_liquidation : RunConfig → CostModel → Fill → ℕ → MarketType → Result ℤ
entry_liquidation config model fill leverage futures =
    Result.◌>>=◌ (maintenance_margin_rate model)
      (λ mmr. Liquidation.price fill.price leverage mmr fill.position_side)
entry_liquidation config model fill leverage spot = ok (pos 0)

abbrev stop_price_of : Option Float → Option ℤ
stop_price_of none = none
stop_price_of (some x) = some (to_decimal x)

-- The initial risk of an entry: the distance to its stop, times the quantity.
abbrev pub initial_risk : Fill → TradingSignal → Option ℤ
initial_risk fill signal = elim signal.stop_loss [
  | none ↦ none
  | some s ↦ some (mul_units (abs (fill.reference_price -ℤ to_decimal s)) fill.quantity)
]

abbrev pub opened_trade : ℕ → ℕ → Fill → TradingSignal → Option ℕ → ActiveTrade
opened_trade trade_id execution_id fill signal candidate_id = record {
  trade_id = trade_id;
  entry_execution_id = execution_id;
  entry_fill = fill;
  signal = signal;
  r0 = initial_risk fill signal;
  candidate_id = candidate_id;
  total_fee = fill.fee;
  slippage = fill.slippage;
  funding = pos 0;
  position_records = [];
  funding_records = [];
  settled_boundaries = [];
  mae_ts = none;
  mfe_ts = none;
  mae_r = none;
  mfe_r = none;
  mae_pnl = none;
  mfe_pnl = none;
}

-- The costs of a further fill of the trade.
abbrev pub with_costs : Fill → ActiveTrade → ActiveTrade
with_costs fill a = record a {
  total_fee = a.total_fee +ℤ fill.fee;
  slippage = a.slippage +ℤ fill.slippage;
}

-- The first fill of a trade opens it, and sets the levels that protect it.
unfoldable pub start_trade : ℕ → Fill → TradingSignal → Option ℕ → Engine → Engine
start_trade execution_id fill signal candidate_id e =
    let (n, e') = next_trade e in
    record e' {
      active_trade = some (opened_trade n execution_id fill signal candidate_id);
      stop_price = stop_price_of signal.stop_loss;
      take_profit_price = stop_price_of signal.take_profit;
    }

-- The trade of an entry: a new one, which needs the signal, or the one that is active.
unfoldable pub enter_trade : ℕ → Fill → Option TradingSignal → Option ℕ → Exec Engine (Unit {0})
unfolding start_trade
enter_trade execution_id fill signal candidate_id e = elim e.active_trade [
  | some a ↦ (ok tt, record e { active_trade = some (with_costs fill a) })
  | none ↦ elim signal [
    | none ↦ (err (value_error "entry fills require their originating signal"), e)
    | some s ↦ (ok tt, start_trade execution_id fill s candidate_id e)
  ]
]

-- The terms of an entry.
abbrev pub opening : RunConfig → ℕ → ℤ → Opening
opening config leverage level = record {
  leverage = some leverage;
  margin_type = some isolated;
  market_type = config.market_type;
  liquidation_price = level;
}

unfoldable pub held_position : String → Option Position → Result Position
held_position message none = err (assertion_error message)
held_position message (some p) = ok p

-- The entry branch of `_apply_fill`, after the execution is recorded.
unfoldable pub apply_entry :
    RunConfig
    → CostModel
    → Fill
    → Option TradingSignal
    → Option ℕ
    → ℤ
    → ℤ
    → ℕ
    → Exec Engine (Unit {0})
unfolding entry_liquidation held_position
apply_entry config model fill signal candidate_id before_margin projected execution_id = do
  let leverage = leverage_of signal
  level ← check (λ _. entry_liquidation config model fill leverage config.market_type)
  on_book (Book.apply fill (opening config leverage level))
  after ← check (current_position config)
  p ← check (λ _. held_position "" after)
  actual ← check (λ e. ok (e.cash -ℤ (p.margin -ℤ before_margin) -ℤ fill.fee))
  check (λ _.
      if not (eqb_ℤ actual projected)
      then err (runtime_error "entry cash projection diverged from position accounting")
      else ok tt)
  cash ← check (λ _. checked_cash actual "entry fill")
  modify (λ e. record e { cash = cash })
  enter_trade execution_id fill signal candidate_id

-- The realized PnL at the price of the exit.
unfoldable pub actual_pnl : Position → Fill → ℤ
actual_pnl p fill =
    mul_units (if is_long p.side then fill.price -ℤ p.entry_price else p.entry_price -ℤ fill.price)
      fill.quantity

abbrev pub exit_context : Option ExitReason → String
exit_context (some liquidation) = "liquidation exit"
exit_context _ = "position exit"

abbrev pub no_levels : Engine → Engine
no_levels e = record e { active_trade = none; stop_price = none; take_profit_price = none }

-- The trade after an exit: it is complete once no position is left.
unfoldable pub leave_trade :
    RunConfig → ActiveTrade → Fill → ℕ → Option Position → Exec Engine (Unit {0})
leave_trade config a fill execution_id (some p) e = (ok tt, e)
leave_trade config a fill execution_id none e =
    (complete_trade config a fill execution_id >> modify no_levels) e

abbrev pub no_terms : Opening
no_terms = record {
  leverage = none;
  margin_type = none;
  market_type = futures;
  liquidation_price = pos 0;
}

-- The reduce-only branch of `_apply_fill`, with the position and the trade that it is for.
unfoldable pub apply_exit : RunConfig → Fill → ℕ → Position → ActiveTrade → Exec Engine (Unit {0})
apply_exit config fill execution_id before a = do
  check (λ _.
      if leb_ℤ before.quantity (pos 0) then err (arithmetic_error "division by zero") else ok tt)
  let released = released_margin before fill.quantity
  let pnl = actual_pnl before fill
  cash ←
      check
        (λ e. checked_cash (e.cash +ℤ released +ℤ pnl -ℤ fill.fee) (exit_context fill.exit_reason))
  on_book (Book.apply fill no_terms)
  modify (λ e. record e { cash = cash; active_trade = some (with_costs fill a) })
  after ← check (current_position config)
  leave_trade config (with_costs fill a) fill execution_id after

unfoldable pub exit_of_both :
    RunConfig → Fill → ℕ → Option Position → Option ActiveTrade → Exec Engine (Unit {0})
exit_of_both config fill execution_id (some before) (some a) e =
    apply_exit config fill execution_id before a e
exit_of_both config fill execution_id _ _ e =
    (err (value_error "reduce-only fill requires an active position and trade"), e)

-- `_apply_fill`.
unfoldable pub apply_fill :
    RunConfig
    → CostModel
    → Fill
    → Option ℕ
    → Option TradingSignal
    → Option ℕ
    → Exec Engine (Unit {0})
unfolding exit_of_both
apply_fill config model fill decision_id signal candidate_id = do
  before ← check (current_position config)
  (if fill.reduce_only
      then (do
        n ← record_execution decision_id fill
        λ e. exit_of_both config fill n before e.active_trade e)
      else (do
        projected ← check (λ e. projected_entry_cash config fill (leverage_of signal) e.cash)
        n ← record_execution decision_id fill
        apply_entry config model fill signal candidate_id (margin_of before) projected n))
