-- ===== src/Engine/Trades.antt =====
-- engine.py: `_complete_trade`, the trade that an exit completes and what is recorded of it.
use trading_system_v.Prelude.{
  ℕ, ◌-◌, ◌/◌, Bool, true, false, if◌then◌else◌, Option, none, some, List, [], ◌∷◌, leb,
}
use mathlib.Core.List.{◌++◌}
use trading_system_v.Prelude.Int.{ℤ, pos, neg, ◌-ℤ◌, ◌*ℤ◌, eqb_ℤ, pos_part}
use trading_system_v.Prelude.Result.{ok, err, arithmetic_error}
use trading_system_v.Prelude.Exec.{Exec, ◌>>=◌, ◌>>◌, check, modify}
use trading_system_v.Money.{quantize, mul_units}
use trading_system_v.Types.Enums.{ExitReason, liquidation, signal_exit, is_long}
use trading_system_v.Types.Fill.{Fill}
use trading_system_v.Types.Trade
use trading_system_v.Types.Trade.{Trade}
use trading_system_v.Engine.{
  RunConfig, EvidenceRecord, trade_record, realized_candidate, feature_snapshot, Phase, entry_phase,
  exit_phase, mae_phase, mfe_phase, ActiveTrade, Engine, record_evidence, next_tfs, leverage_of,
}

-- gross, at the reference prices of the entry and the exit.
unfoldable pub gross_pnl : ActiveTrade → Fill → ℤ
gross_pnl a exit_fill =
    let entry = a.entry_fill in
    mul_units
      (if is_long entry.position_side
        then exit_fill.reference_price -ℤ entry.reference_price
        else entry.reference_price -ℤ exit_fill.reference_price)
      exit_fill.quantity

abbrev pub reason_or_signal : Option ExitReason → ExitReason
reason_or_signal none = signal_exit
reason_or_signal (some r) = r

abbrev is_liquidation : ExitReason → Bool
is_liquidation liquidation = true
is_liquidation _ = false

-- `int((exit - entry).total_seconds())`, which drops the part of a second.
abbrev pub seconds_between : ℕ → ℕ → ℤ
seconds_between start end =
    if leb start end then pos ((end - start) / 1000000) else neg (pos ((start - end) / 1000000))

-- net / basis * 100 in hundredths of a percent.
abbrev pub percent_of : ℤ → ℤ → ℤ
percent_of net basis = quantize (net *ℤ pos 10000) (pos_part basis)

abbrev pub closed_trade : RunConfig → ActiveTrade → Fill → Trade
closed_trade config a exit_fill =
    let entry = a.entry_fill in
    let gross = gross_pnl a exit_fill in
    let net = gross -ℤ a.total_fee -ℤ a.slippage -ℤ a.funding -ℤ pos 0 in
    let reason = reason_or_signal exit_fill.exit_reason in
    record {
      source_type = "backtest";
      symbol = exit_fill.symbol;
      side = entry.side;
      market_type = config.market_type;
      entry_price = entry.reference_price;
      entry_quantity = entry.quantity;
      entry_time = entry.timestamp;
      exit_price = exit_fill.reference_price;
      exit_quantity = exit_fill.quantity;
      exit_time = exit_fill.timestamp;
      exit_reason = reason;
      gross_pnl = gross;
      total_fee = a.total_fee;
      slippage = a.slippage;
      funding_cost = a.funding;
      liquidation_penalty = pos 0;
      net_pnl = net;
      return_pct = percent_of net (mul_units entry.reference_price entry.quantity);
      r0 = a.r0;
      leverage = leverage_of (some a.signal);
      liquidated = is_liquidation reason;
      wallet_id = none;
      backtest_run_id = some config.run_id;
      strategy_id = config.strategy_id;
      strategy_name = config.strategy_name;
      hold_duration_seconds = seconds_between entry.timestamp exit_fill.timestamp;
      signal_confidence = a.signal.confidence;
      reason = a.signal.reason;
    }

abbrev record_all : List EvidenceRecord → Engine → Engine
record_all rs e = record e { evidence = e.evidence ++ rs }

abbrev time_or : Option ℕ → ℕ → ℕ
time_or none default = default
time_or (some t) default = t

-- One TRADE_FEATURE_SNAPSHOT.
unfoldable pub snapshot : ℕ → Phase → ℕ → Option ℤ → Engine → Engine
snapshot trade_id phase ts excursion e =
    let (n, e') = next_tfs e in record_evidence (feature_snapshot n trade_id phase ts excursion) e'

abbrev realized : ActiveTrade → List EvidenceRecord
realized a = elim a.candidate_id [
  | none ↦ []
  | some c ↦ realized_candidate c a.trade_id a.entry_fill.quantity ∷ []
]

-- What `_complete_trade` hands to the evidence sink.
unfoldable pub complete_records : ActiveTrade → Fill → ℕ → Trade → Engine → Engine
unfolding snapshot
complete_records a exit_fill exit_execution_id trade e =
    let entered = a.entry_fill.timestamp in
    let recorded = record_all (realized a) (
      record_all a.funding_records (
        record_all a.position_records (
          record_evidence (trade_record a.trade_id a.entry_execution_id exit_execution_id trade)
            e))) in
    snapshot a.trade_id mfe_phase (time_or a.mfe_ts entered) a.mfe_r (
      snapshot a.trade_id mae_phase (time_or a.mae_ts entered) a.mae_r (
        snapshot a.trade_id exit_phase exit_fill.timestamp none
          (snapshot a.trade_id entry_phase entered none recorded)))

-- `_complete_trade`; a notional that rounds to zero ends in a division by it.
unfoldable pub complete_trade : RunConfig → ActiveTrade → Fill → ℕ → Exec Engine (Unit {0})
unfolding complete_records
complete_trade config a exit_fill exit_execution_id = do
  check (λ _.
      if eqb_ℤ (mul_units a.entry_fill.reference_price a.entry_fill.quantity) (pos 0)
      then err (arithmetic_error "division by zero")
      else ok tt)
  trade ← check (λ _. Trade.post_init (closed_trade config a exit_fill))
  modify (λ e. record e { trades = e.trades ++ trade ∷ [] })
  modify (complete_records a exit_fill exit_execution_id trade)
