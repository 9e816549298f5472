-- ===== src/Engine.antt =====
-- services/backtest-service/backtest_service/engine/engine.py: the state of a run, its accounts and
-- the records it writes. Times count microseconds of UTC.
pub mod Trades
pub mod Fills
pub mod Entries
pub mod Held
pub mod Exits
pub mod Ledger
pub mod Funding
pub mod Run
pub mod Charged
pub mod Liquidated
pub mod Settled
pub mod Signals
pub mod Handler
pub mod Queue
pub mod Marks
pub mod Pending
pub mod Open
pub mod Closing
use trading_system_v.Prelude.{
  ℕ, suc, ◌*◌, String, Bool, true, false, not, ◌&&◌, ◌||◌, if◌then◌else◌, Option, none, some, List,
  [], ◌∷◌,
}
use trading_system_v.Prelude.Int.{ℤ, pos, ◌+ℤ◌, ◌-ℤ◌, ltb_ℤ, leb_ℤ}
use trading_system_v.Prelude.Result.{
  Result, ok, err, value_error, type_error, assertion_error, ◌>>◌, raise_if,
}
use trading_system_v.Prelude.Result
use trading_system_v.Prelude.Exec.{Exec}
use trading_system_v.Money.{Float, Rate, den, quantize, mul_units}
use Prim.Native.String.{◌++◌}
use mathlib.Core.List
use trading_system_v.Types.Enums.{PositionSide, long, short, MarketType, futures, spot, ExitReason}
use trading_system_v.Types.Position.{Position}
use trading_system_v.Types.Candle.{Candle}
use trading_system_v.Types.Fill.{Fill}
use trading_system_v.Types.Trade.{Trade}
use trading_system_v.Types.Signal.{TradingSignal}
use trading_system_v.Sizing.{FloatArithmetic}
use trading_system_v.Costs.Model.{CostModel}
use trading_system_v.Execution.Book.{Book, get}
use trading_system_v.Execution.Accounting.{recompute}
use trading_system_v.Execution.Normalizer.{OrderRequest}
use trading_system_v.Execution.Trigger.{FillTiming}

-- What the engine is given and calls: Python's `float` of a decimal that counts units, the texts of
-- the two uuid5 calls and of the broker's order ids, the arithmetic of binary floats, and `DataFeed.funding`, which has no rate where it raises LookupError.
pub record Environment : Type 0 where
  pub float_of : ℤ → Float
  pub exit_id : String → ℕ → ExitReason → String
  pub canonical_id : OrderRequest → String
  pub arithmetic : FloatArithmetic
  pub order_text : ℕ → String
  pub feed_funding : String → ℕ → Option Rate

-- `config.sizing_method`.
pub data SizingMethod : Type 0 where
  risk_based pct : SizingMethod

-- What the engine reads of `RunConfig` during the loop, with the run id that the catalog issued and
-- the name of the strategy's class.
-- `trigger_feed`: the feed that triggers are walked on.
pub data TriggerFeed : Type 0 where
  tf_candle m1_subcandle : TriggerFeed

pub record RunConfig : Type 0 where
  pub symbol : String
  pub market_type : MarketType
  pub sizing_method : SizingMethod
  pub risk_per_trade : Option Float
  pub position_size_pct : Option Float
  pub fill_timing : FillTiming
  pub trigger_feed : TriggerFeed
  pub strategy_id : String
  pub strategy_name : String
  pub run_id : String

-- The phases of TRADE_FEATURE_SNAPSHOT.
pub data Phase : Type 0 where
  entry_phase exit_phase mae_phase mfe_phase : Phase

pub data RateSource : Type 0 where
  measured fallback : RateSource

pub data PriceSource : Type 0 where
  boundary_open prev_close : PriceSource

-- `EvidenceRecord`, by its kind, with the values that the accounts make.
pub data EvidenceRecord : Type 0 where
  signal_record : (signal_id decision_ts : ℕ) → TradingSignal → EvidenceRecord
  action_decision :
      (decision_id : ℕ)
      → (signal_id : Option ℕ) → (decision_ts : ℕ) → (action : String) → (side : PositionSide)
      → (quantity : Float) → (planned : Option ℕ) → EvidenceRecord
  skip_decision :
      (decision_id : ℕ)
      → (signal_id : Option ℕ) → (decision_ts : ℕ) → (reason : String) → EvidenceRecord
  blocked_candidate :
      (candidate_id ts : ℕ) → (side : PositionSide) → (blocked_by : String) → EvidenceRecord
  execution : (execution_id : ℕ) → (decision_id : Option ℕ) → Fill → EvidenceRecord
  trade_record : (trade_id entry_execution_id exit_execution_id : ℕ) → Trade → EvidenceRecord
  realized_candidate : (candidate_id trade_id : ℕ) → (quantity : ℤ) → EvidenceRecord
  feature_snapshot :
      (tfs_id trade_id : ℕ) → Phase → (ts : ℕ) → (excursion_r : Option ℤ) → EvidenceRecord
  funding_settlement :
      (settlement_id trade_id settled_at : ℕ)
      → Rate
      → RateSource
      → (settle_price : ℤ) → PriceSource
      → (payment_amount theoretical_payment_amount : ℤ) → EvidenceRecord
  position_record : (position_seq ts : ℕ) → Option Position → (mark : ℤ) → EvidenceRecord
  portfolio_pnl :
      (equity_seq ts : ℕ)
      → (cash_balance position_value total_equity : ℤ)
      → (fee_cum slippage_cum funding_cum peak_equity : ℤ) → EvidenceRecord

-- `_PendingOrder`.
pub record PendingOrder : Type 0 where
  pub request : OrderRequest
  pub decision_id : ℕ
  pub decision_candle : Candle
  pub feature_ts : ℕ
  pub decision_ts : ℕ
  pub exit_reason : Option ExitReason
  pub signal : Option TradingSignal
  pub candidate_id : Option ℕ

-- `_ActiveTrade`, without the indicator values that it keeps for the reports.
pub record ActiveTrade : Type 0 where
  pub trade_id : ℕ
  pub entry_execution_id : ℕ
  pub entry_fill : Fill
  pub signal : TradingSignal
  pub r0 : Option ℤ
  pub candidate_id : Option ℕ
  pub total_fee : ℤ
  pub slippage : ℤ
  pub funding : ℤ
  pub position_records : List EvidenceRecord
  pub funding_records : List EvidenceRecord
  pub settled_boundaries : List ℕ
  pub mae_ts : Option ℕ
  pub mfe_ts : Option ℕ
  pub mae_r : Option ℤ
  pub mfe_r : Option ℤ
  pub mae_pnl : Option ℤ
  pub mfe_pnl : Option ℤ

-- `_sequence`.
pub record Sequence : Type 0 where
  pub signal : ℕ
  pub decision : ℕ
  pub execution : ℕ
  pub trade : ℕ
  pub position : ℕ
  pub equity : ℕ
  pub candidate : ℕ
  pub tfs : ℕ
  pub settlement : ℕ

-- The fields of `Engine` that change in the loop, with the broker's counter of orders and the
-- records that the evidence sink was handed.
pub record Engine : Type 0 where
  pub pending : List PendingOrder
  pub history : List Candle
  pub minute_history : List Candle
  pub funding_rates : List (ℕ × (Rate × RateSource))
  pub book : Book
  pub cash : ℤ
  pub equity_curve : List (ℕ × ℤ)
  pub trades : List Trade
  pub active_trade : Option ActiveTrade
  pub stop_price : Option ℤ
  pub take_profit_price : Option ℤ
  pub data_gap_exit_count : ℕ
  pub next_order_sequence : ℕ
  pub sequence : Sequence
  pub evidence : List EvidenceRecord

-- `self.evidence.record(...)`.
abbrev pub record_evidence : EvidenceRecord → Engine → Engine
record_evidence r e = record e { evidence = List.◌++◌ e.evidence (r ∷ []) }

-- The calls of `_next` that the accounts make.
abbrev pub next_decision : Engine → ℕ × Engine
next_decision e =
    let n = suc e.sequence.decision in
    (n, record e { sequence = record e.sequence { decision = n } })

abbrev pub next_execution : Engine → ℕ × Engine
next_execution e =
    let n = suc e.sequence.execution in
    (n, record e { sequence = record e.sequence { execution = n } })

abbrev pub next_trade : Engine → ℕ × Engine
next_trade e =
    let n = suc e.sequence.trade in (n, record e { sequence = record e.sequence { trade = n } })

abbrev pub next_settlement : Engine → ℕ × Engine
next_settlement e =
    let n = suc e.sequence.settlement in
    (n, record e { sequence = record e.sequence { settlement = n } })

abbrev pub next_tfs : Engine → ℕ × Engine
next_tfs e =
    let n = suc e.sequence.tfs in (n, record e { sequence = record e.sequence { tfs = n } })

-- `_checked_cash`, of a value that counts units.
unfoldable pub checked_cash : ℤ → String → Result ℤ
checked_cash value context =
    if ltb_ℤ value (pos 0)
    then err (value_error (context ++ " would make cash negative"))
    else ok value

-- `long_position or short_position`.
abbrev pub one_position : Option Position → Option Position → Result (Option Position)
one_position (some l) (some s) =
    err (value_error "Engine supports one directional position at a time")
one_position (some l) none = ok (some l)
one_position none other = ok other

-- `_current_position`.
unfoldable pub current_position : RunConfig → Engine → Result (Option Position)
current_position config e =
    one_position (get config.symbol long e.book) (get config.symbol short e.book)

-- `_current_equity`.
unfoldable pub current_equity : RunConfig → Engine → Result ℤ
current_equity config e = Result.◌>>=◌ (current_position config e) (λ p. ok (recompute e.cash p))

-- `_leverage`.
abbrev pub leverage_of : Option TradingSignal → ℕ
leverage_of none = 1
leverage_of (some s) = elim s.leverage [ none ↦ 1 | some n ↦ n ]

-- `_maintenance_margin_rate`.
unfoldable pub maintenance_margin_rate : CostModel → Result Rate
maintenance_margin_rate model = elim model.maintenance_margin_rate [
  | none ↦ err (type_error "liq_params.maintenance_margin_rate must be Decimal")
  | some r ↦
      raise_if (not (leb_ℤ (pos 0) r.num && ltb_ℤ r.num (pos (den r))))
        "maintenance_margin_rate must be in [0, 1)"
      >> ok r
]

-- A call on the book that the engine owns.
unfoldable pub on_book : {A : Type 0} → Exec Book A → Exec Engine A
on_book m e = let (r, b) = m e.book in (r, record e { book = b })
