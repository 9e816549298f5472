-- ===== src/Types/Trade.antt =====
-- services/core-lib/core_lib/types/trade.py. That leverage, the duration and the confidence have
-- the types that the code tests is their type here.
use trading_system_v.Prelude.{
  ◌⊎◌, ℕ, String, ◌≡◌, Bool, true, false, not, ◌&&◌, ◌||◌, Option, none, some, arith, ltb,
  if◌then◌else◌,
}
use trading_system_v.Prelude.Int.{ℤ, pos, ◌-ℤ◌, ltb_ℤ, leb_ℤ, eqb_ℤ, ◌≤ℤ◌, int_laws, eq_of_parts}
use trading_system_v.Prelude.Result.{Result, ok, ◌>>◌, raise_if}
use trading_system_v.Money.{Float, leb_float}
use trading_system_v.Types.Enums.{OrderSide, MarketType, ExitReason, liquidation}
use text.Mathlib.Text.{◌==◌}

pub record Trade : Type 0 where
  pub source_type : String
  pub symbol : String
  pub side : OrderSide
  pub market_type : MarketType
  pub entry_price : ℤ
  pub entry_quantity : ℤ
  pub entry_time : ℕ
  pub exit_price : ℤ
  pub exit_quantity : ℤ
  pub exit_time : ℕ
  pub exit_reason : ExitReason
  pub gross_pnl : ℤ
  pub total_fee : ℤ
  pub slippage : ℤ
  pub funding_cost : ℤ
  pub liquidation_penalty : ℤ
  pub net_pnl : ℤ
  pub return_pct : ℤ
  pub r0 : Option ℤ
  pub leverage : ℕ
  pub liquidated : Bool
  pub wallet_id : Option String
  pub backtest_run_id : Option String
  pub strategy_id : String
  pub strategy_name : String
  pub hold_duration_seconds : ℤ
  pub signal_confidence : Float
  pub reason : String

abbrev is_liquidation : ExitReason → Bool
is_liquidation liquidation = true
is_liquidation _ = false

abbrev is_negative : Option ℤ → Bool
is_negative none = false
is_negative (some r) = ltb_ℤ r (pos 0)

abbrev xor : Bool → Bool → Bool
xor a b = if a then not b else b

abbrev unit_float : Float
unit_float = record { digits = pos 1; places = 0 }

abbrev zero_float : Float
zero_float = record { digits = pos 0; places = 0 }

-- gross_pnl - total_fee - slippage - funding_cost - liquidation_penalty.
abbrev pub expected_net_pnl : Trade → ℤ
expected_net_pnl t =
    t.gross_pnl -ℤ t.total_fee -ℤ t.slippage -ℤ t.funding_cost -ℤ t.liquidation_penalty

-- `__post_init__`.
unfoldable pub post_init : Trade → Result Trade
post_init t = do
  raise_if
      (not (t.source_type == "live" || (t.source_type == "paper" || t.source_type == "backtest")))
      "source_type must be live, paper, or backtest"
  raise_if (leb_ℤ t.entry_price (pos 0) || leb_ℤ t.exit_price (pos 0))
      "trade prices must be positive"
  raise_if (leb_ℤ t.entry_quantity (pos 0) || leb_ℤ t.exit_quantity (pos 0))
      "trade quantities must be positive"
  raise_if (ltb_ℤ t.total_fee (pos 0) || ltb_ℤ t.slippage (pos 0))
      "fees and slippage must be non-negative"
  raise_if (ltb_ℤ t.liquidation_penalty (pos 0)) "liquidation_penalty must be non-negative"
  raise_if (is_negative t.r0) "r0 must be non-negative or None"
  raise_if (not (ltb 0 t.leverage)) "leverage must be positive"
  raise_if (xor t.liquidated (is_liquidation t.exit_reason))
      "liquidated must pair with exit_reason LIQUIDATION"
  raise_if (not t.liquidated && not (eqb_ℤ t.liquidation_penalty (pos 0)))
      "non-liquidated trades must have zero liquidation_penalty"
  raise_if (not (eqb_ℤ t.net_pnl (expected_net_pnl t)))
      "net_pnl must equal gross_pnl minus fee, slippage, funding, and penalty"
  raise_if (ltb t.exit_time t.entry_time) "exit_time must not precede entry_time"
  raise_if (ltb_ℤ t.hold_duration_seconds (pos 0)) "hold_duration_seconds must be non-negative"
  raise_if
      (not (leb_float zero_float t.signal_confidence && leb_float t.signal_confidence unit_float))
      "signal_confidence must be between 0 and 1"
  ok t

-- A trade that is accepted is returned as it is.
pub post_init-same : (t u : Trade) → post_init t ≡ ok u → u ≡ t
unfolding post_init
post_init-same t u h = ground arith

module _ (t : Trade) (h : post_init t ≡ ok t) where
  net_of : t.net_pnl ≡ expected_net_pnl t
  unfolding post_init
  net_of = ground (arith, eq_of_parts t.net_pnl (expected_net_pnl t))

  costs_nonneg : (pos 0 ≤ℤ t.total_fee) × (pos 0 ≤ℤ t.slippage) × (pos 0 ≤ℤ t.liquidation_penalty)
  unfolding post_init
  costs_nonneg = (ground arith, ground arith, ground arith)

  net-le-gross : pos 0 ≤ℤ t.funding_cost → t.net_pnl ≤ℤ t.gross_pnl
  net-le-gross p = rw net_of (omega (int_laws, costs_nonneg))

  penalty_of : (t.exit_reason ≡ liquidation) ⊎ (t.liquidation_penalty ≡ pos 0)
  unfolding post_init
  penalty_of = ground (arith, eq_of_parts t.liquidation_penalty (pos 0))

-- An accepted trade has a net result of its gross result less fee, slippage, funding and
-- penalty, nets no more than its gross result unless funding was received, and has a penalty
-- only if its exit was a liquidation.
pub post_init_accounts :
    (t : Trade)
    → post_init t ≡ ok t
    → (t.net_pnl ≡ expected_net_pnl t)
      × (pos 0 ≤ℤ t.funding_cost → t.net_pnl ≤ℤ t.gross_pnl)
      × ((t.exit_reason ≡ liquidation) ⊎ (t.liquidation_penalty ≡ pos 0))
post_init_accounts t h = (net_of t h, net-le-gross t h, penalty_of t h)
