-- ===== src/Engine/Signals.antt =====
-- engine.py: `_derive_intent`, `_size` and the requests that a signal makes.
use trading_system_v.Prelude.{ℕ, Bool, true, false, ◌&&◌, if◌then◌else◌, Option, none, some, ◌/◌}
use trading_system_v.Prelude.Result.{
  Result, ok, err, value_error, assertion_error, runtime_error, raise_if,
}
use trading_system_v.Prelude.Result
use trading_system_v.Money.{Float, leb_float, ltb_float}
use trading_system_v.Types.Enums.{
  OrderType, buy, sell, PositionSide, long, short, ExitReason, side_eq, is_long,
}
use trading_system_v.Types.Position.{Position}
use trading_system_v.Types.Candle.{Candle}
use trading_system_v.Types.Signal.{TradingSignal}
use trading_system_v.Sizing.{float_abs, not_positive, size, wallet_pct_size}
use trading_system_v.Execution.Normalizer.{OrderRequest}
use trading_system_v.Engine.{
  Environment, RunConfig, SizingMethod, risk_based, pct, PendingOrder, Engine, current_equity,
}

pub data Intent : Type 0 where
  exit_position enter reverse : Intent

abbrev pub eq_float : Float → Float → Bool
eq_float a b = leb_float a b && leb_float b a

abbrev pub intent_for : PositionSide → Option Position → Intent
intent_for side none = enter
intent_for side (some p) = if side_eq p.side side then enter else reverse

abbrev pub stop_side : Float → Float → PositionSide
stop_side protection price = if ltb_float protection price then long else short

abbrev pub target_side : Float → Float → PositionSide
target_side protection price = if ltb_float price protection then long else short

-- The side of an entry, and whether it reverses the position; the protection must not be the price.
derived : PositionSide → Float → Float → Option Position → Result (Intent × Option PositionSide)
derived side protection price position =
    if eq_float protection price
    then err (value_error "protection level cannot equal signal price")
    else ok (intent_for side position, some side)

-- `_derive_intent`.
unfoldable pub derive_intent :
    TradingSignal → Option Position → Result (Intent × Option PositionSide)
unfolding derived
derive_intent signal position = elim signal.stop_loss [
  | some stop ↦ derived (stop_side stop signal.price) stop signal.price position
  | none ↦ elim signal.take_profit [
    | some target ↦ derived (target_side target signal.price) target signal.price position
    | none ↦ ok (exit_position, none)
  ]
]

abbrev or_level : Option Float → Option Float → Option Float
or_level none other = other
or_level (some x) other = some x

abbrev given : Option Float → Result Float
given none = err (assertion_error "")
given (some x) = ok x

module _ (environment : Environment) (config : RunConfig) where
  -- The quantity that a policy asked for, or the one that risks the configured share of the equity.
  risk_quantity : Option Float → Float → Engine → Result Float
  risk_quantity (some requested) stop_distance e = ok requested
  risk_quantity none stop_distance e = Result.◌>>=◌ (given config.risk_per_trade) (λ risk.
      Result.◌>>=◌ (current_equity config e)
        (λ equity. size environment.arithmetic risk (environment.float_of equity) stop_distance))

  method_quantity : SizingMethod → TradingSignal → Float → Engine → Result Float
  method_quantity risk_based signal stop_distance e =
      risk_quantity signal.requested_quantity stop_distance e
  method_quantity pct signal stop_distance e =
      Result.◌>>=◌ (given config.position_size_pct) (λ part.
        Result.◌>>=◌ (wallet_pct_size environment.arithmetic (environment.float_of e.cash) part)
          (λ notional. ok (environment.arithmetic.div notional signal.price)))

  -- `_size`: the quantity, and the distance to the stop.
  unfoldable pub size_of : TradingSignal → Engine → Result (Float × Float)
  unfolding method_quantity risk_quantity
  size_of signal e = elim (or_level signal.stop_loss signal.take_profit) [
    | none ↦ err (value_error "entry sizing requires a protection level")
    | some protection ↦
        let stop_distance = float_abs (environment.arithmetic.sub signal.price protection) in
        Result.◌>>◌
          (raise_if (not_positive stop_distance) "entry sizing requires a positive stop distance")
          (Result.◌>>=◌ (method_quantity config.sizing_method signal stop_distance e)
            (λ q. ok (q, stop_distance)))
  ]

  -- `_entry_request`.
  abbrev pub entry_request : TradingSignal → PositionSide → Float → OrderRequest
  entry_request signal side quantity = record {
    symbol = signal.symbol;
    side = if is_long side then buy else sell;
    order_type = OrderType.market;
    quantity = quantity;
    price = some signal.price;
    stop_price = signal.stop_loss;
    market_type = signal.market_type;
    position_side = side;
    reduce_only = false;
    close_position = false;
    time_in_force = "GTC";
  }

  -- `_exit_request`.
  abbrev pub exit_request : Position → OrderRequest
  exit_request p = record {
    symbol = p.symbol;
    side = if is_long p.side then sell else buy;
    order_type = OrderType.market;
    quantity = environment.float_of p.quantity;
    price = none;
    stop_price = none;
    market_type = p.market_type;
    position_side = p.side;
    reduce_only = true;
    close_position = false;
    time_in_force = "GTC";
  }

  abbrev seen_at : Candle → ℕ
  seen_at candle = candle.close_time / 1000

  -- The order that leaves the position at the next bar.
  abbrev pub pending_exit : Position → ℕ → Candle → ExitReason → TradingSignal → PendingOrder
  pending_exit p decision_id candle reason signal = record {
    request = exit_request p;
    decision_id = decision_id;
    decision_candle = candle;
    feature_ts = seen_at candle;
    decision_ts = seen_at candle;
    exit_reason = some reason;
    signal = some signal;
    candidate_id = none;
  }

  -- The order that enters at the next bar.
  abbrev pub pending_entry : PositionSide → Float → ℕ → Candle → TradingSignal → ℕ → PendingOrder
  pending_entry side quantity decision_id candle signal candidate_id = record {
    request = entry_request signal side quantity;
    decision_id = decision_id;
    decision_candle = candle;
    feature_ts = seen_at candle;
    decision_ts = seen_at candle;
    exit_reason = none;
    signal = some signal;
    candidate_id = some candidate_id;
  }
