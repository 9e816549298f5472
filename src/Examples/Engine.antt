-- ===== src/Examples/Engine.antt =====
-- The properties of the backtest engine at concrete inputs.
use trading_system_v.Engine.Run.{IsRun, apply_fill-IsRun}
use trading_system_v.Engine.Trades.{snapshot, complete_records, complete_trade, gross_pnl}
use trading_system_v.Prelude.{ℕ, some, none, [], ◌∷◌, ◌≡◌, refl, arith}
use trading_system_v.Prelude.Int.{int_laws, eq_of_parts, ℤ, pos, ◌+ℤ◌, ◌-ℤ◌, ◌*ℤ◌}
use trading_system_v.Prelude.Result.{ok}
use trading_system_v.Money.{Float, mul_units, quantize}
use trading_system_v.Money.Half.{round_half_even}
use trading_system_v.Types.Enums.{futures}
use trading_system_v.Types.Position
use trading_system_v.Types.Fill
use trading_system_v.Types.Trade
use trading_system_v.Types.Signal.{TradingSignal}
use trading_system_v.Engine.{
  tf_candle, on_book, current_position, Engine, Environment, RunConfig, risk_based,
}
use trading_system_v.Engine.Fills.{
  leave_trade, actual_pnl, apply_exit, exit_of_both, enter_trade, held_position, entry_liquidation,
  apply_entry, record_execution, projected_entry_cash, apply_fill,
}
use trading_system_v.Sizing.{FloatArithmetic}
use trading_system_v.Execution.Trigger.{next_bar}
use trading_system_v.Execution.Book.{get, open_position}
use trading_system_v.Execution.Book
use trading_system_v.Money.{div_units, to_decimal}
use trading_system_v.Money.{ten_pow}
use trading_system_v.Engine.{maintenance_margin_rate, checked_cash}
use trading_system_v.Engine.Fills.{start_trade}
use trading_system_v.Engine.Ledger.{realized_pnl}
use trading_system_v.Costs.Liquidation
use trading_system_v.Engine.Funding.{
  settle_at_boundary, settle_held, settle_due, rates_after, rate_at, cached_rate, fetched_rate,
  funding_price, opening_at, last_where, after_charge,
}
use trading_system_v.Costs.Funding.{is_boundary, settle}
use trading_system_v.Execution.Book.{apply_funding}
use trading_system_v.Engine.Handler.{
  handle_signal, handle_intent, handle_entry, handle_sized, queue_entry, next_candle, eq_candle,
  planned_at, is_gap,
}
use trading_system_v.Engine.Signals.{size_of}
use trading_system_v.Sizing.{within_one_percent}
use trading_system_v.Engine.{current_equity}
use trading_system_v.Execution.Normalizer.{validate_request}
use trading_system_v.Execution.Accounting.{recompute, position_value}
use trading_system_v.Prelude.{length}
use trading_system_v.Engine.Queue.{IsHandled, handle_signal-IsHandled}
use trading_system_v.Engine.Signals.{derive_intent}
use trading_system_v.Sizing.{size}
use trading_system_v.Execution.Book.{fund}
use trading_system_v.Types.Position.{Position}
use trading_system_v.Types.Fill.{Fill}
use trading_system_v.Prelude.{Option}
use trading_system_v.Engine.Liquidated.{SettledRun}
use trading_system_v.Engine.Settled.{settle-SettledRun}
use trading_system_v.Examples.Data.{entry_fill, exit_fill, taker_model, first_bar, second_bar}
use trading_system_v.Examples.Book.{empty_book, empty_book-IsSound, entry_fill-IsValid}
use trading_system_v.Types.Fill.{Fill}

abbrev units : ℤ → Float
units x = record { digits = x; places = 8 }

-- The arithmetic of decimals, with eight places for a quotient.
abbrev decimals : FloatArithmetic
decimals = record {
  sub = λ x y. units (to_decimal x -ℤ to_decimal y);
  mul = λ x y. units (mul_units (to_decimal x) (to_decimal y));
  div = λ x y. units (div_units (to_decimal x) (to_decimal y));
  add = λ x y. units (to_decimal x +ℤ to_decimal y);
}

abbrev pub environment : Environment
environment = record {
  float_of = units;
  exit_id = λ symbol at reason. "exit";
  canonical_id = λ r. "order";
  arithmetic = decimals;
  order_text = λ n. "o";
  feed_funding = λ symbol boundary. none;
}

abbrev pub config : RunConfig
config = record {
  symbol = "BTCUSDT";
  market_type = futures;
  sizing_method = risk_based;
  risk_per_trade = some (record { digits = pos 1; places = 2 });
  position_size_pct = none;
  fill_timing = next_bar;
  trigger_feed = tf_candle;
  strategy_id = "s";
  strategy_name = "Turtle";
  run_id = "r";
}

-- A long at 100 with its stop at 95.
abbrev pub signal : TradingSignal
signal = record {
  symbol = "BTCUSDT";
  timestamp = 60000000;
  confidence = record { digits = pos 1; places = 0 };
  price = record { digits = pos 100; places = 0 };
  stop_loss = some (record { digits = pos 95; places = 0 });
  take_profit = none;
  market_type = futures;
  leverage = some 10;
  reason = "breakout";
  requested_quantity = none;
}

-- A thousand in cash.
abbrev pub start : Engine
start = record {
  pending = [];
  history = first_bar ∷ second_bar ∷ [];
  minute_history = [];
  funding_rates = [];
  book = empty_book;
  cash = pos 100000000000;
  equity_curve = [];
  trades = [];
  active_trade = none;
  stop_price = none;
  take_profit_price = none;
  data_gap_exit_count = 0;
  next_order_sequence = 0;
  sequence = record {
    signal = 0;
    decision = 0;
    execution = 0;
    trade = 0;
    position = 0;
    equity = 0;
    candidate = 0;
    tfs = 0;
    settlement = 0;
  };
  evidence = [];
}

start-IsRun : IsRun config start (pos 100000000000)
unfolding current_position get
start-IsRun = record {
  sound = empty_book-IsSound;
  keyed = λ s d p h. cc;
  cash_nonneg = omega arith;
  balanced = record { position = none; held = refl; sum = eq_of_parts _ _ (omega int_laws) };
}

bought :
    (e : Engine) × (apply_fill config taker_model entry_fill (some 1) (some signal) none start
      ≡ (ok tt, e))
unfolding apply_fill current_position projected_entry_cash record_execution apply_entry
    entry_liquidation held_position on_book enter_trade start_trade Book.apply open_position
    checked_cash maintenance_margin_rate Liquidation.price Position.post_init mul_units quantize
    round_half_even ten_pow ◌*ℤ◌ ◌+ℤ◌ ◌-ℤ◌ get Book.set
bought = (_, refl)

bought-IsRun : IsRun config bought.0 (pos 100000000000 +ℤ realized_pnl config start entry_fill)
bought-IsRun =
    apply_fill-IsRun config taker_model entry_fill (some 1) (some signal) none start bought.0 tt
      (pos 100000000000) entry_fill-IsValid refl (λ h. cc) start-IsRun bought.1

abbrev leaving : Fill
leaving = record exit_fill { timestamp = 120000000 }

leaving-IsValid : Fill.IsValid leaving
leaving-IsValid = record {
  reference_positive = omega arith;
  price_positive = omega arith;
  quantity_positive = omega arith;
  fee_nonneg = omega arith;
  slippage_nonneg = omega arith;
}

sold :
    (e : Engine) × (apply_fill config taker_model leaving (some 2) none none bought.0 ≡ (ok tt, e))
unfolding apply_fill current_position record_execution exit_of_both apply_exit actual_pnl gross_pnl
    on_book Book.apply Book.reduce Position.reduce_quantity leave_trade complete_trade
    complete_records Trade.post_init snapshot checked_cash mul_units quantize round_half_even
    ten_pow ◌*ℤ◌ ◌+ℤ◌ ◌-ℤ◌ get Book.set bought Position.released_margin Book.lookup Book.on_position
    Position.reduced to_decimal
sold = (_, refl)

apply_fill-IsRun_example : IsRun config sold.0 (
    (pos 100000000000 +ℤ realized_pnl config start entry_fill)
    +ℤ realized_pnl config bought.0 leaving)
apply_fill-IsRun_example =
    apply_fill-IsRun config taker_model leaving (some 2) none none bought.0 sold.0 tt
      (pos 100000000000 +ℤ realized_pnl config start entry_fill) leaving-IsValid refl (λ h. cc)
      bought-IsRun sold.1

-- The first boundary after the entry, eight hours after the epoch.
abbrev boundary : ℕ
boundary = 28800000000

charged_once :
    (e : Engine) × (settle_at_boundary environment config taker_model boundary bought.0
      ≡ (ok tt, e))
unfolding settle_at_boundary settle_held settle_due is_boundary current_position get rates_after
    rate_at cached_rate fetched_rate funding_price opening_at last_where settle
    maintenance_margin_rate apply_funding fund on_book after_charge mul_units quantize
    round_half_even ten_pow ◌*ℤ◌ ◌+ℤ◌ ◌-ℤ◌ Book.set bought to_decimal Book.on_position
    Liquidation.price_from_margin
charged_once = (_, refl)

settle-SettledRun_example :
    SettledRun environment config taker_model boundary bought.0
      (pos 100000000000 +ℤ realized_pnl config start entry_fill)
      charged_once.0
settle-SettledRun_example =
    settle-SettledRun environment config taker_model boundary bought.0 charged_once.0 tt
      (pos 100000000000 +ℤ realized_pnl config start entry_fill) bought-IsRun charged_once.1

queued : (e : Engine) × (handle_signal environment config first_bar signal start ≡ (ok tt, e))
unfolding handle_signal handle_intent handle_entry handle_sized queue_entry current_position
    current_equity get derive_intent next_candle eq_candle planned_at is_gap size_of size
    within_one_percent validate_request mul_units quantize round_half_even ten_pow ◌*ℤ◌ ◌+ℤ◌ ◌-ℤ◌
    Book.set to_decimal recompute position_value div_units
queued = (_, refl)

-- The entry is queued.
queued_one : length queued.0.pending ≡ 1
unfolding queued
queued_one = refl

handle_signal-IsHandled_example :
    (position : Option Position) × (current_position config start ≡ ok position)
    × IsHandled environment config first_bar signal position start.history start queued.0
handle_signal-IsHandled_example =
    handle_signal-IsHandled environment config first_bar signal start queued.0 tt queued.1
