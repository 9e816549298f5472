-- ===== src/Engine/Marks.antt =====
-- engine.py: `_mark_grid`, `_record_terminal_equity` and `_track_excursions`, the marks of a bar.
use trading_system_v.Prelude.{
  ℕ, suc, Bool, true, if◌then◌else◌, Option, none, some, List, [], ◌∷◌, leb,
}
use mathlib.Core.List.{◌++◌}
use trading_system_v.Prelude.Int.{ℤ, pos, ◌+ℤ◌, ◌-ℤ◌, ltb_ℤ, eqb_ℤ, max_ℤ}
use trading_system_v.Prelude.Result.{ok}
use trading_system_v.Prelude.Exec.{Exec, ◌>>=◌, ◌>>◌, check, modify}
use trading_system_v.Money.{mul_units, div_units, to_decimal}
use trading_system_v.Types.Enums.{is_long}
use trading_system_v.Types.Position.{Position, update_price}
use trading_system_v.Types.Candle.{Candle}
use trading_system_v.Types.Trade.{Trade}
use trading_system_v.Execution.Book
use trading_system_v.Execution.Accounting.{position_value, recompute}
use trading_system_v.Engine.{
  RunConfig, position_record, portfolio_pnl, ActiveTrade, Engine, record_evidence, current_position,
  on_book,
}

-- `max((value for _, value in curve), default=start)` against `start`.
unfoldable pub peak_from : ℤ → List (ℕ × ℤ) → ℤ
peak_from start [] = start
peak_from start ((at, value) ∷ curve) = peak_from (max_ℤ start value) curve

abbrev sum_of : (Trade → ℤ) → List Trade → ℤ
sum_of column [] = pos 0
sum_of column (t ∷ ts) = column t +ℤ sum_of column ts

abbrev of_active : (ActiveTrade → ℤ) → Option ActiveTrade → ℤ
of_active column none = pos 0
of_active column (some a) = column a

-- a / b for an r0 that is not zero, of either sign of `a`.
abbrev r_multiple : ℤ → Option ℤ → Option ℤ
r_multiple a none = none
r_multiple a (some r0) = if eqb_ℤ r0 (pos 0) then none else some (div_units a r0)

-- The adverse and the favorable PnL of a bar.
abbrev pub excursions : Position → ℤ → Candle → ℤ × ℤ
excursions p entry candle =
    let high = to_decimal candle.high in
    let low = to_decimal candle.low in
    if is_long p.side
    then (mul_units (low -ℤ entry) p.quantity, mul_units (high -ℤ entry) p.quantity)
    else (mul_units (entry -ℤ high) p.quantity, mul_units (entry -ℤ low) p.quantity)

abbrev lower : ℤ → Option ℤ → Bool
lower x none = true
lower x (some y) = ltb_ℤ x y

abbrev higher : ℤ → Option ℤ → Bool
higher x none = true
higher x (some y) = ltb_ℤ y x

abbrev with_mae : ℤ → ℕ → ActiveTrade → ActiveTrade
with_mae adverse at a =
    if lower adverse a.mae_pnl
    then record a { mae_pnl = some adverse; mae_ts = some at; mae_r = r_multiple adverse a.r0 }
    else a

abbrev with_mfe : ℤ → ℕ → ActiveTrade → ActiveTrade
with_mfe favorable at a =
    if higher favorable a.mfe_pnl
    then record a { mfe_pnl = some favorable; mfe_ts = some at; mfe_r = r_multiple favorable a.r0 }
    else a

-- The trade with the excursions of a bar, unless the bar opened at or before the entry.
unfoldable pub tracked : Candle → Position → ActiveTrade → ActiveTrade
tracked candle p a =
    let (adverse, favorable) = excursions p a.entry_fill.reference_price candle in
    if leb candle.open_time a.entry_fill.timestamp
    then a
    else with_mfe favorable candle.close_time (with_mae adverse candle.close_time a)

-- `_track_excursions`.
unfoldable pub track_excursions : Candle → Position → Engine → Engine
track_excursions candle p e = record e {
  active_trade = elim e.active_trade [ none ↦ none | some a ↦ some (tracked candle p a) ];
}

-- The PORTFOLIO_PNL record at an equity, with the costs of the booked trades and of `active`.
unfoldable pub equity_record : ℕ → ℤ → Option Position → Option ActiveTrade → Engine → Engine
equity_record ts equity p active e =
    let n = suc e.sequence.equity in
    record_evidence
      (portfolio_pnl n ts e.cash (position_value p) equity
        (sum_of (λ t. t.total_fee) e.trades +ℤ of_active (λ a. a.total_fee) active)
        (sum_of (λ t. t.slippage) e.trades +ℤ of_active (λ a. a.slippage) active)
        (sum_of (λ t. t.funding_cost) e.trades +ℤ of_active (λ a. a.funding) active)
        (peak_from equity e.equity_curve))
      (record e { sequence = record e.sequence { equity = n } })

-- The POSITION record, which waits for the end of an open trade.
unfoldable pub mark_position : Candle → Option Position → ℤ → Engine → Engine
mark_position candle p mark e =
    let n = suc e.sequence.position in
    let r = position_record n candle.close_time p mark in
    let waits : Option ActiveTrade = elim p [ none ↦ none | some q ↦ e.active_trade ] in
    record e {
      sequence = record e.sequence { position = n };
      active_trade = elim waits [
        | none ↦ e.active_trade
        | some a ↦ some (record a { position_records = a.position_records ++ r ∷ [] })
      ];
      evidence = elim waits [ none ↦ e.evidence ++ r ∷ [] | some a ↦ e.evidence ];
    }

module _ (config : RunConfig) where
  -- The price of the bar, on the object that the book holds, and the excursions.
  mark_held : Candle → Option Position → Exec Engine (Unit {0})
  mark_held candle none e = (ok tt, e)
  mark_held candle (some p) e =
      (on_book (Book.on_position p.symbol p.side p (update_price (to_decimal candle.close)))
          >> modify (track_excursions candle p))
        e

  -- `_mark_grid`; the position is read again, since its price changed in place.
  unfoldable pub mark_grid : Candle → Exec Engine (Unit {0})
  unfolding mark_held
  mark_grid candle = do
    before ← check (current_position config)
    mark_held candle before
    p ← check (current_position config)
    modify (mark_position candle p (to_decimal candle.close))
    modify (λ e. equity_record candle.close_time (recompute e.cash p) p e.active_trade e)
    modify (λ e. record e {
      equity_curve = e.equity_curve ++ (candle.close_time, recompute e.cash p) ∷ [];
    })

  -- The end of `finalize`: the equity of the last instant and its record, which leaves out the costs of a trade that is still open.
  unfoldable pub record_terminal_equity : ℕ → Exec Engine (Unit {0})
  record_terminal_equity terminal_ts = do
    p ← check (current_position config)
    modify
        (λ e. record e { equity_curve = e.equity_curve ++ (terminal_ts, recompute e.cash p) ∷ [] })
    modify (λ e. equity_record terminal_ts (recompute e.cash p) p none e)
