-- ===== src/Engine/Exits.antt =====
-- engine.py `_apply_fill`: the cash and the trade of an exit.
use trading_system_v.Engine.Trades.{closed_trade, complete_trade, complete_records, snapshot}
use trading_system_v.Prelude.{
  ℕ, ◌≡◌, ◌≢◌, ◌∙◌, refl, sym, ap, subst, true, if◌then◌else◌, Option, none, some, [], ◌∷◌,
}
use mathlib.Core.List.{◌++◌}
use trading_system_v.Prelude.Int.{
  ℤ, pos, ◌+ℤ◌, ◌-ℤ◌, ◌≤ℤ◌, leb_ℤ, eqb_ℤ, int_laws, eq_of_parts, pos_part, neg_part,
}
use trading_system_v.Prelude.Result.{Result, ok, err, arithmetic_error, ok-injective}
use trading_system_v.Prelude.Exec.{◌>>◌, modify, step_ok}
use trading_system_v.Money.{mul_units}
use trading_system_v.Types.Enums.{both}
use trading_system_v.Types.Position.{Position, released_margin}
use trading_system_v.Types.Fill.{Fill}
use trading_system_v.Types.Trade
use trading_system_v.Types.Trade.{Trade, post_init-same}
use trading_system_v.Execution.Book
use trading_system_v.Execution.Book.{Opening}
use trading_system_v.Execution.Book.Holdings.{IsSound}
use trading_system_v.Engine.{
  RunConfig, ActiveTrade, Engine, current_position, checked_cash, on_book,
}
use trading_system_v.Engine.Fills.{
  margin_of, with_costs, actual_pnl, leave_trade, apply_exit, no_levels, no_terms, exit_context,
}
use trading_system_v.Engine.Entries.{checked_cash_lem, current_position-book}
use trading_system_v.Engine.Held.{apply-IsReduced}

-- What the fill makes of the trade: it goes on while a position is left, and is booked otherwise.
pub data TradeAfter (config : RunConfig) (a : ActiveTrade) (fill : Fill) (e e' : Engine)
    : Option Position → Type 0 where
  goes_on :
      {p : Position}
      → e'.active_trade ≡ some a
      → e'.trades ≡ e.trades
      → TradeAfter config a fill e e' (some p)
  is_booked :
      e'.active_trade ≡ none
      → e'.stop_price ≡ none
      → e'.take_profit_price ≡ none
      → e'.trades ≡ e.trades ++ closed_trade config a fill ∷ []
      → Trade.post_init (closed_trade config a fill) ≡ ok (closed_trade config a fill)
      → TradeAfter config a fill e e' none

-- What `_complete_trade` changes besides the records.
completed :
    (config : RunConfig) (a : ActiveTrade) (fill : Fill) (n : ℕ) (e e' : Engine) (u : Unit {0})
    → complete_trade config a fill n e ≡ (ok u, e')
    → (e'.trades ≡ e.trades ++ closed_trade config a fill ∷ [])
      × (Trade.post_init (closed_trade config a fill) ≡ ok (closed_trade config a fill))
      × (e'.book ≡ e.book)
      × (e'.cash ≡ e.cash)
unfolding complete_trade complete_records snapshot
completed config a fill n e e' u h =
    let (_, _, h1) =
      step_ok
        (if eqb_ℤ (mul_units a.entry_fill.reference_price a.entry_fill.quantity) (pos 0)
          then err (arithmetic_error "division by zero")
          else ok tt)
        _ _ h in
    let (t, valid, h2) = step_ok (Trade.post_init (closed_trade config a fill)) _ _ h1 in
    let same = post_init-same (closed_trade config a fill) t valid in
    let at = ap (λ (x : Result (Unit {0}) × Engine). x.1) (sym h2) in
    (
      ap (λ (x : Engine). x.trades) at ∙ ap (λ x. e.trades ++ x ∷ []) same,
      subst (λ x. Trade.post_init (closed_trade config a fill) ≡ ok x) same valid,
      ap (λ (x : Engine). x.book) at,
      ap (λ (x : Engine). x.cash) at,
    )

by_pair :
    (config : RunConfig) (a : ActiveTrade) (fill : Fill) (n : ℕ) (e e' : Engine) (u : Unit {0})
    (x : Result (Unit {0}) × Engine)
    → complete_trade config a fill n e ≡ x
    → ◌≡◌ {A = Result (Unit {0}) × Engine}
        (elim x.0 [ ok r ↦ (ok tt, no_levels x.1) | err r ↦ (err r, x.1) ])
        (ok u, e')
    → TradeAfter config a fill e e' none × (e'.book ≡ e.book) × (e'.cash ≡ e.cash)
by_pair config a fill n e e' u (ok r, t) k h =
    let (trades, valid, book, cash) = completed config a fill n e t r k in
    let at = ap (λ (x : Result (Unit {0}) × Engine). x.1) (sym h) in
    (
      is_booked (ap (λ (x : Engine). x.active_trade) at) (ap (λ (x : Engine). x.stop_price) at)
          (ap (λ (x : Engine). x.take_profit_price) at) (ap (λ (x : Engine). x.trades) at ∙ trades)
          valid,
      ap (λ (x : Engine). x.book) at ∙ book,
      ap (λ (x : Engine). x.cash) at ∙ cash,
    )
by_pair config a fill n e e' u (err r, t) k h =
    let z = ap (λ (x : Result (Unit {0}) × Engine). x.0) h in cc

left_empty :
    (config : RunConfig) (a : ActiveTrade) (fill : Fill) (n : ℕ) (e e' : Engine) (u : Unit {0})
    → (complete_trade config a fill n >> modify no_levels) e ≡ (ok u, e')
    → TradeAfter config a fill e e' none × (e'.book ≡ e.book) × (e'.cash ≡ e.cash)
left_empty config a fill n e e' u h =
    by_pair config a fill n e e' u (complete_trade config a fill n e) refl h

-- The rest of the exit, over the position that is left.
leave_lem :
    (config : RunConfig) (a : ActiveTrade) (fill : Fill) (n : ℕ) (e e' : Engine) (u : Unit {0})
    (after : Option Position)
    → e.active_trade ≡ some a
    → leave_trade config a fill n after e ≡ (ok u, e')
    → TradeAfter config a fill e e' after × (e'.book ≡ e.book) × (e'.cash ≡ e.cash)
unfolding leave_trade
leave_lem config a fill n e e' u none own h = left_empty config a fill n e e' u h
leave_lem config a fill n e e' u (some p) own h =
    let at = ap (λ (x : Result (Unit {0}) × Engine). x.1) (sym h) in
    (
      goes_on (ap (λ (x : Engine). x.active_trade) at ∙ own) (ap (λ (x : Engine). x.trades) at),
      ap (λ (x : Engine). x.book) at,
      ap (λ (x : Engine). x.cash) at,
    )

-- What an exit does to the accounts.
pub record IsExit (config : RunConfig) (fill : Fill) (before : Position) (a : ActiveTrade)
    (e e' : Engine) : Type 0 where
  pub opening : Opening
  pub applied : Book.apply fill opening e.book ≡ (ok tt, e'.book)
  pub left : Option Position
  pub held : current_position config e' ≡ ok left
  pub balance :
      e'.cash +ℤ margin_of left ≡ e.cash +ℤ before.margin +ℤ actual_pnl before fill -ℤ fill.fee
  pub cash_nonneg : pos 0 ≤ℤ e'.cash
  pub trade : TradeAfter config (with_costs fill a) fill e e' left

balance_of :
    (cash released pnl fee left margin : ℤ)
    → left +ℤ released ≡ margin
    → cash +ℤ released +ℤ pnl -ℤ fee +ℤ left ≡ cash +ℤ margin +ℤ pnl -ℤ fee
balance_of cash released pnl fee left margin h =
    eq_of_parts _ _ (omega (int_laws, ap pos_part h, ap neg_part h))

pub trade_from :
    (config : RunConfig) (a : ActiveTrade) (fill : Fill) (e e3 e' : Engine)
    (after : Option Position)
    → e3.trades ≡ e.trades
    → TradeAfter config a fill e3 e' after
    → TradeAfter config a fill e e' after
trade_from config a fill e e3 e' (some p) h (goes_on own trades) = goes_on own (trades ∙ h)
trade_from config a fill e e3 e' none h (is_booked own stop target trades valid) =
    is_booked own stop target (trades ∙ ap (λ x. x ++ closed_trade config a fill ∷ []) h) valid

pub apply_exit-IsExit :
    (config : RunConfig) (fill : Fill) (n : ℕ) (before : Position) (a : ActiveTrade) (e e' : Engine)
    (u : Unit {0})
    → fill.symbol ≡ config.symbol
    → fill.position_side ≢ both
    → fill.reduce_only ≡ true
    → IsSound e.book
    → current_position config e ≡ ok (some before)
    → apply_exit config fill n before a e ≡ (ok u, e')
    → IsExit config fill before a e e'
unfolding apply_exit on_book current_position
apply_exit-IsExit config fill n before a e e' u same direction exit sound one h =
    let (_, _, h1) =
      step_ok
        (if leb_ℤ before.quantity (pos 0) then err (arithmetic_error "division by zero") else ok tt)
        _ _ h in
    let released = released_margin before fill.quantity in
    let pnl = actual_pnl before fill in
    let (cash, c2, h2) =
      step_ok (checked_cash (e.cash +ℤ released +ℤ pnl -ℤ fill.fee) (exit_context fill.exit_reason))
        _ _ h1 in
    let (_, applied, h3) = step_ok (Book.apply fill no_terms e.book).0 _ _ h2 in
    let b : Book.Book = (Book.apply fill no_terms e.book).1 in
    let e3 = record e { book = b; cash = cash; active_trade = some (with_costs fill a) } in
    let (after, c4, h4) = step_ok (current_position config e3) _ _ h3 in
    let (trade, book, kept) = leave_lem config (with_costs fill a) fill n e3 e' u after refl h4 in
    let (value, above) =
      checked_cash_lem (e.cash +ℤ released +ℤ pnl -ℤ fill.fee) cash (exit_context fill.exit_reason)
        c2 in
    let r =
      apply-IsReduced config fill no_terms e before b tt same direction exit sound one
        (λ i. (applied i, b)) in
    let at : r.left ≡ after = ok-injective (sym r.held ∙ c4) in
    record {
      opening = no_terms;
      applied = λ i. (applied i, sym book i);
      left = after;
      held = current_position-book config e3 e' book ∙ c4;
      balance =
          subst (λ x. x +ℤ margin_of after ≡ e.cash +ℤ before.margin +ℤ pnl -ℤ fill.fee)
            (sym (kept ∙ value))
            (balance_of e.cash released pnl fill.fee (margin_of after) before.margin
              (subst (λ x. margin_of x +ℤ released ≡ before.margin) at r.margins));
      cash_nonneg = subst (λ x. pos 0 ≤ℤ x) (sym kept) above;
      trade = trade_from config (with_costs fill a) fill e e3 e' after refl trade;
    }
