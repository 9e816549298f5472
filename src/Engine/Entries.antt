-- ===== src/Engine/Entries.antt =====
-- engine.py `_apply_fill`: the cash of an entry.
use trading_system_v.Prelude.{
  ℕ, ◌≡◌, ◌∙◌, sym, ap, subst, arith, not, if◌then◌else◌, Option, none, some,
}
use trading_system_v.Prelude.Int.{ℤ, pos, ◌+ℤ◌, ◌-ℤ◌, ◌≤ℤ◌, eqb_ℤ, int_laws, eq_of_parts}
use trading_system_v.Prelude.Result.{Result, ok, err, value_error, runtime_error, ok-injective}
use trading_system_v.Prelude.Exec.{step_ok}
use trading_system_v.Types.Position.{Position}
use trading_system_v.Types.Fill.{Fill}
use trading_system_v.Types.Signal.{TradingSignal}
use trading_system_v.Costs.Model.{CostModel}
use trading_system_v.Execution.Book
use trading_system_v.Execution.Book.{Opening}
use trading_system_v.Engine.{
  short, long, get, String, on_book, RunConfig, ActiveTrade, Engine, current_position, checked_cash,
  leverage_of, one_position,
}
use trading_system_v.Engine.Fills.{
  apply_entry, enter_trade, with_costs, start_trade, held_position, entry_liquidation, opening,
}

pub checked_cash_lem :
    (value cash : ℤ) (context : String)
    → checked_cash value context ≡ ok cash
    → (cash ≡ value) × (pos 0 ≤ℤ cash)
unfolding checked_cash
checked_cash_lem value cash context h = ground arith

-- The position is a matter of the book alone.
pub current_position-book :
    (config : RunConfig) (e e' : Engine)
    → e'.book ≡ e.book
    → current_position config e' ≡ current_position config e
unfolding current_position
current_position-book config e e' h =
    ap (λ (b : Book.Book). one_position (get config.symbol long b) (get config.symbol short b)) h

-- The costs of a trade that is open: its fees, and what funding has been collected.
abbrev pub costs_of : Option ActiveTrade → ℤ
costs_of none = pos 0
costs_of (some a) = a.total_fee +ℤ a.funding

pub more_costs : (a b c : ℤ) → a +ℤ b +ℤ c ≡ a +ℤ c +ℤ b
more_costs a b c = eq_of_parts _ _ (omega int_laws)

first_costs : (a : ℤ) → a +ℤ pos 0 ≡ pos 0 +ℤ a
first_costs a = eq_of_parts _ _ (omega int_laws)

-- What the trade of an entry changes.
record IsEntered (fill : Fill) (a : Option ActiveTrade) (e e' : Engine) : Type 0 where
  book : e'.book ≡ e.book
  cash : e'.cash ≡ e.cash
  trades : e'.trades ≡ e.trades
  costs : costs_of e'.active_trade ≡ costs_of a +ℤ fill.fee

started :
    (n : ℕ) (fill : Fill) (signal : Option TradingSignal) (c : Option ℕ) (e e' : Engine)
    (u : Unit {0}) (a : Option ActiveTrade)
    → (elim a as (λ _. Result (Unit {0}) × Engine) [
      | some a ↦ (ok tt, record e { active_trade = some (with_costs fill a) })
      | none ↦ elim signal [
        | none ↦ (err (value_error "entry fills require their originating signal"), e)
        | some s ↦ (ok tt, start_trade n fill s c e)
      ]
    ])
      ≡ (ok u, e')
    → IsEntered fill a e e'
unfolding start_trade
started n fill signal c e e' u (some a) h =
    let k = ap (λ (x : Result (Unit {0}) × Engine). x.1) (sym h) in
    record {
      book = ap (λ (x : Engine). x.book) k;
      cash = ap (λ (x : Engine). x.cash) k;
      trades = ap (λ (x : Engine). x.trades) k;
      costs =
          ap (λ (x : Engine). costs_of x.active_trade) k
          ∙ more_costs a.total_fee fill.fee a.funding;
    }
started n fill (some s) c e e' u none h =
    let k = ap (λ (x : Result (Unit {0}) × Engine). x.1) (sym h) in
    record {
      book = ap (λ (x : Engine). x.book) k;
      cash = ap (λ (x : Engine). x.cash) k;
      trades = ap (λ (x : Engine). x.trades) k;
      costs = ap (λ (x : Engine). costs_of x.active_trade) k ∙ first_costs fill.fee;
    }
started n fill none c e e' u none h = let k = ap (λ (x : Result (Unit {0}) × Engine). x.0) h in cc

held_some : (o : Option Position) (p : Position) → held_position "" o ≡ ok p → o ≡ some p
unfolding held_position
held_some none p h = cc
held_some (some q) p h = ap some (ok-injective h)

-- An entry of a trade changes neither the book nor the cash.
enter_trade_lem :
    (n : ℕ) (fill : Fill) (signal : Option TradingSignal) (c : Option ℕ) (e e' : Engine)
    (u : Unit {0})
    → enter_trade n fill signal c e ≡ (ok u, e')
    → IsEntered fill e.active_trade e e'
unfolding enter_trade
enter_trade_lem n fill signal c e e' u h = started n fill signal c e e' u e.active_trade h

-- What an entry does to the accounts.
pub record IsEntry (config : RunConfig) (fill : Fill) (before : ℤ) (e e' : Engine) : Type 0 where
  pub opening : Opening
  pub applied : Book.apply fill opening e.book ≡ (ok tt, e'.book)
  pub position : Position
  pub held : current_position config e' ≡ ok (some position)
  pub balance : e'.cash ≡ e.cash -ℤ (position.margin -ℤ before) -ℤ fill.fee
  pub cash_nonneg : pos 0 ≤ℤ e'.cash
  pub trades : e'.trades ≡ e.trades
  pub costs : costs_of e'.active_trade ≡ costs_of e.active_trade +ℤ fill.fee

pub apply_entry_lem :
    (config : RunConfig) (model : CostModel) (fill : Fill) (signal : Option TradingSignal)
    (c : Option ℕ) (before projected : ℤ) (n : ℕ) (e e' : Engine) (u : Unit {0})
    → apply_entry config model fill signal c before projected n e ≡ (ok u, e')
    → IsEntry config fill before e e'
unfolding apply_entry on_book
apply_entry_lem config model fill signal c before projected n e e' u h =
    let leverage = leverage_of signal in
    let (level, _, h1) =
      step_ok (entry_liquidation config model fill leverage config.market_type) _ _ h in
    let (u2, applied, h2) =
      step_ok (Book.apply fill (opening config leverage level) e.book).0 _ _ h1 in
    let e2 = record e { book = (Book.apply fill (opening config leverage level) e.book).1 } in
    let (after, c3, h3) = step_ok (current_position config e2) _ _ h2 in
    let (p, c4, h4) = step_ok (held_position "" after) _ _ h3 in
    let actual = e.cash -ℤ (p.margin -ℤ before) -ℤ fill.fee in
    let (_, _, h5) =
      step_ok
        (if not (eqb_ℤ actual projected)
          then err (runtime_error "entry cash projection diverged from position accounting")
          else ok tt)
        _ _ h4 in
    let (cash, c6, h6) = step_ok (checked_cash actual "entry fill") _ _ h5 in
    let own = enter_trade_lem n fill signal c (record e2 { cash = cash }) e' u h6 in
    let (same, above) = checked_cash_lem actual cash "entry fill" c6 in
    record {
      opening = opening config leverage level;
      applied = λ i. (applied i, sym own.book i);
      position = p;
      held = current_position-book config e2 e' own.book ∙ c3 ∙ ap ok (held_some after p c4);
      balance = own.cash ∙ same;
      cash_nonneg = subst (λ x. pos 0 ≤ℤ x) (sym own.cash) above;
      trades = own.trades;
      costs = own.costs;
    }
