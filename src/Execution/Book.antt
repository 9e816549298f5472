-- ===== src/Execution/Book.antt =====
-- execution/position_book.py. The book is a dict of mutable positions keyed by (symbol, side): a
-- function here. A method of a position changes the object that the book holds, also when it raises.
pub mod Steps
pub mod Writes
pub mod Positions
pub mod Reducing
pub mod Holdings
pub mod FundingMargin
pub mod Keyed
use trading_system_v.Prelude.{
  ◌∷◌, ◌*◌, List, ℕ, String, Bool, true, false, not, ◌&&◌, if◌then◌else◌, [], Option, none, some,
  ltb,
}
use trading_system_v.Prelude.Int.{ℤ, pos, ◌+ℤ◌, ◌-ℤ◌, ◌*ℤ◌, ltb_ℤ, leb_ℤ, eqb_ℤ, min_ℤ}
use trading_system_v.Prelude.Result.{Result, ok, err, value_error, key_error, runtime_error}
use trading_system_v.Prelude.Exec.{Exec, ◌>>=◌, ◌>>◌, check, modify, guard, pure}
use trading_system_v.Money.{Rate, scale, quantize, mul_units}
use trading_system_v.Types.Enums.{
  PositionSide, MarketType, futures, spot, MarginType, isolated, cross, side_eq,
}
use trading_system_v.Types.Position.{Position, add_quantity, reduce_quantity}
use trading_system_v.Types.Position
use trading_system_v.Types.Fill.{Fill}
use trading_system_v.Costs.Liquidation.{is_triggered, price_from_margin}
use text.Mathlib.Text.{◌==◌}

abbrev pub Book : Type 0
Book = String → PositionSide → Option Position

abbrev pub same_key : String → PositionSide → String → PositionSide → Bool
same_key symbol side other_symbol other_side = other_symbol == symbol && side_eq other_side side

-- `self._positions[key] = position`, or `del self._positions[key]` for `none`.
unfoldable pub set : String → PositionSide → Option Position → Book → Book
set symbol side entry book other_symbol other_side =
    if same_key symbol side other_symbol other_side then entry else book other_symbol other_side

-- `__init__`, over the positions that are left: a key may occur once.
unfoldable pub initial : List Position → Book → Result Book
initial [] book = ok book
initial (p ∷ rest) book =
    let added = initial rest (set p.symbol p.side (some p) book) in
    elim (book p.symbol p.side) [
      | some q ↦ err (value_error "duplicate initial position")
      | none ↦ added
    ]

found : String → Option Position → Result Position
found message none = err (key_error message)
found message (some p) = ok p

-- `self._positions[key]`, or a KeyError.
unfoldable pub lookup : String → PositionSide → String → Book → Result Position
unfolding found
lookup symbol side message book = found message (book symbol side)

-- `get`.
unfoldable pub get : String → PositionSide → Book → Option Position
get symbol side book = book symbol side

-- A call on the object that the book holds under the key.
unfoldable pub on_position :
    {A : Type 0} → String → PositionSide → Position → Exec Position A → Exec Book A
on_position symbol side p method book =
    let (result, changed) = method p in (result, set symbol side (some changed) book)

abbrev margin_divisor : MarketType → ℕ → ℕ
margin_divisor futures leverage = leverage
margin_divisor spot leverage = 1

-- quantize(margin + quantity * price / leverage), or without a leverage on the spot market.
unfoldable pub increased_margin : Position → ℤ → ℤ → ℤ
increased_margin p quantity price =
    let leverage = margin_divisor p.market_type p.leverage in
    quantize (p.margin *ℤ pos (leverage * scale) +ℤ quantity *ℤ price) (leverage * scale)

-- The part of `weighted_average` that changes the position.
unfoldable pub increase : ℤ → ℤ → Exec Position ℤ
increase quantity price = do
  add_quantity quantity price
  modify (λ p. record p { margin = increased_margin p quantity price })
  check (λ p. ok p.average_price)

unfoldable pub weighted_average : Fill → Exec Book ℤ
weighted_average fill = do
  p ← check (lookup fill.symbol fill.position_side "no position to increase")
  guard (λ _. fill.reduce_only) "reduce-only fill cannot increase a position"
  on_position fill.symbol fill.position_side p (increase fill.quantity fill.price)

pub drop_flat : String → PositionSide → Book → Book
drop_flat symbol side book = elim (book symbol side) [
  | none ↦ book
  | some p ↦ if eqb_ℤ p.quantity (pos 0) then set symbol side none book else book
]

-- Returns the released margin.
unfoldable pub reduce : Fill → Exec Book ℤ
unfolding drop_flat
reduce fill = do
  guard (λ _. not fill.reduce_only) "position reductions require a reduce-only fill"
  p ← check (lookup fill.symbol fill.position_side "no position to reduce")
  released ← on_position fill.symbol fill.position_side p (reduce_quantity fill.quantity)
  modify (drop_flat fill.symbol fill.position_side)
  pure released

-- The keyword arguments of `apply`.
pub record Opening : Type 0 where
  pub leverage : Option ℕ
  pub margin_type : Option MarginType
  pub market_type : MarketType
  pub liquidation_price : ℤ

opened_terms : Option ℕ → Option MarginType → Result (ℕ × MarginType)
opened_terms (some leverage) (some margin_type) =
    if ltb 0 leverage
    then ok (leverage, margin_type)
    else err (value_error "leverage must be a positive int")
opened_terms _ _ = err (value_error "leverage and margin_type are required when opening a position")

-- The position that a first fill opens.
abbrev pub opened : Fill → Opening → ℕ → MarginType → Position
opened fill o leverage margin_type =
    let notional = mul_units fill.quantity fill.price in
    record {
      wallet_id = none;
      symbol = fill.symbol;
      quantity = fill.quantity;
      average_price = fill.price;
      total_cost = notional;
      current_price = fill.price;
      unrealized_pnl = pos 0;
      side = fill.position_side;
      market_type = o.market_type;
      leverage = leverage;
      margin_type = margin_type;
      margin = elim o.market_type [ futures ↦ quantize notional leverage | spot ↦ notional ];
      entry_price = fill.price;
      mark_price = fill.price;
      liquidation_price = o.liquidation_price;
      funding_fee_total = pos 0;
    }

-- `Position(...)`: its `__post_init__` returns it or raises.
made : Position → Result Position
made p = let (result, q) = Position.post_init p in elim result [ ok u ↦ ok q | err e ↦ err e ]

unfoldable pub open_position : Fill → Opening → Exec Book (Unit {0})
unfolding opened_terms made
open_position fill o = do
  (leverage, margin_type) ← check (λ _. opened_terms o.leverage o.margin_type)
  p ← check (λ _. made (opened fill o leverage margin_type))
  modify (set fill.symbol fill.position_side (some p))

ignore : {A : Type 0} → Exec Book A → Exec Book (Unit {0})
ignore m = m >>= λ _. pure tt

unfoldable pub apply : Fill → Opening → Exec Book (Unit {0})
unfolding ignore
apply fill o = do
  held ← check (λ book. ok (book fill.symbol fill.position_side))
  (elim held [
    | none ↦
        if fill.reduce_only
        then check (λ _. err (key_error "no position to reduce"))
        else open_position fill o
    | some p ↦ if fill.reduce_only then ignore (reduce fill) else ignore (weighted_average fill)
  ])

pub record FundingMarginResult : Type 0 where
  pub theoretical_cost : ℤ
  pub applied_cost : ℤ
  pub exhausted : Bool

not_futures : MarketType → Bool
not_futures futures = false
not_futures spot = true

not_isolated : MarginType → Bool
not_isolated isolated = false
not_isolated cross = true

-- `min(cost, margin) if cost > 0 else cost`.
abbrev pub applied_cost : ℤ → ℤ → ℤ
applied_cost cost margin = if ltb_ℤ (pos 0) cost then min_ℤ cost margin else cost

-- `apply_funding` on a position that is the object of the book.
unfoldable pub fund : ℤ → Rate → Exec Position FundingMarginResult
unfolding not_futures not_isolated
fund cost mmr = do
  guard (λ p. not_futures p.market_type) "funding applies to futures positions only"
  guard (λ p. not_isolated p.margin_type) "funding margin application supports ISOLATED only"
  applied ← check (λ p. ok (applied_cost cost p.margin))
  modify (λ p. record p { margin = p.margin -ℤ applied })
  check (λ p.
      if ltb_ℤ p.margin (pos 0)
      then err (runtime_error "funding must not make isolated margin negative")
      else ok tt)
  modify (λ p. record p { funding_fee_total = p.funding_fee_total +ℤ applied })
  level ← check (λ p. price_from_margin p mmr)
  modify (λ p. record p { liquidation_price = level })
  check (λ p. ok (record {
    theoretical_cost = cost;
    applied_cost = applied;
    exhausted = ltb_ℤ (pos 0) cost && eqb_ℤ p.margin (pos 0);
  }))

active : Option Position → Result Position
active none = err (value_error "funding position must be the active book value")
active (some p) = ok p

-- `apply_funding`, called with the object that the book holds under the key; with any other object
-- the test on the identity raises, as it does here when there is none.
unfoldable pub apply_funding : String → PositionSide → ℤ → Rate → Exec Book FundingMarginResult
unfolding active
apply_funding symbol side cost mmr = do
  p ← check (λ book. active (book symbol side))
  on_position symbol side p (fund cost mmr)

-- `check_liquidation`.
unfoldable pub check_liquidation : Position → ℤ → Result Bool
check_liquidation p market_price = is_triggered p market_price
