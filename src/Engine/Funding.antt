-- ===== src/Engine/Funding.antt =====
-- engine.py: `_settle_at_boundary` and `_funding_price`, the funding of the held position.
use trading_system_v.Prelude.{
  ℕ, ◌+◌, Bool, true, false, not, ◌&&◌, if◌then◌else◌, Option, none, some, List, [], ◌∷◌, leb, ltb,
  ◌==◌,
}
use mathlib.Core.List.{◌++◌}
use trading_system_v.Prelude.Int.{ℤ, neg, ◌+ℤ◌}
use trading_system_v.Prelude.Result.{Result, ok, err, lookup_error}
use trading_system_v.Prelude.Exec.{Exec, ◌>>=◌, ◌>>◌, check, modify}
use trading_system_v.Money.{Rate, to_decimal}
use trading_system_v.Types.Enums.{MarketType, futures, spot}
use trading_system_v.Types.Position.{Position}
use trading_system_v.Types.Candle.{Candle}
use trading_system_v.Costs.Model.{CostModel}
use trading_system_v.Costs.Funding.{settle, is_boundary, elem}
use trading_system_v.Execution.Book.{apply_funding, FundingMarginResult}
use trading_system_v.Execution.Protection.{liquidation_fill}
use trading_system_v.Engine.{
  String, RunConfig, Environment, EvidenceRecord, action_decision, funding_settlement, RateSource,
  measured, fallback, PriceSource, boundary_open, prev_close, ActiveTrade, Engine, record_evidence,
  next_decision, next_settlement, current_position, maintenance_margin_rate, on_book,
}
use trading_system_v.Engine.Fills.{apply_fill}

-- The first candle that opens at the boundary.
unfoldable pub opening_at : ℕ → List Candle → Option Candle
opening_at boundary [] = none
opening_at boundary (c ∷ cs) =
    let later = opening_at boundary cs in if c.open_time == boundary then some c else later

-- The last of the candles that pass the test.
unfoldable pub last_where : (Candle → Bool) → List Candle → Option Candle
last_where test [] = none
last_where test (c ∷ cs) =
    let later = last_where test cs in
    elim later [ some d ↦ some d | none ↦ if test c then some c else none ]

abbrev minutes_or_history : List Candle → List Candle → List Candle
minutes_or_history [] history = history
minutes_or_history (c ∷ cs) history = c ∷ cs

closing : Option Candle → Result (ℤ × PriceSource)
closing none = err (lookup_error "no settlement price at or before the boundary")
closing (some c) = ok (to_decimal c.close, prev_close)

abbrev or_else : Option Candle → Option Candle → Option Candle
or_else none other = other
or_else (some c) other = some c

-- `_funding_price`: the open at the boundary, or the close of the last candle before it.
unfoldable pub funding_price : ℕ → Engine → Result (ℤ × PriceSource)
unfolding closing
funding_price boundary e =
    let source = minutes_or_history e.minute_history e.history in
    elim (opening_at boundary source) [
      | some c ↦ ok (to_decimal c.opening, boundary_open)
      | none ↦ closing (
          or_else (last_where (λ c. leb c.close_time boundary) source)
            (last_where (λ c. ltb c.open_time boundary) e.history))
    ]

-- `self._funding_rates.get(boundary)`.
unfoldable pub cached_rate : ℕ → List (ℕ × (Rate × RateSource)) → Option (Rate × RateSource)
cached_rate boundary [] = none
cached_rate boundary ((at, rate) ∷ rates) =
    let later = cached_rate boundary rates in if at == boundary then some rate else later

abbrev pub is_futures : MarketType → Bool
is_futures futures = true
is_futures spot = false

-- The funding that the trade has been charged at one boundary.
abbrev pub charged_trade : ℕ → FundingMarginResult → EvidenceRecord → ActiveTrade → ActiveTrade
charged_trade boundary f r a = record a {
  funding = a.funding +ℤ f.applied_cost;
  settled_boundaries = boundary ∷ a.settled_boundaries;
  funding_records = a.funding_records ++ r ∷ [];
}

abbrev pub charge_trade :
    ActiveTrade → ℕ → Rate × RateSource → ℤ × PriceSource → FundingMarginResult → Engine → Engine
charge_trade a boundary (rate, source) (price, price_source) funding e =
    let (n, e') = next_settlement e in
    let r =
      funding_settlement n a.trade_id boundary rate source price price_source
        (neg funding.applied_cost) (neg funding.theoretical_cost) in
    record e' { active_trade = some (charged_trade boundary funding r a) }

-- What the engine holds back of a boundary: no position or trade, an entry at or after it, or a
-- boundary that is settled.
abbrev pub is_due : ℕ → ActiveTrade → Bool
is_due boundary a = ltb a.entry_fill.timestamp boundary && not (elem boundary a.settled_boundaries)

abbrev pub now_held : Position → Option Position → Position
now_held p none = p
now_held p (some q) = q

module _ (environment : Environment) (config : RunConfig) (model : CostModel) where
  -- The rate of the feed, or of the cost model where the feed has none.
  unfoldable pub fetched_rate : String → ℕ → Rate × RateSource
  fetched_rate symbol boundary = elim (environment.feed_funding symbol boundary) [
    | some r ↦ (r, measured)
    | none ↦ (model.funding_rate boundary, fallback)
  ]

  -- The rate that was kept for the boundary, or the one that is fetched and kept for it now.
  unfoldable pub rate_at : String → ℕ → Engine → Rate × RateSource
  rate_at symbol boundary e = elim (cached_rate boundary e.funding_rates) [
    | some rate ↦ rate
    | none ↦ fetched_rate symbol boundary
  ]

  unfoldable pub rates_after : String → ℕ → Engine → List (ℕ × (Rate × RateSource))
  rates_after symbol boundary e = elim (cached_rate boundary e.funding_rates) [
    | some rate ↦ e.funding_rates
    | none ↦ (boundary, fetched_rate symbol boundary) ∷ e.funding_rates
  ]

  -- The exit of a position whose margin the funding has used up.
  unfoldable pub liquidate : Position → ℤ → ℕ → Exec Engine (Unit {0})
  liquidate p price boundary e =
      let (n, e') = next_decision e in
      let at = boundary + 1000 in
      let decided =
        record_evidence
          (action_decision n none boundary "exit" p.side (environment.float_of p.quantity)
            (some at))
          e' in
      (check (λ _. liquidation_fill environment.exit_id p price at model) >>= λ fill.
      apply_fill config model fill (some n) none none)
        decided

  unfoldable pub after_charge : Bool → Position → ℤ → ℕ → Exec Engine (Unit {0})
  after_charge true p price boundary e = liquidate p price boundary e
  after_charge false p price boundary e = (ok tt, e)

  -- The settlement of a due boundary.
  unfoldable pub settle_due : Position → ActiveTrade → ℕ → Exec Engine (Unit {0})
  settle_due p a boundary e =
      let (rate, source) = rate_at p.symbol boundary e in
      (do
        modify (λ e. record e { funding_rates = rates_after p.symbol boundary e })
        (price, price_source) ← check (funding_price boundary)
        theoretical ← check (λ _. settle p rate price)
        mmr ← check (λ _. maintenance_margin_rate model)
        funding ← on_book (apply_funding p.symbol p.side theoretical mmr)
        modify (charge_trade a boundary (rate, source) (price, price_source) funding)
        (λ e.
            after_charge funding.exhausted (now_held p (e.book p.symbol p.side)) price boundary e))
        e

  unfoldable pub settle_held : Option Position → Option ActiveTrade → ℕ → Exec Engine (Unit {0})
  settle_held (some p) (some a) boundary e =
      if is_due boundary a then settle_due p a boundary e else (ok tt, e)
  settle_held _ _ boundary e = (ok tt, e)

  -- `_settle_at_boundary`.
  unfoldable pub settle_at_boundary : ℕ → Exec Engine (Unit {0})
  unfolding settle_held
  settle_at_boundary boundary e =
      if is_futures config.market_type && is_boundary boundary
      then (check (current_position config) >>= λ p. settle_held p e.active_trade boundary) e
      else (ok tt, e)
