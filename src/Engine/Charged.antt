-- ===== src/Engine/Charged.antt =====
-- engine.py `_settle_at_boundary`: what the charge of a due boundary does to the position, the trade
-- and the ledger.
use trading_system_v.Engine.Run.{IsRun}
use trading_system_v.Prelude.{
  arith, ℕ, ◌≡◌, ◌∙◌, refl, sym, ap, subst, true, false, if◌then◌else◌, some,
}
use trading_system_v.Prelude.Int.{ℤ, pos, ◌+ℤ◌, ◌-ℤ◌, ◌≤ℤ◌, int_laws, eq_of_parts}
use trading_system_v.Prelude.Result.{ok, ok-injective}
use trading_system_v.Types.Position.{Position}
use trading_system_v.Costs.Model.{CostModel}
use trading_system_v.Costs.Funding.{settle, is_boundary}
use trading_system_v.Execution.Book.{get, FundingMarginResult}
use trading_system_v.Execution.Book.Keyed.{IsCharged, charged-IsKeyed, charged-IsSound}
use trading_system_v.Execution.Book.Writes.{Writes, set-Writes, self_key}
use trading_system_v.Execution.Book.FundingMargin.{funded, funding_result}
use trading_system_v.Types.Enums.{futures}
use trading_system_v.Costs.Funding.{elem}
use trading_system_v.Execution.Book.{applied_cost}
use trading_system_v.Engine.{PriceSource, RateSource}
use trading_system_v.Money.{Rate}
use trading_system_v.Prelude.Int.{◌<ℤ◌}
use trading_system_v.Prelude.{◌<◌, List}
use trading_system_v.Prelude.{◌∷◌}
use trading_system_v.Engine.Held.{one_written, own_key}
use trading_system_v.Engine.{RunConfig, Environment, ActiveTrade, Engine, current_position}
use trading_system_v.Engine.Fills.{margin_of}
use trading_system_v.Engine.Entries.{costs_of}
use trading_system_v.Engine.Ledger.{IsBalanced, booked_costs}
use trading_system_v.Engine.Funding.{funding_price, rate_at}

charge_sum :
    (cash margin margin' applied fee funding booked : ℤ)
    → margin' ≡ margin -ℤ applied
    → cash +ℤ margin' +ℤ (fee +ℤ (funding +ℤ applied)) +ℤ booked
      ≡ cash +ℤ margin +ℤ (fee +ℤ funding) +ℤ booked
charge_sum cash margin margin' applied fee funding booked h =
    rw h (eq_of_parts _ _ (omega int_laws))

charged_sums :
    (config : RunConfig) (e e' : Engine) (p : Position) (a a' : ActiveTrade)
    (r : FundingMarginResult) (total : ℤ) (after : Position)
    → IsBalanced config e total
    → current_position config e ≡ ok (some p)
    → e.active_trade ≡ some a
    → e'.cash ≡ e.cash
    → e'.trades ≡ e.trades
    → e'.active_trade ≡ some a'
    → a'.total_fee ≡ a.total_fee
    → a'.funding ≡ a.funding +ℤ r.applied_cost
    → after.margin ≡ p.margin -ℤ r.applied_cost
    → e'.cash +ℤ after.margin +ℤ costs_of e'.active_trade +ℤ booked_costs e'.trades ≡ total
charged_sums config e e' p a a' r total after balanced one active cash trades active' fee funding
      margin =
    let same : balanced.position ≡ some p = ok-injective (sym balanced.held ∙ one) in
    let before : e.cash +ℤ p.margin +ℤ costs_of (some a) +ℤ booked_costs e.trades ≡ total =
      subst (λ o. e.cash +ℤ p.margin +ℤ costs_of o +ℤ booked_costs e.trades ≡ total) active
        (subst
          (λ o. e.cash +ℤ margin_of o +ℤ costs_of e.active_trade +ℤ booked_costs e.trades ≡ total)
          same balanced.sum) in
    rw (cash, trades, active', fee, funding)
      (charge_sum e.cash p.margin after.margin r.applied_cost a.total_fee a.funding
          (booked_costs e.trades) margin
        ∙ before)

-- A charge moves the collected cost from the margin to the costs of the trade.
pub charged-IsRun :
    (config : RunConfig) (p : Position) (a : ActiveTrade) (a' : ActiveTrade) (cost : ℤ)
    (r : FundingMarginResult) (e e' : Engine) (total : ℤ)
    → IsRun config e total
    → current_position config e ≡ ok (some p)
    → e.active_trade ≡ some a
    → IsCharged p.symbol p.side cost e.book e'.book r
    → e'.cash ≡ e.cash
    → e'.trades ≡ e.trades
    → e'.active_trade ≡ some a'
    → (a'.total_fee ≡ a.total_fee) × (a'.funding ≡ a.funding +ℤ r.applied_cost)
    → IsRun config e' total
unfolding current_position get
charged-IsRun config p a a' cost r e e' total run one active c cash trades active' (fee, funding) =
    let (symbol, direction, own) = own_key config e p run.keyed one in
    let w = set-Writes p.symbol p.side (some c.after) e.book e'.book c.written in
    let (same, held) =
      one_written config.symbol p.side e.book e'.book c.before p (some c.after) direction one
        (subst (λ s. e.book s p.side ≡ some c.before) symbol c.held)
        (subst (λ s. Writes s p.side (some c.after) e.book e'.book) symbol w) in
    let collected = ap (λ (x : FundingMarginResult). x.applied_cost) c.funded.result in
    let margin : c.after.margin ≡ p.margin -ℤ r.applied_cost =
      ap (λ (x : Position). x.margin) c.funded.position
      ∙ ap (λ x. c.before.margin -ℤ x) (sym collected)
      ∙ ap (λ (x : Position). x.margin -ℤ r.applied_cost) same in
    record {
      sound = charged-IsSound p.symbol p.side cost e.book e'.book r run.sound c;
      keyed = charged-IsKeyed p.symbol p.side cost e.book e'.book r run.keyed c;
      cash_nonneg = subst (λ x. pos 0 ≤ℤ x) (sym cash) run.cash_nonneg;
      balanced = record {
        position = some c.after;
        held = held;
        sum =
            charged_sums config e e' p a a' r total c.after run.balanced one active cash trades
              active' fee funding margin;
      };
    }

-- The held position and the open trade at a boundary that is due: a settlement time of a futures
-- run, after the entry, which the trade has not settled yet.
pub record IsDue (config : RunConfig) (boundary : ℕ) (e : Engine) (p : Position) (a : ActiveTrade)
    : Type 0 where
  pub future : config.market_type ≡ futures
  pub on_boundary : is_boundary boundary ≡ true
  pub held : current_position config e ≡ ok (some p)
  pub active : e.active_trade ≡ some a
  pub entered : a.entry_fill.timestamp < boundary
  pub unsettled : elem boundary a.settled_boundaries ≡ false

between : (a b : ℤ) → a ≤ℤ b → b ≤ℤ a → a ≡ b
between a b le ge = eq_of_parts a b (omega arith)

-- A positive cost takes the whole margin.
abbrev pub Exhausts : Position → ℤ → Type 0
Exhausts p cost = (pos 0 <ℤ cost) × (p.margin ≤ℤ cost)

module _ (environment : Environment) (config : RunConfig) (model : CostModel) where
  -- The charge of a due boundary: the cost of the position at the boundary's rate and price, of
  -- which at most the margin is collected, from the margin, and booked as the funding of the trade.
  pub record Charge (boundary : ℕ) (e mid : Engine) (cost : ℤ) : Type 0 where
    pub before : Position
    pub after : Position
    pub opened : ActiveTrade
    pub settled : ActiveTrade
    pub price : ℤ × PriceSource
    pub level : ℤ
    pub collected : ℤ
    pub due : IsDue config boundary e before opened
    pub priced : funding_price boundary e ≡ ok price
    pub costed :
        settle before (rate_at environment config model before.symbol boundary e).0 price.0
        ≡ ok cost
    pub whole : cost ≤ℤ before.margin → collected ≡ cost
    pub short : before.margin ≤ℤ cost → collected ≡ before.margin
    pub charged : after ≡ funded before collected level
    pub held : current_position config mid ≡ ok (some after)
    pub active : mid.active_trade ≡ some settled
    pub funding : settled.funding ≡ opened.funding +ℤ collected
    pub fees : settled.total_fee ≡ opened.total_fee
    pub marked : settled.settled_boundaries ≡ boundary ∷ opened.settled_boundaries
    pub cash : mid.cash ≡ e.cash
    pub trades : mid.trades ≡ e.trades

  pub collected_whole : (cost m : ℤ) → pos 0 ≤ℤ m → cost ≤ℤ m → applied_cost cost m ≡ cost
  collected_whole cost m h le = between (applied_cost cost m) cost (ground arith) (ground arith)

  pub collected_short : (cost m : ℤ) → pos 0 ≤ℤ m → m ≤ℤ cost → applied_cost cost m ≡ m
  collected_short cost m h le = between (applied_cost cost m) m (ground arith) (ground arith)

  pub same_price :
      (boundary : ℕ) (e : Engine) (rates : List (ℕ × (Rate × RateSource)))
      → funding_price boundary (record e { funding_rates = rates }) ≡ funding_price boundary e
  unfolding funding_price
  same_price boundary e rates = refl

  -- The position that the book holds after a charge, and what was collected from it.
  pub charged_position :
      (p : Position) (cost : ℤ) (r : FundingMarginResult) (e e' : Engine) (total : ℤ)
      → IsRun config e total
      → current_position config e ≡ ok (some p)
      → IsCharged p.symbol p.side cost e.book e'.book r
      → (q : Position) × (level : ℤ) × (q ≡ funded p (applied_cost cost p.margin) level)
        × (r ≡ funding_result p cost)
        × (current_position config e' ≡ ok (some q))
        × (e'.book p.symbol p.side ≡ some q)
        × (pos 0 ≤ℤ p.margin)
  unfolding current_position get
  charged_position p cost r e e' total run one c =
      let (symbol, direction, own) = own_key config e p run.keyed one in
      let w = set-Writes p.symbol p.side (some c.after) e.book e'.book c.written in
      let (same, held) =
        one_written config.symbol p.side e.book e'.book c.before p (some c.after) direction one
          (subst (λ s. e.book s p.side ≡ some c.before) symbol c.held)
          (subst (λ s. Writes s p.side (some c.after) e.book e'.book) symbol w) in
      (
        c.after,
        c.funded.level,
        subst (λ x. c.after ≡ funded x (applied_cost cost x.margin) c.funded.level) same
            c.funded.position,
        subst (λ x. r ≡ funding_result x cost) same c.funded.result,
        held,
        w p.symbol p.side
            ∙ ap (λ k. if k then some c.after else e.book p.symbol p.side)
                (self_key p.symbol p.side),
        (run.sound p.symbol p.side p own).valid.margin_nonneg,
      )
