-- ===== src/Execution/Book/FundingMargin.antt =====
-- execution/position_book.py `apply_funding`: what funding does to an isolated margin.
use trading_system_v.Prelude.{refl, ◌≢◌, ◌≡◌, ◌↔◌, ◌&&◌, true, false, arith}
use trading_system_v.Prelude.Int.{ -ℤ_parts, ℤ, pos, ◌+ℤ◌, ◌-ℤ◌, ◌≤ℤ◌, ◌<ℤ◌, int_laws, ltb_ℤ, eqb_ℤ}
use trading_system_v.Prelude.Result.{ok}
use trading_system_v.Money.{Rate, den}
use trading_system_v.Types.Enums.{both, futures, isolated}
use trading_system_v.Types.Position.{Position}
use trading_system_v.Costs.Liquidation.{price_from_margin}
use trading_system_v.Costs.Liquidation.Levels.{price_from_margin_exists}
use trading_system_v.Execution.Book.{FundingMarginResult, applied_cost, fund}

-- The collected cost is at most the cost that is due, and at most a margin that is not negative.
applied_bounds :
    (cost margin : ℤ)
    → pos 0 ≤ℤ margin
    → (applied_cost cost margin ≤ℤ cost) × (applied_cost cost margin ≤ℤ margin)
applied_bounds cost margin h = ground arith

-- The position after funding at a liquidation level.
abbrev pub funded : Position → ℤ → ℤ → Position
funded p applied level = record p {
  margin = p.margin -ℤ applied;
  funding_fee_total = p.funding_fee_total +ℤ applied;
  liquidation_price = level;
}

abbrev pub funding_result : Position → ℤ → FundingMarginResult
funding_result p cost = record {
  theoretical_cost = cost;
  applied_cost = applied_cost cost p.margin;
  exhausted = ltb_ℤ (pos 0) cost && eqb_ℤ (p.margin -ℤ applied_cost cost p.margin) (pos 0);
}

is_spent :
    (cost m a : ℤ)
    → a ≡ applied_cost cost m
    → pos 0 ≤ℤ m
    → (((ltb_ℤ (pos 0) cost && eqb_ℤ (m -ℤ a) (pos 0)) ≡ true) ↔ ((pos 0 <ℤ cost) × (m ≤ℤ cost)))
is_spent cost m a e h = ground (arith, -ℤ_parts m a)

-- The call is exhausted exactly when a positive cost takes the whole margin.
pub exhausted_iff :
    (p : Position) (cost : ℤ)
    → pos 0 ≤ℤ p.margin
    → ((funding_result p cost).exhausted ≡ true) ↔ ((pos 0 <ℤ cost) × (p.margin ≤ℤ cost))
exhausted_iff p cost h = is_spent cost p.margin (applied_cost cost p.margin) refl h

abbrev charged : Position → ℤ → Position
charged p applied = record p {
  margin = p.margin -ℤ applied;
  funding_fee_total = p.funding_fee_total +ℤ applied;
}

rest_nonneg :
    (cost margin : ℤ) → pos 0 ≤ℤ margin → ltb_ℤ (margin -ℤ applied_cost cost margin) (pos 0) ≡ false
rest_nonneg cost margin h =
    ground (arith, -ℤ_parts margin (applied_cost cost margin), applied_bounds cost margin h)

fund_lem :
    (p : Position) (cost : ℤ) (mmr : Rate) (level : ℤ)
    → p.market_type ≡ futures
    → p.margin_type ≡ isolated
    → pos 0 ≤ℤ p.margin
    → price_from_margin (charged p (applied_cost cost p.margin)) mmr ≡ ok level
    → fund cost mmr p ≡ (ok (funding_result p cost), funded p (applied_cost cost p.margin) level)
unfolding fund
fund_lem p cost mmr level h k m e = ground (arith, rest_nonneg cost p.margin m)

-- Funding an open, isolated futures position with one direction and a margin that is not
-- negative, at a maintenance rate from zero to below one, always returns: the collected cost is
-- at most the cost that is due, the margin stays at zero or above, the funding total grows by
-- the collected cost, the new liquidation price is not negative, and the result says exhausted
-- exactly when a positive cost is at least the margin.
pub fund_total :
    (p : Position) (cost : ℤ) (mmr : Rate)
    → p.market_type ≡ futures
    → p.margin_type ≡ isolated
    → pos 0 ≤ℤ p.margin
    → pos 0 <ℤ p.quantity
    → pos 0 <ℤ p.entry_price
    → p.side ≢ both
    → pos 0 ≤ℤ mmr.num
    → mmr.num <ℤ pos (den mmr)
    → let a = applied_cost cost p.margin in
      (level : ℤ) × (fund cost mmr p ≡ (ok (funding_result p cost), funded p a level))
      × (pos 0 ≤ℤ level)
      × (a ≤ℤ cost)
      × (pos 0 ≤ℤ (p.margin -ℤ a))
      × (((funding_result p cost).exhausted ≡ true) ↔ ((pos 0 <ℤ cost) × (p.margin ≤ℤ cost)))
fund_total p cost mmr h k m q e s r1 r2 =
    let (le, within) = applied_bounds cost p.margin m in
    let rest : pos 0 ≤ℤ (p.margin -ℤ applied_cost cost p.margin) = omega int_laws in
    let (level, found, nonneg) =
      price_from_margin_exists (charged p (applied_cost cost p.margin)) mmr r1 r2 q e rest s in
    (level, fund_lem p cost mmr level h k m found, nonneg, le, rest, exhausted_iff p cost m)
