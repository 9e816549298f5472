-- ===== src/Execution/Trigger/Bounds.antt =====
-- A triggered order's reference price lies within its bar, and on the right side of its level.
use trading_system_v.Money.{to_decimal}
use trading_system_v.Money.Rounding.{to_decimal-mono}
use trading_system_v.Prelude.{refl, subst, ◌≡◌, some, none, Option, arith}
use trading_system_v.Prelude.Int.{ℤ, ◌≤ℤ◌}
use trading_system_v.Types.Enums.{OrderType, OrderSide, buy, sell}
use trading_system_v.Types.Order.{Order}
use trading_system_v.Types.Candle.{Candle, validate}
use trading_system_v.Prelude.Result.{ok}
use trading_system_v.Execution.Trigger.{
  false, Trigger, by_type, limit_or_raise, stop_or_raise, trigger_reference, limit_trigger,
  stop_trigger, take_profit_trigger,
}

-- What a trigger promises: a price within the bar, and one on the right side of the level.
abbrev pub Within : ℤ → ℤ → Trigger → Type 0
Within low high none = Unit
Within low high (some (r, gap)) = (low ≤ℤ r) × (r ≤ℤ high)

abbrev pub NoWorse : OrderSide → ℤ → Trigger → Type 0
NoWorse side level none = Unit
NoWorse buy level (some (r, gap)) = r ≤ℤ level
NoWorse sell level (some (r, gap)) = level ≤ℤ r

abbrev pub NoBetter : OrderSide → ℤ → Trigger → Type 0
NoBetter side level none = Unit
NoBetter buy level (some (r, gap)) = level ≤ℤ r
NoBetter sell level (some (r, gap)) = r ≤ℤ level

module _ (level open_price high low : ℤ) (above_low : low ≤ℤ open_price)
    (below_high : open_price ≤ℤ high) where
  -- A limit order fills within the bar, at its limit or better for its side.
  pub limit_trigger_bounds :
      (side : OrderSide)
      → let t = limit_trigger side level open_price high low in
        Within low high t × NoWorse side level t
  unfolding limit_trigger
  limit_trigger_bounds buy = ground arith
  limit_trigger_bounds sell = ground arith

  -- A stop order fills within the bar, at its stop or worse for its side.
  pub stop_trigger_bounds :
      (side : OrderSide)
      → let t = stop_trigger side level open_price high low in
        Within low high t × NoBetter side level t
  unfolding stop_trigger
  stop_trigger_bounds buy = ground arith
  stop_trigger_bounds sell = ground arith

  -- A take-profit fills within the bar, at its level or better for its side, and never as a gap.
  pub take_profit_trigger_bounds :
      (side : OrderSide)
      → let t = take_profit_trigger side level open_price high low in
        Within low high t × NoWorse side level t
  unfolding take_profit_trigger
  take_profit_trigger_bounds buy = ground arith
  take_profit_trigger_bounds sell = ground arith

-- By the type of the order: a limit or a take-profit is filled no worse than its level, a stop no
-- better than its level, a market order at the open.
abbrev pub IsFair : OrderType → OrderSide → Option ℤ → Option ℤ → Trigger → Type 0
IsFair OrderType.limit side (some p) stop t = NoWorse side p t
IsFair OrderType.stop_market side price (some s) t = NoBetter side s t
IsFair OrderType.take_profit_market side price (some s) t = NoWorse side s t
IsFair OrderType.market side price stop (some (r, gap)) = gap ≡ false
IsFair _ side price stop t = Unit

some_market : (op : ℤ) (t : Trigger) → ok (some (op, false)) ≡ ok t → some (op, false) ≡ t
some_market op t e = cc

by_type-IsFair :
    (kind : OrderType) (o : Order) (op h l : ℤ) (price stop : Option ℤ) (t : Trigger)
    → l ≤ℤ op
    → op ≤ℤ h
    → o.price ≡ price
    → o.stop_price ≡ stop
    → by_type kind o op h l ≡ ok t
    → Within l h t × IsFair kind o.side price stop t
unfolding by_type limit_or_raise stop_or_raise
by_type-IsFair OrderType.market o op h l price stop t a b ep es e =
    subst (λ u. Within l h u × IsFair OrderType.market o.side price stop u) (some_market op t e)
      ((a, b), refl)
by_type-IsFair OrderType.limit o op h l none stop t a b ep es e = cc
by_type-IsFair OrderType.limit o op h l (some p) stop t a b ep es e =
    subst (λ u. Within l h u × NoWorse o.side p u) (cc) (limit_trigger_bounds p op h l a b o.side)
by_type-IsFair OrderType.stop_market o op h l price none t a b ep es e = cc
by_type-IsFair OrderType.stop_market o op h l price (some s) t a b ep es e =
    subst (λ u. Within l h u × NoBetter o.side s u) (cc) (stop_trigger_bounds s op h l a b o.side)
by_type-IsFair OrderType.take_profit_market o op h l price none t a b ep es e = cc
by_type-IsFair OrderType.take_profit_market o op h l price (some s) t a b ep es e =
    subst (λ u. Within l h u × NoWorse o.side s u) (cc)
      (take_profit_trigger_bounds s op h l a b o.side)
by_type-IsFair OrderType.trailing_stop_market o op h l price none t a b ep es e = cc
by_type-IsFair OrderType.trailing_stop_market o op h l price (some s) t a b ep es e = cc

-- The prices of a validated candle are in order once they are in units: low, open and close, high.
pub validate-order :
    (c : Candle)
    → validate c ≡ ok tt
    → (to_decimal c.low ≤ℤ to_decimal c.opening)
      × (to_decimal c.opening ≤ℤ to_decimal c.high)
      × (to_decimal c.low ≤ℤ to_decimal c.close)
      × (to_decimal c.close ≤ℤ to_decimal c.high)
unfolding validate
validate-order c v = (
  to_decimal-mono c.low c.opening (ground arith),
  to_decimal-mono c.opening c.high (ground arith),
  to_decimal-mono c.low c.close (ground arith),
  to_decimal-mono c.close c.high (ground arith),
)

-- On a validated candle a trigger has a reference price between the low and the high of the
-- candle, and one that is no worse than the level for a limit or a take-profit order and no
-- better than the level for a stop order.
pub trigger_reference-IsFair :
    (o : Order) (c : Candle) (t : Trigger)
    → validate c ≡ ok tt
    → trigger_reference o c ≡ ok t
    → Within (to_decimal c.low) (to_decimal c.high) t
      × IsFair o.order_type o.side o.price o.stop_price t
unfolding trigger_reference
trigger_reference-IsFair o c t v e =
    let (a, b, _, _) = validate-order c v in
    by_type-IsFair o.order_type o (to_decimal c.opening) (to_decimal c.high) (to_decimal c.low)
      o.price o.stop_price t a b refl refl e
