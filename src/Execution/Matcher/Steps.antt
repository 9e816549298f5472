-- ===== src/Execution/Matcher/Steps.antt =====
-- What the loop of `match` settles on, and what the steps of a `match` that returned gave.
use trading_system_v.Prelude.{
  if◌then◌else◌, ◌≡◌, ◌∙◌, ap, subst, arith, Bool, Option, some, none, true, false, List, zero, suc,
  ℕ,
}
use trading_system_v.Prelude.Int.{ℤ, pos, ◌≤ℤ◌, ◌<ℤ◌, int_laws, min_ℤ, eqb_ℤ, ltb_ℤ, leb_ℤ}
use trading_system_v.Prelude.Result.{ok-injective, Result, ok, >>=-eq-ok, raise_if}
use trading_system_v.Types.Enums.{is_terminal}
use trading_system_v.Types.Order.{Order, remaining_quantity}
use trading_system_v.Types.Candle.{Candle}
use trading_system_v.Types.Fill.{Fill}
use trading_system_v.Costs.Model.{CostModel}
use trading_system_v.Execution.Trigger.{
  HistoryItem, FillTiming, Execution, Trigger, execution_candle, trigger_reference,
}
use trading_system_v.Execution.Pricing.{execution_price, fill}
use trading_system_v.Execution.Pricing.Filled.{execution_price_lem}
use trading_system_v.Execution.Matcher.{
  Limits, recompute_qty_and_stop, converge, triggered_or_raise, is_market, entry_margin,
  truncated_order, check_cash, match,
}

settled :
    (same : Bool) (next q : ℤ) (t : Option ℤ) (again : Result (ℤ × Option ℤ)) (q' : ℤ)
    (s : Option ℤ)
    → pos 0 <ℤ q
    → next ≤ℤ q
    → (again ≡ ok (q', s) → (pos 0 <ℤ q') × (q' ≤ℤ next))
    → (if same then ok (q, t) else again) ≡ ok (q', s)
    → (pos 0 <ℤ q') × (q' ≤ℤ q)
settled true next q t again q' s positive le rest h =
    let e = ap (λ x. x.0) (ok-injective h) in
    subst (λ x. (pos 0 <ℤ x) × (x ≤ℤ q)) e (positive, omega (int_laws))
settled false next q t again q' s positive le rest h = let (p, u) = rest h in (p, ground arith)

-- A quantity that the loop of match settles on is positive and at most the quantity that the
-- loop starts from.
pub converge_bounds :
    (n : ℕ) (o : Order) (ref : ℤ) (gap : Bool) (l : Limits) (m : CostModel) (q q' : ℤ)
    (s : Option ℤ)
    → converge n o ref gap l m q ≡ ok (q', s)
    → (pos 0 <ℤ q') × (q' ≤ℤ q)
unfolding converge
converge_bounds zero o ref gap l m q q' s h = cc
converge_bounds (suc n) o ref gap l m q q' s h =
    let ((p, x), hp, h1) = >>=-eq-ok (execution_price o ref q m gap) _ h in
    let ((rec, t), hr, h2) = >>=-eq-ok (recompute_qty_and_stop o p l m) _ h1 in
    let (positive, _, _, _) = execution_price_lem o ref q m gap p x hp in
    settled (eqb_ℤ (min_ℤ q rec) q) (min_ℤ q rec) q t (converge n o ref gap l m (min_ℤ q rec)) q' s
      positive (ground arith) (converge_bounds n o ref gap l m (min_ℤ q rec) q' s) h2

-- The reference price that `match` fills at.
abbrev pub reference_of : Order → Execution → ℤ × Bool → ℤ
reference_of o execution hit = if is_market o.order_type then execution.reference else hit.0

hit_of : (t : Trigger) (hit : ℤ × Bool) → triggered_or_raise t ≡ ok hit → t ≡ some hit
unfolding triggered_or_raise
hit_of none hit h = cc
hit_of (some x) hit h = cc

-- What the steps of a successful `match` returned.
pub record Steps (o : Order) (c : Candle) (h : List HistoryItem) (m : CostModel) (t : FillTiming)
    (l : Limits) (f : Fill) (o' : Order) : Type 0 where
  pub execution : Execution
  pub trigger : ℤ × Bool
  pub quantity : ℤ
  pub new_stop : Option ℤ
  pub passed : Unit {0}
  pub active : is_terminal o.status ≡ false
  pub executes : execution_candle c h t ≡ ok execution
  pub triggers : trigger_reference o execution.candle ≡ ok (some trigger)
  pub converges :
      converge 32 o
        (reference_of o execution trigger)
        trigger.1
        (record l { available_margin = entry_margin o l.available_margin })
        m
        (remaining_quantity o)
      ≡ ok (quantity, new_stop)
  pub affordable :
      check_cash
        (entry_margin o l.available_margin)
        (truncated_order o quantity new_stop)
        (reference_of o execution trigger)
        quantity
        trigger.1
        l.leverage
        m
      ≡ ok passed
  pub fills :
      fill
        (truncated_order o quantity new_stop)
        (record {
          reference = reference_of o execution trigger;
          quantity = quantity;
          timestamp = execution.timestamp;
          gap_filled = trigger.1;
          qty_truncated = ltb_ℤ quantity (remaining_quantity o);
          exit_reason = none;
        })
        m
      ≡ ok (f, o')

pub match-Steps :
    (o : Order) (c : Candle) (h : List HistoryItem) (m : CostModel) (t : FillTiming) (l : Limits)
    (f : Fill) (o' : Order)
    → match o c h m t l ≡ ok (f, o')
    → Steps o c h m t l f o'
unfolding match
match-Steps o c h m t l f o' e0 =
    let (_, ha, e1) =
      >>=-eq-ok (raise_if (is_terminal o.status) "terminal orders cannot be matched") _ e0 in
    let (execution, he, e2) = >>=-eq-ok (execution_candle c h t) _ e1 in
    let (tr, ht, e3) = >>=-eq-ok (trigger_reference o execution.candle) _ e2 in
    let (hit, hh, e4) = >>=-eq-ok (triggered_or_raise tr) _ e3 in
    let ((q, s), hc, e5) =
      >>=-eq-ok
        (converge 32 o (reference_of o execution hit) hit.1
          (record l { available_margin = entry_margin o l.available_margin }) m
          (remaining_quantity o))
        _ e4 in
    let (_, hq, e6) =
      >>=-eq-ok (raise_if (leb_ℤ q (pos 0)) "available risk or margin truncates the order to zero")
        _ e5 in
    let (u, hk, e7) =
      >>=-eq-ok
        (check_cash (entry_margin o l.available_margin) (truncated_order o q s)
          (reference_of o execution hit) q hit.1 l.leverage m)
        _ e6 in
    record {
      execution = execution;
      trigger = hit;
      quantity = q;
      new_stop = s;
      passed = u;
      active = ground arith;
      executes = he;
      triggers = ht ∙ ap ok (hit_of tr hit hh);
      converges = hc;
      affordable = hk;
      fills = e7;
    }
