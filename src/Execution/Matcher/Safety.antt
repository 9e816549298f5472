-- ===== src/Execution/Matcher/Safety.antt =====
-- What `match` promises of a fill that it returns.
use trading_system_v.Prelude.{
  inr, inl, Bool-cases, if◌then◌else◌, ◌≡◌, ◌∙◌, ap, sym, refl, subst, arith, Bool, Option, some,
  List, ℕ,
}
use trading_system_v.Prelude.Int.{eq_of_parts, ℤ, pos, ◌+ℤ◌, ◌-ℤ◌, ◌≤ℤ◌, ◌<ℤ◌, int_laws, ltb_ℤ}
use trading_system_v.Prelude.Result.{ok-injective, ok, err, >>=-eq-ok}
use trading_system_v.Types.Enums.{filled}
use trading_system_v.Types.Order.{Order, remaining_quantity}
use trading_system_v.Types.Candle.{Candle}
use trading_system_v.Types.Fill.{Fill}
use trading_system_v.Costs.Model.{CostModel}
use trading_system_v.Execution.Trigger.{
  HistoryItem, FillTiming, Execution, execution_candle, trigger_reference,
}
use trading_system_v.Execution.Pricing.{execution_price}
use trading_system_v.Execution.Pricing.Filled.{fill-IsFilled, execution_price_lem, AtOrBeyond}
use trading_system_v.Money.{Rate, quantize, mul_units, mul_rate}
use trading_system_v.Costs.Fee
use trading_system_v.Execution.Affordable.Largest.{cash_need}
use trading_system_v.Execution.Affordable.{entry_cash_requirement}
use trading_system_v.Execution.Matcher.{
  runtime_error, Limits, entry_margin, truncated_order, check_cash, match,
}
use trading_system_v.Execution.Matcher.Steps.{reference_of, match-Steps, converge_bounds}

cut_sum : (w f q : ℤ) → q ≤ℤ w -ℤ f → (if ltb_ℤ q (w -ℤ f) then f +ℤ q else w) ≡ f +ℤ q
cut_sum w f q h = elim (Bool-cases (ltb_ℤ q (w -ℤ f))) [
  | inl e ↦ rw e refl
  | inr e ↦ let le : w -ℤ f ≤ℤ q = ground arith in rw e (eq_of_parts w (f +ℤ q) (omega int_laws))
]

cut_amount :
    (o : Order) (q : ℤ) (s : Option ℤ)
    → q ≤ℤ remaining_quantity o
    → (truncated_order o q s).quantity ≡ o.filled_quantity +ℤ q
unfolding remaining_quantity
cut_amount o q s h = cut_sum o.quantity o.filled_quantity q h

-- A fill of `match`: the bar that executes the order and the trigger of the order in that bar.
pub record IsMatched (o : Order) (c : Candle) (h : List HistoryItem) (t : FillTiming) (f : Fill)
    (o' : Order) : Type 0 where
  execution : Execution
  trigger : ℤ × Bool
  executes : execution_candle c h t ≡ ok execution
  triggers : trigger_reference o execution.candle ≡ ok (some trigger)
  reference : f.reference_price ≡ reference_of o execution trigger
  against : AtOrBeyond o.side f.reference_price f.price
  above_zero : pos 0 <ℤ f.price
  some_quantity : pos 0 <ℤ f.quantity
  not_over : f.quantity ≤ℤ remaining_quantity o
  symbol : f.symbol ≡ o.symbol
  status : o'.status ≡ filled
  whole : o'.filled_quantity ≡ o'.quantity
  booked : o'.filled_quantity ≡ o.filled_quantity +ℤ f.quantity

-- A fill that match returns executes in the candle that _execution_candle chose, at the trigger
-- of the order there; it is for a positive quantity of at most what the order had left, at a
-- positive price that is the reference or worse for the side, and leaves the order FILLED for
-- its whole quantity, which is what was filled before and this fill.
pub match-IsMatched :
    (o : Order) (c : Candle) (h : List HistoryItem) (m : CostModel) (t : FillTiming) (l : Limits)
    (f : Fill) (o' : Order)
    → match o c h m t l ≡ ok (f, o')
    → IsMatched o c h t f o'
match-IsMatched o c h m t l f o' e =
    let steps = match-Steps o c h m t l f o' e in
    let ref = reference_of o steps.execution steps.trigger in
    let facts =
      fill-IsFilled (truncated_order o steps.quantity steps.new_stop) _ m f o' steps.fills in
    let (slip, priced) = facts.priced in
    let (_, above_zero, _, against) =
      execution_price_lem (truncated_order o steps.quantity steps.new_stop) ref steps.quantity m
        steps.trigger.1 f.price slip priced in
    let (positive, le) =
      converge_bounds 32 o ref steps.trigger.1 _ m (remaining_quantity o) steps.quantity
        steps.new_stop steps.converges in
    let same = facts.quantity in
    record {
      execution = steps.execution;
      trigger = steps.trigger;
      executes = steps.executes;
      triggers = steps.triggers;
      reference = facts.reference;
      against = subst (λ r. AtOrBeyond o.side r f.price) (sym facts.reference) against;
      above_zero = above_zero;
      some_quantity = subst (λ x. pos 0 <ℤ x) (sym same) positive;
      not_over = subst (λ x. x ≤ℤ remaining_quantity o) (sym same) le;
      symbol = facts.symbol;
      status = facts.status;
      whole = facts.whole;
      booked =
          facts.whole
          ∙ facts.kept
          ∙ cut_amount o steps.quantity steps.new_stop le
          ∙ ap (λ x. o.filled_quantity +ℤ x) (sym same);
    }

within_cash :
    (a r : ℤ) (u : Unit {0})
    → (if ltb_ℤ a r
        then err (runtime_error "truncated entry still exceeds available cash")
        else ok tt)
      ≡ ok u
    → r ≤ℤ a
within_cash a r u h = ground arith

check_cash_lem :
    (a : ℤ) (o : Order) (ref q : ℤ) (gap : Bool) (lev : ℕ) (m : CostModel) (u : Unit {0})
    → check_cash (some a) o ref q gap lev m ≡ ok u
    → (p s r : ℤ) × (execution_price o ref q m gap ≡ ok (p, s))
      × (entry_cash_requirement o p q m lev ≡ ok r)
      × (r ≤ℤ a)
unfolding check_cash
check_cash_lem a o ref q gap lev m u h =
    let ((p, s), hp, h1) = >>=-eq-ok (execution_price o ref q m gap) _ h in
    let (r, hr, h2) = >>=-eq-ok (entry_cash_requirement o p q m lev) _ h1 in
    (p, s, r, hp, hr, within_cash a r u h2)

same_requirement :
    (o : Order) (q s : ℤ) (n : Option ℤ) (p : ℤ) (m : CostModel) (lev : ℕ)
    → entry_cash_requirement (truncated_order o q n) p q m lev ≡ entry_cash_requirement o p q m lev
unfolding entry_cash_requirement
same_requirement o q s n p m lev = refl

fee_of : (n : ℤ) (rate : Rate) (fee : ℤ) → Fee.calc n rate ≡ ok fee → fee ≡ mul_rate n rate
unfolding Fee.calc
fee_of n rate fee h = ground arith

-- What the cash of an entry pays for: its margin, and the fee of the notional twice.
requirement_parts :
    (o : Order) (p q : ℤ) (m : CostModel) (lev : ℕ) (r : ℤ)
    → entry_cash_requirement o p q m lev ≡ ok r
    → (rate : Rate) × (m.fee o.symbol (mul_units p q) ≡ ok rate) × (r ≡ cash_need p rate lev q)
unfolding entry_cash_requirement cash_need Fee.calc
requirement_parts o p q m lev r h =
    let notional = mul_units p q in
    let (rate, known, h1) = >>=-eq-ok (m.fee o.symbol notional) _ h in
    let (entry, paid, h2) = >>=-eq-ok (Fee.calc notional rate) _ h1 in
    let (exit, kept, h3) = >>=-eq-ok (Fee.calc notional rate) _ h2 in
    let entry_fee = fee_of notional rate entry paid in
    let exit_fee = fee_of notional rate exit kept in
    let both : r ≡ quantize notional lev +ℤ entry +ℤ exit = sym (ok-injective h3) in
    (rate, known, both ∙ rw (entry_fee, exit_fee) refl)

-- For an entry with an available margin, a fill that match returns has a margin, entry fee and
-- forced-exit fee, at its own price and quantity and the rate of the cost model for its
-- notional, that together are at most that margin.
pub match_cash :
    (o : Order) (c : Candle) (h : List HistoryItem) (m : CostModel) (t : FillTiming) (l : Limits)
    (f : Fill) (o' : Order) (a : ℤ)
    → match o c h m t l ≡ ok (f, o')
    → entry_margin o l.available_margin ≡ some a
    → let notional = mul_units f.price f.quantity in
      (rate : Rate) × (m.fee o.symbol notional ≡ ok rate)
      × ((quantize notional l.leverage +ℤ mul_rate notional rate +ℤ mul_rate notional rate) ≤ℤ a)
unfolding cash_need
match_cash o c h m t l f o' a e margin =
    let steps = match-Steps o c h m t l f o' e in
    let ref = reference_of o steps.execution steps.trigger in
    let cut = truncated_order o steps.quantity steps.new_stop in
    let facts = fill-IsFilled cut _ m f o' steps.fills in
    let (slip, priced) = facts.priced in
    let passed =
      subst
        (λ x. check_cash x cut ref steps.quantity steps.trigger.1 l.leverage m ≡ ok steps.passed)
        margin steps.affordable in
    let (p, s, r, hp, hr, le) =
      check_cash_lem a cut ref steps.quantity steps.trigger.1 l.leverage m steps.passed passed in
    let price : p ≡ f.price = ap (λ x. x.0) (ok-injective (sym hp ∙ priced)) in
    let at : entry_cash_requirement o p steps.quantity m l.leverage ≡ ok r =
      sym (same_requirement o steps.quantity s steps.new_stop p m l.leverage) ∙ hr in
    let (rate, known, same) = requirement_parts o f.price f.quantity m l.leverage r (
      subst (λ x. entry_cash_requirement o f.price x m l.leverage ≡ ok r) (sym facts.quantity)
        (subst (λ x. entry_cash_requirement o x steps.quantity m l.leverage ≡ ok r) price at)) in
    (rate, known, subst (λ x. x ≤ℤ a) same le)
