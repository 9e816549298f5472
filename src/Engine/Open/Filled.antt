-- ===== src/Engine/Open/Filled.antt =====
-- What the broker's fill of an order has of the order.
use trading_system_v.Prelude.{
  ℕ, suc, String, Option, none, some, List, ◌≡◌, ◌∙◌, sym, ap, subst, arith,
}
use trading_system_v.Prelude.Result.{Result, ok, ok-injective}
use trading_system_v.Prelude.Exec.{step_ok}
use trading_system_v.Prelude.{if◌then◌else◌}
use trading_system_v.Types.Enums.{OrderType, PositionSide, ExitReason}
use trading_system_v.Types.Order
use trading_system_v.Types.Order.{Order}
use trading_system_v.Types.Fill
use trading_system_v.Types.Fill.{Fill}
use trading_system_v.Types.Candle.{Candle}
use trading_system_v.Costs.Model.{CostModel}
use trading_system_v.Execution.Trigger.{HistoryItem, FillTiming, next_bar}
use trading_system_v.Execution.Pricing.Filled.{fill-IsFilled}
use trading_system_v.Execution.Matcher
use trading_system_v.Execution.Matcher.{is_market, Limits, truncated_order}
use trading_system_v.Execution.Matcher.Steps.{match-Steps, reference_of, converge_bounds}
use trading_system_v.Execution.Trigger.{Execution, execution_candle}
use trading_system_v.Types.Order.{remaining_quantity}
use trading_system_v.Prelude.Int.{◌≤ℤ◌}
use trading_system_v.Execution.Normalizer.{OrderRequest, normalized, normalize_order}
use trading_system_v.Engine.{Environment, RunConfig, Engine}
use trading_system_v.Engine.Open.{Context, with_reason, submit, marked}

-- A well-formed fill for a symbol and a side.
pub record IsFor (symbol : String) (side : PositionSide) (f : Fill) : Type 0 where
  pub valid : Fill.IsValid f
  pub symbol_of : f.symbol ≡ symbol
  pub side_of : f.position_side ≡ side

match-IsFor :
    (o : Order) (c : Candle) (h : List HistoryItem) (m : CostModel) (t : FillTiming) (l : Limits)
    (f : Fill) (o' : Order)
    → Matcher.match o c h m t l ≡ ok (f, o')
    → IsFor o.symbol o.position_side f
match-IsFor o c h m t l f o' e =
    let steps = match-Steps o c h m t l f o' e in
    let x = fill-IsFilled (truncated_order o steps.quantity steps.new_stop) _ m f o' steps.fills in
    record { valid = x.facts; symbol_of = x.symbol; side_of = x.position_side }

-- The bar of a match, and how much of the order it fills.
pub record InBar (o : Order) (c : Candle) (h : List HistoryItem) (t : FillTiming) (f : Fill)
    : Type 0 where
  pub bar : Execution
  pub chosen : execution_candle c h t ≡ ok bar
  pub dated : f.timestamp ≡ bar.timestamp
  pub priced : o.order_type ≡ OrderType.market → f.reference_price ≡ bar.reference
  pub within : f.quantity ≤ℤ remaining_quantity o

match-InBar :
    (o : Order) (c : Candle) (h : List HistoryItem) (m : CostModel) (t : FillTiming) (l : Limits)
    (f : Fill) (o' : Order)
    → Matcher.match o c h m t l ≡ ok (f, o')
    → InBar o c h t f
match-InBar o c h m t l f o' e =
    let steps = match-Steps o c h m t l f o' e in
    let x = fill-IsFilled (truncated_order o steps.quantity steps.new_stop) _ m f o' steps.fills in
    let (_, le) =
      converge_bounds 32 o (reference_of o steps.execution steps.trigger) steps.trigger.1 _ m
        (remaining_quantity o) steps.quantity steps.new_stop steps.converges in
    record {
      bar = steps.execution;
      chosen = steps.executes;
      dated = x.timestamp;
      priced = λ market.
          x.reference
          ∙ ap (λ k. if is_market k then steps.execution.reference else steps.trigger.0) market;
      within = subst (λ q. q ≤ℤ remaining_quantity o) (sym x.quantity) le;
    }

order-same : (o o' : Order) → Order.post_init o ≡ ok o' → o' ≡ o
unfolding Order.post_init
order-same o o' h = ground arith

pub with_reason-IsFor :
    (reason : Option ExitReason) (symbol : String) (side : PositionSide) (f g : Fill)
    → IsFor symbol side f
    → with_reason reason f ≡ ok g
    → IsFor symbol side g
      × (g.timestamp ≡ f.timestamp)
      × (g.quantity ≡ f.quantity)
      × (g.reference_price ≡ f.reference_price)
unfolding with_reason
with_reason-IsFor none symbol side f g x h =
    let same : f ≡ g = ok-injective h in
    (
      subst (IsFor symbol side) same x,
      ap (λ (y : Fill). y.timestamp) (sym same),
      ap (λ (y : Fill). y.quantity) (sym same),
      ap (λ (y : Fill). y.reference_price) (sym same),
    )
with_reason-IsFor (some reason) symbol side f g x h =
    let (same, valid) = Fill.post_init-IsValid _ g h in
    (
      record {
        valid = valid;
        symbol_of = ap (λ (y : Fill). y.symbol) same ∙ x.symbol_of;
        side_of = ap (λ (y : Fill). y.position_side) same ∙ x.side_of;
      },
      ap (λ (y : Fill). y.timestamp) same,
      ap (λ (y : Fill). y.quantity) same,
      ap (λ (y : Fill). y.reference_price) same,
    )

module _ (environment : Environment) (config : RunConfig) (model : CostModel) where
  -- The order that the broker makes of a request.
  abbrev pub broker_order : OrderRequest → ℕ → Order
  broker_order request n = normalized environment.canonical_id request (record {
    order_id = some (environment.order_text n);
    client_order_id = none;
    wallet_id = none;
    signal_id = none;
  })

  -- A submit that returns: the match of the order, and the broker's counter.
  pub record IsSubmitted (context : Context) (request : OrderRequest) (f : Fill) (e e' : Engine)
      : Type 0 where
    pub left : Order
    pub matched :
        Matcher.match
          (broker_order request e.next_order_sequence)
          context.decision_candle
          (marked context.decision_candle context.history)
          model
          next_bar
          context.limits
        ≡ ok (f, left)
    pub in_bar :
        InBar
          (broker_order request e.next_order_sequence)
          context.decision_candle
          (marked context.decision_candle context.history)
          next_bar
          f
    pub own : IsFor request.symbol request.position_side f
    pub after : record e { next_order_sequence = suc e.next_order_sequence } ≡ e'

  pub submit-IsSubmitted :
      (context : Context) (request : OrderRequest) (f : Fill) (e e' : Engine)
      → submit environment config model context request e ≡ (ok f, e')
      → IsSubmitted context request f e e'
  unfolding submit normalize_order
  submit-IsSubmitted context request f e e' h =
      let o = broker_order request e.next_order_sequence in
      let (order, made, h1) = step_ok (Order.post_init o) _ _ h in
      let ((fill, left), hit, h2) =
        step_ok
          (Matcher.match order context.decision_candle
            (marked context.decision_candle context.history) model next_bar context.limits)
          _ _ h1 in
      let same : order ≡ o = order-same o order made in
      let returned : fill ≡ f = ok-injective (ap (λ (x : Result Fill × Engine). x.0) h2) in
      let matched =
        subst
          (λ x.
            Matcher.match x context.decision_candle (marked context.decision_candle context.history)
              model next_bar context.limits
            ≡ ok (f, left))
          same (hit ∙ ap (λ (x : Fill). ok (x, left)) returned) in
      record {
        left = left;
        matched = matched;
        in_bar = match-InBar o _ _ _ _ _ f left matched;
        own = match-IsFor o _ _ _ _ _ f left matched;
        after = ap (λ (x : Result Fill × Engine). x.1) h2;
      }
