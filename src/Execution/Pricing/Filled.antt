-- ===== src/Execution/Pricing/Filled.antt =====
-- What a fill that `_fill` returns says of the order and of the price.
use trading_system_v.Prelude.{◌||◌, ◌<◌, ◌≡◌, ◌∙◌, ap, sym, subst, arith, Bool, some}
use native.Mathlib.Decide.{dec_lt}
use trading_system_v.Prelude.Int.{
  leb_ℤ, eq_of_parts, ℤ, pos, negsuc, ◌+ℤ◌, ◌*ℤ◌, ◌≤ℤ◌, ◌<ℤ◌, int_laws, *ℤ_nonneg, *ℤ_parts,
}
use trading_system_v.Prelude.Result.{raise_if, ◌>>◌, Result, ok, >>=-eq-ok}
use trading_system_v.Money.{scale, quantize, mul_units}
use trading_system_v.Money.Rounding.{quantize-mono_num, quantize-whole}
use trading_system_v.Types.Enums.{OrderSide, buy, sell, filled}
use trading_system_v.Types.Order.{Order, post_init}
use trading_system_v.Types.Order.Methods.{mark_as_filled}
use trading_system_v.Types.Fill
use trading_system_v.Types.Fill.{Fill}
use trading_system_v.Costs.Model.{CostModel}
use trading_system_v.Costs.Fee
use trading_system_v.Costs.Slippage
use trading_system_v.Costs.Slippage.{IsAdverse, apply-IsAdverse}
use trading_system_v.Execution.Pricing.{
  ℕ, FillRequest, execution_price, cumulative_average, shifted_price, priced_order, fill, returned,
  make_fill,
}

mark_as_filled_result :
    (q p : ℤ) (o o' : Order)
    → returned (mark_as_filled q p o) ≡ ok o'
    → (o'.status ≡ filled)
      × (o'.filled_quantity ≡ q)
      × (o'.average_filled_price ≡ some p)
      × (o'.quantity ≡ o.quantity)
      × (q ≡ o.quantity)
unfolding mark_as_filled
mark_as_filled_result q p o o' h = (
  ground arith,
  ground arith,
  ground arith,
  ground arith,
  eq_of_parts q o.quantity (ground arith),
)

-- A buyer's price is at or above the reference, a seller's at or below it.
abbrev pub AtOrBeyond : OrderSide → ℤ → ℤ → Type 0
AtOrBeyond buy reference price = reference ≤ℤ price
AtOrBeyond sell reference price = price ≤ℤ reference

moved_up : (r s : ℤ) (n : ℕ) → 0 < n → pos 0 ≤ℤ s → r ≤ℤ quantize (r *ℤ pos n +ℤ s *ℤ pos scale) n
moved_up r s n hn hs =
    subst (λ t. t ≤ℤ quantize (r *ℤ pos n +ℤ s *ℤ pos scale) n) (quantize-whole r n hn)
      (quantize-mono_num (r *ℤ pos n) (r *ℤ pos n +ℤ s *ℤ pos scale) n hn
        (omega (int_laws, *ℤ_nonneg s (pos scale) hs (omega arith))))

moved_down : (r s : ℤ) (n : ℕ) → 0 < n → s ≤ℤ pos 0 → quantize (r *ℤ pos n +ℤ s *ℤ pos scale) n ≤ℤ r
moved_down r s n hn hs =
    subst (λ t. quantize (r *ℤ pos n +ℤ s *ℤ pos scale) n ≤ℤ t) (quantize-whole r n hn)
      (quantize-mono_num (r *ℤ pos n +ℤ s *ℤ pos scale) (r *ℤ pos n) n hn
        (omega (int_laws, *ℤ_parts s (pos scale))))

-- A shift against the side moves the price against the side.
shifted_price-IsAdverse :
    (side : OrderSide) (reference signed quantity price : ℤ)
    → IsAdverse side signed
    → shifted_price reference signed quantity ≡ ok price
    → (pos 0 <ℤ quantity) × AtOrBeyond side reference price
unfolding shifted_price
shifted_price-IsAdverse side reference signed (negsuc n) price a h = absurd (ground arith)
shifted_price-IsAdverse buy reference signed (pos n) price a h = elim (dec_lt 0 n) [
  | yes p ↦
      (omega arith, subst (λ t. reference ≤ℤ t) (ground arith) (moved_up reference signed n p a))
  | no p ↦ absurd (ground arith)
]
shifted_price-IsAdverse sell reference signed (pos n) price a h = elim (dec_lt 0 n) [
  | yes p ↦
      (omega arith, subst (λ t. t ≤ℤ reference) (ground arith) (moved_down reference signed n p a))
  | no p ↦ absurd (ground arith)
]

checked_pair :
    (a s p t : ℤ)
    → ◌>>◌ {Next = ℤ × ℤ}
        (raise_if (leb_ℤ a (pos 0)) "slippage produced a non-positive execution price")
        (ok (a, s))
      ≡ ok (p, t)
    → (pos 0 <ℤ a) × (a ≡ p) × (s ≡ t)
checked_pair a s p t h = (ground arith, ground arith, ground arith)

-- An execution price that is returned is positive and for a positive quantity, its slippage is
-- against the side, and it is the reference or worse for the side after rounding.
pub execution_price_lem :
    (o : Order) (reference quantity : ℤ) (m : CostModel) (gap : Bool) (p s : ℤ)
    → execution_price o reference quantity m gap ≡ ok (p, s)
    → (pos 0 <ℤ quantity) × (pos 0 <ℤ p) × IsAdverse o.side s × AtOrBeyond o.side reference p
unfolding execution_price
execution_price_lem o reference quantity m gap p s h =
    let (priced, _, h1) = >>=-eq-ok (post_init (priced_order o quantity)) _ h in
    let (signed, hs, h2) =
      >>=-eq-ok (Slippage.apply (mul_units reference quantity) o.side m priced _) _ h1 in
    let (actual, ha, h3) = >>=-eq-ok (shifted_price reference signed quantity) _ h2 in
    let adverse = apply-IsAdverse (mul_units reference quantity) o.side m priced _ signed hs in
    let (positive, beyond) =
      shifted_price-IsAdverse o.side reference signed quantity actual adverse ha in
    let (above_zero, ep, es) = checked_pair actual signed p s h3 in
    (
      positive,
      subst (λ t. pos 0 <ℤ t) ep above_zero,
      subst (IsAdverse o.side) es adverse,
      subst (AtOrBeyond o.side reference) ep beyond,
    )

-- What a fill that is returned says: its price is an execution price at the requested reference and
-- quantity, its facts are well-formed, and the order is left filled for its whole quantity.
pub record IsFilled (o : Order) (r : FillRequest) (m : CostModel) (f : Fill) (o' : Order)
    : Type 0 where
  pub priced : (s : ℤ) × (execution_price o r.reference r.quantity m r.gap_filled ≡ ok (f.price, s))
  pub facts : Fill.IsValid f
  pub quantity : f.quantity ≡ r.quantity
  pub reference : f.reference_price ≡ r.reference
  pub symbol : f.symbol ≡ o.symbol
  pub side : f.side ≡ o.side
  pub position_side : f.position_side ≡ o.position_side
  pub timestamp : f.timestamp ≡ r.timestamp
  pub reduce_only : f.reduce_only ≡ (o.reduce_only || o.close_position)
  pub exit_reason : f.exit_reason ≡ r.exit_reason
  pub status : o'.status ≡ filled
  pub whole : o'.filled_quantity ≡ o'.quantity
  pub kept : o'.quantity ≡ o.quantity

assembled :
    (o : Order) (r : FillRequest) (m : CostModel) (p s fee : ℤ) (o1 : Order) (g f : Fill)
    (o' : Order)
    → execution_price o r.reference r.quantity m r.gap_filled ≡ ok (p, s)
    → returned (mark_as_filled o.quantity (cumulative_average o p r.quantity) o) ≡ ok o1
    → Fill.post_init (make_fill o r p s fee) ≡ ok g
    → g ≡ f
    → record o1 { fee = o1.fee +ℤ fee } ≡ o'
    → IsFilled o r m f o'
assembled o r m p s fee o1 g f o' hp hm hg ef eo =
    let (made, valid) = Fill.post_init-IsValid (make_fill o r p s fee) g hg in
    let (status, whole, _, kept, _) =
      mark_as_filled_result o.quantity (cumulative_average o p r.quantity) o o1 hm in
    let same : f ≡ make_fill o r p s fee = sym ef ∙ made in
    record {
      priced = (s, hp ∙ ap (λ (t : ℤ). ok (t, s)) (sym (ap (λ (x : Fill). x.price) same)));
      facts = subst Fill.IsValid ef valid;
      quantity = ap (λ (x : Fill). x.quantity) same;
      reference = ap (λ (x : Fill). x.reference_price) same;
      symbol = ap (λ (x : Fill). x.symbol) same;
      side = ap (λ (x : Fill). x.side) same;
      position_side = ap (λ (x : Fill). x.position_side) same;
      timestamp = ap (λ (x : Fill). x.timestamp) same;
      reduce_only = ap (λ (x : Fill). x.reduce_only) same;
      exit_reason = ap (λ (x : Fill). x.exit_reason) same;
      status = ap (λ (x : Order). x.status) (sym eo) ∙ status;
      whole =
          ap (λ (x : Order). x.filled_quantity) (sym eo)
          ∙ whole
          ∙ sym kept
          ∙ ap (λ (x : Order). x.quantity) eo;
      kept = ap (λ (x : Order). x.quantity) (sym eo) ∙ kept;
    }

pair-injective :
    (g f : Fill) (a b : Order)
    → ◌≡◌ {A = Result (Fill × Order)} (ok (g, a)) (ok (f, b))
    → (g ≡ f) × (a ≡ b)
pair-injective g f a b h = (cc, cc)

-- A fill that _fill returns is well-formed and has the price of _execution_price, the requested
-- reference, quantity, time and reason, the order's symbol and sides, and the reduce-only flag
-- of a reducing or closing order; the order is left FILLED for its whole quantity.
pub fill-IsFilled :
    (o : Order) (r : FillRequest) (m : CostModel) (f : Fill) (o' : Order)
    → fill o r m ≡ ok (f, o')
    → IsFilled o r m f o'
unfolding fill
fill-IsFilled o r m f o' h =
    let ((p, s), hp, h1) =
      >>=-eq-ok (execution_price o r.reference r.quantity m r.gap_filled) _ h in
    let (rate, _, h2) = >>=-eq-ok (m.fee o.symbol (mul_units p r.quantity)) _ h1 in
    let (fee, _, h3) = >>=-eq-ok (Fee.calc (mul_units p r.quantity) rate) _ h2 in
    let (o1, hm, h4) =
      >>=-eq-ok (returned (mark_as_filled o.quantity (cumulative_average o p r.quantity) o)) _ h3 in
    let (g, hg, h5) = >>=-eq-ok (Fill.post_init (make_fill o r p s fee)) _ h4 in
    let (ef, eo) = pair-injective g f (record o1 { fee = o1.fee +ℤ fee }) o' h5 in
    assembled o r m p s fee o1 g f o' hp hm hg ef eo
