-- ===== src/Costs/Slippage.antt =====
-- services/core-lib/core_lib/costs/slippage.py.
use trading_system_v.Prelude.{
  inr, subst, inl, ◌≡◌, ◌*◌, ◌-◌, Bool, Option, none, some, arith, if◌then◌else◌,
}
use trading_system_v.Prelude.Int.{ℤ, pos, neg, ◌*ℤ◌, ◌+ℤ◌, ltb_ℤ, leb_ℤ, ◌≤ℤ◌, pos_part, int_laws}
use trading_system_v.Prelude.Result.{Result-cases, Result, ok, ◌>>=◌, ◌>>◌, raise_if}
use trading_system_v.Money.{Rate, den, mul_rate, zero_rate}
use trading_system_v.Money.Rounding.{mul_rate_nonneg}
use trading_system_v.Types.Enums.{OrderSide, buy, sell}
use trading_system_v.Types.Order.{Order}
use trading_system_v.Costs.Model.{Context, CostModel}

-- The liquidity counts units, as an order's quantity does.
pub record SlippageParams : Type 0 where
  pub spread_rate : Rate
  pub impact_coefficient : Rate
  pub liquidity : Option ℤ
  pub fixed_rate : Option Rate
  pub gap_multiplier : Rate

abbrev negative_rate : Option Rate → Bool
negative_rate none = Bool.false
negative_rate (some r) = ltb_ℤ r.num (pos 0)

abbrev non_positive : Option ℤ → Bool
non_positive none = Bool.false
non_positive (some l) = leb_ℤ l (pos 0)

-- `__post_init__`.
unfoldable pub post_init : SlippageParams → Result SlippageParams
post_init p = do
  raise_if (ltb_ℤ p.spread_rate.num (pos 0)) "spread and impact parameters must be non-negative"
  raise_if (ltb_ℤ p.impact_coefficient.num (pos 0))
      "spread and impact parameters must be non-negative"
  raise_if (negative_rate p.fixed_rate) "fixed_rate must be non-negative"
  raise_if (non_positive p.liquidity) "liquidity must be positive"
  raise_if (ltb_ℤ p.gap_multiplier.num (pos (den p.gap_multiplier)))
      "gap_multiplier must be at least one"
  ok p

-- Sums and products of exact rates.
abbrev rate_sum : Rate → Rate → Rate
rate_sum a b = record {
  num = a.num *ℤ pos (den b) +ℤ b.num *ℤ pos (den a);
  den_pred = den a * den b - 1;
}

abbrev rate_product : Rate → Rate → Rate
rate_product a b = record { num = a.num *ℤ b.num; den_pred = den a * den b - 1 }

-- coefficient * quantity / liquidity, for a liquidity above zero.
abbrev impact : Rate → ℤ → Option ℤ → Rate
impact c quantity none = zero_rate
impact c quantity (some l) = record { num = c.num *ℤ quantity; den_pred = den c * pos_part l - 1 }

abbrev halved : Rate → Rate
halved r = record { num = r.num; den_pred = den r * 2 - 1 }

abbrev base_rate : SlippageParams → ℤ → Option Rate → Rate
base_rate p quantity (some fixed) = fixed
base_rate p quantity none =
    rate_sum (halved p.spread_rate) (impact p.impact_coefficient quantity p.liquidity)

unfoldable pub effective_rate : SlippageParams → Order → Context → Rate
effective_rate p order context =
    let rate = base_rate p order.quantity p.fixed_rate in
    if context.gap_filled then rate_product rate p.gap_multiplier else rate

-- The sign of a side's slippage: a buyer pays more, a seller gets less.
abbrev pub signed : OrderSide → ℤ → ℤ
signed buy magnitude = magnitude
signed sell magnitude = neg magnitude

-- `apply`.
unfoldable pub apply : ℤ → OrderSide → CostModel → Order → Context → Result ℤ
apply notional side model order context = do
  raise_if (ltb_ℤ notional (pos 0)) "notional must be non-negative"
  rate ← model.slippage order context
  raise_if (ltb_ℤ rate.num (pos 0)) "slippage rate must be non-negative"
  ok (signed side (mul_rate notional rate))

-- Against the side: a buyer does not pay less, a seller does not get more.
abbrev pub IsAdverse : OrderSide → ℤ → Type 0
IsAdverse buy s = pos 0 ≤ℤ s
IsAdverse sell s = s ≤ℤ pos 0

signed-IsAdverse : (side : OrderSide) (m : ℤ) → pos 0 ≤ℤ m → IsAdverse side (signed side m)
signed-IsAdverse buy m h = h
signed-IsAdverse sell m h = omega int_laws

magnitude_of :
    (n : ℤ) (side : OrderSide) (m : CostModel) (o : Order) (c : Context) (s : ℤ) (r : Rate)
    → m.slippage o c ≡ ok r
    → apply n side m o c ≡ ok s
    → (pos 0 ≤ℤ n) × (pos 0 ≤ℤ r.num) × (signed side (mul_rate n r) ≡ s)
unfolding apply
magnitude_of n side m o c s r e h = (ground arith, ground arith, ground arith)

-- Whatever the cost model answers, slippage that is returned is not negative for a buyer and
-- not positive for a seller.
pub apply-IsAdverse :
    (n : ℤ) (side : OrderSide) (m : CostModel) (o : Order) (c : Context) (s : ℤ)
    → apply n side m o c ≡ ok s
    → IsAdverse side s
unfolding apply
apply-IsAdverse n side m o c s h = elim (Result-cases (m.slippage o c)) [
  | inl (r, e) ↦ subst (IsAdverse side) (magnitude_of n side m o c s r e h).2 (
      signed-IsAdverse side (mul_rate n r) (
        mul_rate_nonneg n r (magnitude_of n side m o c s r e h).0
          (magnitude_of n side m o c s r e h).1))
  | inr (x, e) ↦ ground arith
]
