-- ===== src/Execution/Affordable/Largest.antt =====
-- `_affordable_entry_quantity` under a cost model with one fee rate for the symbol.
use trading_system_v.Prelude.{ℕ, suc, ◌+◌, ◌≤◌, ◌<◌, ◌≡◌, arith, if◌then◌else◌, ◌==◌}
use trading_system_v.Prelude.Int.{ℤ, pos, pos_part, parts_exclusive, ◌+ℤ◌, ◌≤ℤ◌, int_laws}
use trading_system_v.Prelude.Result.{ok}
use trading_system_v.Money.{Rate, quantize, mul_units, mul_rate}
use trading_system_v.Money.Rounding.{
  quantize-mono_num, quantize_nonneg, mul_units-mono, mul_units_nonneg, mul_rate-mono,
  mul_rate_nonneg,
}
use trading_system_v.Types.Order.{Order}
use trading_system_v.Costs.Model.{CostModel}
use trading_system_v.Costs.Fee
use trading_system_v.Execution.Affordable.{
  requirement_at, entry_cash_requirement, affordable_entry_quantity,
}
use trading_system_v.Execution.Affordable.Search.{search_units-IsLargest}

-- The margin and the two fees of a quantity at a price.
unfoldable pub cash_need : ℤ → Rate → ℕ → ℤ → ℤ
cash_need price rate leverage quantity =
    let notional = mul_units price quantity in
    quantize notional leverage +ℤ mul_rate notional rate +ℤ mul_rate notional rate

-- What a number of units needs; none needs nothing.
abbrev pub need : ℤ → Rate → ℕ → ℕ → ℤ
need price rate leverage n = if n == 0 then pos 0 else cash_need price rate leverage (pos n)

module _ (order : Order) (price : ℤ) (model : CostModel) (leverage : ℕ) (rate : Rate)
    (one_rate : (n : ℤ) → model.fee order.symbol n ≡ ok rate) (rate_nonneg : pos 0 ≤ℤ rate.num)
    (price_nonneg : pos 0 ≤ℤ price) (leveraged : 0 < leverage) where
  requirement_lem :
      (q : ℤ)
      → pos 0 ≤ℤ q
      → entry_cash_requirement order price q model leverage ≡ ok (cash_need price rate leverage q)
  unfolding entry_cash_requirement cash_need Fee.calc
  requirement_lem q h =
      rw (one_rate (mul_units price q)) (ground (arith, mul_units_nonneg price q price_nonneg h))

  cash_need-mono :
      (p q : ℤ) → p ≤ℤ q → cash_need price rate leverage p ≤ℤ cash_need price rate leverage q
  unfolding cash_need
  cash_need-mono p q h =
      let n = mul_units-mono p q h price price_nonneg in
      omega (
        int_laws,
        quantize-mono_num (mul_units price p) (mul_units price q) leverage leveraged n,
        mul_rate-mono (mul_units price p) (mul_units price q) n rate rate_nonneg,
      )

  cash_need_nonneg : (q : ℤ) → pos 0 ≤ℤ q → pos 0 ≤ℤ cash_need price rate leverage q
  unfolding cash_need
  cash_need_nonneg q h =
      let n = mul_units_nonneg price q price_nonneg h in
      omega (
        int_laws,
        quantize_nonneg (mul_units price q) leverage n,
        mul_rate_nonneg (mul_units price q) rate n rate_nonneg,
      )

  need-mono : (m n : ℕ) → m ≤ n → need price rate leverage m ≤ℤ need price rate leverage n
  need-mono m n h =
      ground
        (arith, cash_need-mono (pos m) (pos n), cash_need_nonneg (pos n), cash_need_nonneg (pos m))

  need_total :
      (n : ℕ)
      → requirement_at (λ k. entry_cash_requirement order price (pos k) model leverage) n
        ≡ ok (need price rate leverage n)
  need_total n = ground (arith, requirement_lem (pos n))

  -- With one non-negative fee rate, a non-negative price, a leverage, a maximum and cash that
  -- is not negative, the binary search returns a quantity up to the maximum whose margin and
  -- fees fit the cash, and no larger quantity up to the maximum fits.
  pub affordable_entry_quantity_lem :
      (maximum available : ℤ)
      → pos 0 ≤ℤ maximum
      → pos 0 ≤ℤ available
      → (k : ℕ) × (affordable_entry_quantity order price maximum available model leverage
          ≡ ok (pos k))
        × (pos k ≤ℤ maximum)
        × (need price rate leverage k ≤ℤ available)
        × ((n : ℕ) → pos n ≤ℤ maximum → need price rate leverage n ≤ℤ available → n ≤ k)
  unfolding affordable_entry_quantity
  affordable_entry_quantity_lem maximum available hm ha =
      let beyond = pos_part maximum + 1 in
      let (k, e, fits, least, range, top) =
        search_units-IsLargest (λ m. entry_cash_requirement order price (pos m) model leverage)
          (need price rate leverage) available need_total need-mono (suc beyond) 0 beyond 0
          (omega arith) ha (omega arith) (omega arith) in
      (
        k,
        rw e,
        omega (arith, parts_exclusive maximum),
        fits,
        λ n h f. top n (omega (arith, parts_exclusive maximum)) f,
      )
