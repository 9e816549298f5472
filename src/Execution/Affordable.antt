-- ===== src/Execution/Affordable.antt =====
-- execution/matcher.py: the cash that an entry needs, and the largest quantity that fits the cash.
pub mod Search
pub mod Largest
use trading_system_v.Prelude.{ℕ, zero, suc, ◌+◌, ◌-◌, ◌/◌, ◌==◌, ltb, if◌then◌else◌, true, false}
use trading_system_v.Prelude.Int.{ℤ, pos, ◌+ℤ◌, leb_ℤ, pos_part}
use trading_system_v.Prelude.Result.{Result, ok, err, runtime_error, ◌>>=◌, ◌>>◌}
use trading_system_v.Money.{quantize, mul_units}
use trading_system_v.Types.Order.{Order}
use trading_system_v.Costs.Model.{CostModel}
use trading_system_v.Costs.Fee

-- `_entry_cash_requirement`: margin, entry fee and the fee of a forced exit.
unfoldable pub entry_cash_requirement : Order → ℤ → ℤ → CostModel → ℕ → Result ℤ
entry_cash_requirement order price quantity model leverage = do
  let notional = mul_units price quantity
  let margin = quantize notional leverage
  rate ← model.fee order.symbol notional
  entry_fee ← Fee.calc notional rate
  liquidation_exit_fee ← Fee.calc notional rate
  ok (margin +ℤ entry_fee +ℤ liquidation_exit_fee)

-- The requirement of `middle` units; of none it is zero.
abbrev requirement_at : (ℕ → Result ℤ) → ℕ → Result ℤ
requirement_at cost middle = if middle == 0 then ok (pos 0) else cost middle

-- The search loop, `while low <= high`. `beyond` is high + 1, and `best` the affordable units so far.
-- The fuel is at least the length of the range, so that it does not run out.
unfoldable pub search_units : ℕ → (ℕ → Result ℤ) → ℤ → ℕ → ℕ → ℕ → Result ℕ
search_units zero cost available low beyond best = err (runtime_error "out of fuel")
search_units (suc fuel) cost available low beyond best =
    let middle = (low + (beyond - 1)) / 2 in
    let above = search_units fuel cost available (middle + 1) beyond middle in
    let below = search_units fuel cost available low middle best in
    if ltb low beyond
    then (do
      requirement ← requirement_at cost middle
      (if leb_ℤ requirement available then above else below))
    else ok best

-- `_affordable_entry_quantity`: the quantity, in units, up to `maximum`.
unfoldable pub affordable_entry_quantity : Order → ℤ → ℤ → ℤ → CostModel → ℕ → Result ℤ
affordable_entry_quantity order fill_price maximum available model leverage = do
  let beyond = pos_part maximum + 1
  units ←
      search_units (suc beyond)
        (λ middle. entry_cash_requirement order fill_price (pos middle) model leverage) available 0
        beyond 0
  ok (pos units)
