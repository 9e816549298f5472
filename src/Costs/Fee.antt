-- ===== src/Costs/Fee.antt =====
-- services/core-lib/core_lib/costs/fee.py.
use trading_system_v.Prelude.{◌≡◌, arith}
use trading_system_v.Prelude.Int.{ℤ, pos, ltb_ℤ, ◌≤ℤ◌}
use trading_system_v.Prelude.Result.{Result, ok, ◌>>◌, raise_if}
use trading_system_v.Money.{Rate, mul_rate}
use trading_system_v.Money.Rounding.{mul_rate_nonneg, mul_rate-mono}

unfoldable pub calc : ℤ → Rate → Result ℤ
calc notional rate = do
  raise_if (ltb_ℤ notional (pos 0)) "notional must be non-negative"
  raise_if (ltb_ℤ rate.num (pos 0)) "fee rate must be non-negative"
  ok (mul_rate notional rate)

-- A fee that is returned is not negative.
pub calc_nonneg : (n : ℤ) (r : Rate) (f : ℤ) → calc n r ≡ ok f → pos 0 ≤ℤ f
unfolding calc
calc_nonneg n r f h = ground (arith, mul_rate_nonneg n r)

-- For inputs that are not negative there is a fee, and a larger notional never costs less.
pub calc_mono :
    (m n : ℤ) (r : Rate)
    → pos 0 ≤ℤ m
    → pos 0 ≤ℤ r.num
    → m ≤ℤ n
    → (calc m r ≡ ok (mul_rate m r))
      × (calc n r ≡ ok (mul_rate n r))
      × (mul_rate m r ≤ℤ mul_rate n r)
unfolding calc
calc_mono m n r hm hr h = (ground arith, ground arith, mul_rate-mono m n h r hr)
