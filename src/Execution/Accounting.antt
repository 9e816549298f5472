-- ===== src/Execution/Accounting.antt =====
-- execution/accounting.py: equity is cash plus the position's value.
use trading_system_v.Prelude.{arith, ◌↔◌, ◌≡◌, not, Option, none, some}
use trading_system_v.Prelude.Int.{eq_of_parts, ℤ, pos, ◌+ℤ◌, eqb_ℤ}
use trading_system_v.Prelude.Result.{Result, ok, raise_if}
use trading_system_v.Money.{mul_units}
use trading_system_v.Types.Enums.{futures, spot}
use trading_system_v.Types.Position.{Position}

unfoldable pub position_value : Option Position → ℤ
position_value none = pos 0
position_value (some p) = elim p.market_type [
  | futures ↦ p.margin +ℤ p.unrealized_pnl
  | spot ↦ mul_units p.quantity p.current_price
]

unfoldable pub recompute : ℤ → Option Position → ℤ
recompute cash position = cash +ℤ position_value position

unfoldable pub assert_identity : ℤ → ℤ → ℤ → Result (Unit {0})
assert_identity cash current_position_value equity =
    raise_if (not (eqb_ℤ equity (cash +ℤ current_position_value)))
      "accounting identity violated: cash + position != equity"

-- The identity is accepted exactly for the equity that is recomputed from cash and position.
pub assert_identity_iff :
    (cash equity : ℤ) (position : Option Position)
    → (assert_identity cash (position_value position) equity ≡ ok tt)
      ↔ (equity ≡ recompute cash position)
unfolding assert_identity recompute
assert_identity_iff cash equity position = (
  λ h. eq_of_parts equity (cash +ℤ position_value position) (ground arith),
  λ e. rw e (ground arith),
)
