-- ===== src/Types/Order/Methods.antt =====
-- The methods of `Order` (order.py) that change it, along its state machine.
use trading_system_v.Prelude.{Bool, not, ◌&&◌, some, any}
use trading_system_v.Prelude.Int.{ℤ, pos, ltb_ℤ, leb_ℤ, eqb_ℤ}
use trading_system_v.Prelude.Exec.{Exec, ◌>>◌, check, modify, guard}
use trading_system_v.Types.Enums.{OrderStatus, filled, partially_filled, cancelled, status_eq}
use trading_system_v.Types.Order.{Order, valid_transitions, validate_fill_status}

-- `_transition_to`.
unfoldable pub transition_to : OrderStatus → Exec Order (Unit {0})
unfolding valid_transitions
transition_to new_status = do
  guard (λ o. not (any (status_eq new_status) (valid_transitions o.status)))
      "invalid order status transition"
  modify (λ o. record o { status = new_status })

-- execution/order_lifecycle.py `can_transition`.
unfoldable pub can_transition : OrderStatus → OrderStatus → Bool
can_transition current target = any (status_eq target) (valid_transitions current)

abbrev pub record_fill : ℤ → ℤ → Order → Order
record_fill q p o = record o { filled_quantity = q; average_filled_price = some p }

unfoldable pub mark_as_filled : ℤ → ℤ → Exec Order (Unit {0})
unfolding transition_to validate_fill_status
mark_as_filled q p = do
  guard (λ o. not (eqb_ℤ q o.quantity)) "filled quantity must equal order quantity"
  guard (λ o. ltb_ℤ q o.filled_quantity) "filled quantity cannot decrease"
  guard (λ o. leb_ℤ p (pos 0)) "average fill price must be positive"
  transition_to filled
  modify (record_fill q p)
  check validate_fill_status

unfoldable pub mark_as_partially_filled : ℤ → ℤ → Exec Order (Unit {0})
unfolding transition_to validate_fill_status
mark_as_partially_filled q p = do
  guard (λ o. not (ltb_ℤ (pos 0) q && ltb_ℤ q o.quantity))
      "partial fill must be between zero and order quantity"
  guard (λ o. ltb_ℤ q o.filled_quantity) "filled quantity cannot decrease"
  guard (λ o. leb_ℤ p (pos 0)) "average fill price must be positive"
  transition_to partially_filled
  modify (record_fill q p)
  check validate_fill_status

unfoldable pub mark_as_cancelled : Exec Order (Unit {0})
unfolding transition_to validate_fill_status
mark_as_cancelled = do transition_to cancelled; check validate_fill_status
