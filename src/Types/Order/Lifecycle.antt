-- ===== src/Types/Order/Lifecycle.antt =====
-- The state machine of `Order`: each method either changes a well-formed order into another, or
-- raises and leaves it as it was.
use trading_system_v.Prelude.{refl, if◌then◌else◌, not, ◌≡◌, ◌↔◌, true, false, any, arith}
use trading_system_v.Prelude.Int.{eq_of_parts, ℤ, pos, ◌<ℤ◌}
use trading_system_v.Prelude.Result.{value_error, Result, ok, err}
use trading_system_v.Types.Enums.{
  OrderStatus, new, partially_filled, pending_cancel, cancelled, status_eq, is_terminal, is_active,
}
use trading_system_v.Types.Order.{Order, valid_transitions}
use trading_system_v.Types.Order.Methods.{
  can_transition, transition_to, mark_as_filled, mark_as_partially_filled, mark_as_cancelled,
}
use trading_system_v.Types.Order.Validation.{IsValid}

-- No transition leads out of the status.
abbrev pub IsStuck : OrderStatus → Type 0
IsStuck s = (t : OrderStatus) → any (status_eq t) (valid_transitions s) ≡ false

IsStuck-cancelled :
    (s : OrderStatus) → any (status_eq cancelled) (valid_transitions s) ≡ true → ¬ (IsStuck s)
IsStuck-cancelled s e stuck = cc (e, stuck cancelled)

-- The terminal statuses are exactly those that no transition of the table leads out of, and the
-- active statuses are exactly the others.
pub terminal_iff_IsStuck :
    (s : OrderStatus) → ((is_terminal s ≡ true) ↔ IsStuck s) × (is_active s ≡ not (is_terminal s))
unfolding is_terminal is_active valid_transitions
terminal_iff_IsStuck new = ((λ h. cc, λ h. absurd (IsStuck-cancelled new refl h)), refl)
terminal_iff_IsStuck partially_filled =
    ((λ h. cc, λ h. absurd (IsStuck-cancelled partially_filled refl h)), refl)
terminal_iff_IsStuck pending_cancel =
    ((λ h. cc, λ h. absurd (IsStuck-cancelled pending_cancel refl h)), refl)
terminal_iff_IsStuck _ = ((λ h t. refl, λ h. refl), refl)

-- How a method call ended: the order is well-formed again, or is what it was before the raise.
abbrev pub IsAtomic : Order → Result (Unit {0}) × Order → Type 0
IsAtomic o (ok _, o') = IsValid o'
IsAtomic o (err _, o') = o' ≡ o

-- A full fill of a well-formed order leaves a well-formed order, or raises and leaves the order
-- as it was.
pub mark_as_filled-IsAtomic : (q p : ℤ) (o : Order) → IsValid o → IsAtomic o (mark_as_filled q p o)
unfolding mark_as_filled
mark_as_filled-IsAtomic q p o v = ground arith

-- A partial fill of a well-formed order leaves a well-formed order, or raises and leaves the
-- order as it was.
pub mark_as_partially_filled-IsAtomic :
    (q p : ℤ) (o : Order) → IsValid o → IsAtomic o (mark_as_partially_filled q p o)
unfolding mark_as_partially_filled
mark_as_partially_filled-IsAtomic q p o v = ground arith

pub mark_as_cancelled-IsAtomic : (o : Order) → IsValid o → IsAtomic o (mark_as_cancelled o)
unfolding mark_as_cancelled
mark_as_cancelled-IsAtomic o v = ground arith

-- A transition is made exactly when `can_transition` says so, and then only the status changes.
pub transition_to_lem :
    (t : OrderStatus) (o : Order)
    → transition_to t o ≡ (
        if can_transition o.status t
        then (ok tt, record o { status = t })
        else (err (value_error "invalid order status transition"), o))
unfolding transition_to can_transition
transition_to_lem t o = ground arith

-- From a well-formed order a full fill succeeds exactly when the order is active, the quantity
-- is the order's own and the price is positive.
pub mark_as_filled_iff :
    (q p : ℤ) (o : Order)
    → IsValid o
    → ((mark_as_filled q p o).0 ≡ ok tt)
      ↔ ((is_active o.status ≡ true) × (q ≡ o.quantity) × (pos 0 <ℤ p))
unfolding mark_as_filled is_active
mark_as_filled_iff q p o v =
    (λ h. (ground arith, eq_of_parts q o.quantity (ground arith), ground arith), λ h. ground arith)

-- A terminal order is left as it is by a full fill, a partial fill and a cancellation.
pub terminal_frozen :
    (q p : ℤ) (o : Order)
    → is_terminal o.status ≡ true
    → ((mark_as_filled q p o).1 ≡ o)
      × ((mark_as_partially_filled q p o).1 ≡ o)
      × ((mark_as_cancelled o).1 ≡ o)
unfolding mark_as_filled mark_as_partially_filled mark_as_cancelled is_terminal
terminal_frozen q p o h = (ground arith, ground arith, ground arith)
