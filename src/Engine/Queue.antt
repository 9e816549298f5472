-- ===== src/Engine/Queue.antt =====
-- engine.py: what `_handle_signal` queues.
use trading_system_v.Prelude.{
  ℕ, ◌≡◌, ◌∙◌, refl, sym, ap, subst, arith, Bool, true, false, if◌then◌else◌, Option, none, some,
  List, [], ◌∷◌,
}
use mathlib.Core.List.{◌++◌}
use trading_system_v.Prelude.Result.{Result, ok}
use trading_system_v.Prelude.Exec.{◌>>=◌, ◌>>◌, check, modify, step_ok}
use trading_system_v.Money.{Float}
use trading_system_v.Types.Enums.{PositionSide, signal_exit, reversal, side_eq}
use trading_system_v.Types.Position.{Position}
use trading_system_v.Types.Candle.{Candle}
use trading_system_v.Types.Signal.{TradingSignal}
use trading_system_v.Sizing.{within_one_percent}
use trading_system_v.Execution.Normalizer.{validate_request}
use trading_system_v.Engine.{
  record_evidence, skip_decision, Environment, RunConfig, PendingOrder, Engine, current_position,
}
use trading_system_v.Engine.Signals.{
  Intent, exit_position, enter, reverse, derive_intent, size_of, pending_exit, pending_entry,
  exit_request, entry_request,
}
use trading_system_v.Engine.Handler.{
  next_candle, planned_at, same_direction, risk_fraction, blocked, handle_exit, queue_entry,
  handle_sized, handle_entry, handle_intent, handle_signal,
}

-- The candle after this one opens as it closes.
pub record Follows (candle : Candle) (history : List Candle) : Type 0 where
  pub next : Candle
  pub found : next_candle candle history ≡ ok (some next)
  pub at_once : next.open_time ≡ candle.close_time

append_empty : (xs : List PendingOrder) → xs ++ [] ≡ xs
append_empty [] = refl
append_empty (x ∷ xs) = ap (λ (ys : List PendingOrder). x ∷ ys) (append_empty xs)

append_two :
    (xs : List PendingOrder) (a b : PendingOrder) → (xs ++ a ∷ []) ++ b ∷ [] ≡ xs ++ a ∷ b ∷ []
append_two [] a b = refl
append_two (x ∷ xs) a b = ap (λ (ys : List PendingOrder). x ∷ ys) (append_two xs a b)

module _ (environment : Environment) (config : RunConfig) (candle : Candle) (signal : TradingSignal)
    (position : Option Position) where
  -- The orders of one signal: none, the exit of the position, an entry, or both, the exit first,
  -- when the signal is for the other side than the position's.
  pub data Orders : List PendingOrder → Type 0 where
    no_order : Orders []
    exit_order :
        (p : Position) (n : ℕ)
        → position ≡ some p
        → Orders (pending_exit environment config p n candle signal_exit signal ∷ [])
    entry_order :
        (side : PositionSide) (quantity : Float) (n c : ℕ)
        → position ≡ none
        → Orders (pending_entry environment config side quantity n candle signal c ∷ [])
    reversal_orders :
        (p : Position) (side : PositionSide) (quantity : Float) (n c : ℕ)
        → position ≡ some p
        → side_eq p.side side ≡ false
        → Orders (
            pending_exit environment config p n candle reversal signal
            ∷ pending_entry environment config side quantity n candle signal c
            ∷ [])

  -- What handling the signal changes: the orders that it queues, if any, and no account.
  pub record IsHandled (history : List Candle) (e e' : Engine) : Type 0 where
    pub orders : List PendingOrder
    pub queued : e'.pending ≡ e.pending ++ orders
    pub shape : Orders orders
    pub followed : ¬ (orders ≡ []) → Follows candle history
    pub book : e'.book ≡ e.book
    pub cash : e'.cash ≡ e.cash
    pub active_trade : e'.active_trade ≡ e.active_trade
    pub trades : e'.trades ≡ e.trades

  module _ (history : List Candle) where
    IsHandled-as :
        (e x e' : Engine) (u : Unit {0})
        → IsHandled history e x
        → ◌≡◌ {A = Result (Unit {0}) × Engine} (ok tt, x) (ok u, e')
        → IsHandled history e e'
    IsHandled-as e x e' u k h =
        subst (IsHandled history e) (ap (λ (y : Result (Unit {0}) × Engine). y.1) h) k

    idle :
        (e x e' : Engine) (u : Unit {0})
        → x.pending ≡ e.pending
        → x.book ≡ e.book
        → x.cash ≡ e.cash
        → x.active_trade ≡ e.active_trade
        → x.trades ≡ e.trades
        → ◌≡◌ {A = Result (Unit {0}) × Engine} (ok tt, x) (ok u, e')
        → IsHandled history e e'
    idle e x e' u pending book cash active trades h =
        IsHandled-as e x e' u
          (record {
            orders = [];
            queued = pending ∙ sym (append_empty e.pending);
            shape = no_order;
            followed = λ some_order. absurd (some_order refl);
            book = book;
            cash = cash;
            active_trade = active;
            trades = trades;
          })
          h

    exit_lem :
        (n s : ℕ) (planned : Option ℕ) (missing : Bool) (p : Option Position) (e e' : Engine)
        (u : Unit {0})
        → position ≡ p
        → ((at : ℕ) → planned ≡ some at → Follows candle history)
        → handle_exit environment config n s candle signal planned missing p e ≡ (ok u, e')
        → IsHandled history e e'
    unfolding handle_exit
    exit_lem n s planned missing none e e' u k f h = idle e _ e' u refl refl refl refl refl h
    exit_lem n s none missing (some p) e e' u k f h = idle e _ e' u refl refl refl refl refl h
    exit_lem n s (some at) missing (some p) e e' u k f h =
        let (_, _, h1) = step_ok (validate_request (exit_request environment config p)) _ _ h in
        IsHandled-as e _ e' u
          (record {
            orders = pending_exit environment config p n candle signal_exit signal ∷ [];
            queued = refl;
            shape = exit_order p n k;
            followed = λ some_order. f at refl;
            book = refl;
            cash = refl;
            active_trade = refl;
            trades = refl;
          })
          h1

    sized_lem :
        (n s : ℕ) (planned : Option ℕ) (missing within : Bool) (p : Option Position)
        (side : PositionSide) (quantity : Float) (e e' : Engine) (u : Unit {0})
        → position ≡ p
        → same_direction p side ≡ false
        → ((at : ℕ) → planned ≡ some at → Follows candle history)
        → handle_sized environment config n s candle signal planned missing p side quantity within e
          ≡ (ok u, e')
        → IsHandled history e e'
    unfolding handle_sized queue_entry
    sized_lem n s none missing within p side quantity e e' u k d f h =
        idle e _ e' u refl refl refl refl refl h
    sized_lem n s (some at) missing false p side quantity e e' u k d f h =
        idle e _ e' u refl refl refl refl refl h
    sized_lem n s (some at) missing true none side quantity e e' u k d f h =
        let (_, _, h1) =
          step_ok (validate_request (entry_request environment config signal side quantity)) _ _
            h in
        IsHandled-as e _ e' u
          (record {
            orders = pending_entry environment config side quantity n candle signal _ ∷ [];
            queued = refl;
            shape = entry_order side quantity n _ k;
            followed = λ some_order. f at refl;
            book = refl;
            cash = refl;
            active_trade = refl;
            trades = refl;
          })
          h1
    sized_lem n s (some at) missing true (some p) side quantity e e' u k d f h =
        let (_, _, h1) = step_ok (validate_request (exit_request environment config p)) _ _ h in
        let (_, _, h2) =
          step_ok (validate_request (entry_request environment config signal side quantity)) _ _
            h1 in
        IsHandled-as e _ e' u
          (record {
            orders =
                pending_exit environment config p n candle reversal signal
                ∷ pending_entry environment config side quantity n candle signal _
                ∷ [];
            queued = append_two e.pending _ _;
            shape = reversal_orders p side quantity n _ k d;
            followed = λ some_order. f at refl;
            book = refl;
            cash = refl;
            active_trade = refl;
            trades = refl;
          })
          h2

    entry_lem :
        (n s : ℕ) (planned : Option ℕ) (missing : Bool) (p : Option Position) (side : PositionSide)
        (same : Bool) (e e' : Engine) (u : Unit {0})
        → position ≡ p
        → same_direction p side ≡ same
        → ((at : ℕ) → planned ≡ some at → Follows candle history)
        → (if same
              then modify (
                  record_evidence
                    (skip_decision n (some s) candle.close_time "pyramiding_disabled"))
                >> modify (blocked candle side "pyramiding_disabled")
              else (do
                (quantity, stop_distance) ← check (size_of environment config signal)
                within ← check (λ _. within_one_percent (risk_fraction config.risk_per_trade))
                handle_sized environment config n s candle signal planned missing p side quantity
                    within))
            e
          ≡ (ok u, e')
        → IsHandled history e e'
    entry_lem n s planned missing p side true e e' u k d f h =
        idle e _ e' u refl refl refl refl refl h
    entry_lem n s planned missing p side false e e' u k d f h =
        let ((quantity, distance), _, h1) = step_ok (size_of environment config signal e) _ _ h in
        let (within, _, h2) =
          step_ok (within_one_percent (risk_fraction config.risk_per_trade)) _ _ h1 in
        sized_lem n s planned missing within p side quantity e e' u k d f h2

    intent_lem :
        (n s : ℕ) (planned : Option ℕ) (missing : Bool) (intent : Intent)
        (side : Option PositionSide) (e e' : Engine) (u : Unit {0})
        → ((at : ℕ) → planned ≡ some at → Follows candle history)
        → handle_intent environment config n s candle signal planned missing position intent side e
          ≡ (ok u, e')
        → IsHandled history e e'
    unfolding handle_intent handle_entry
    intent_lem n s planned missing exit_position side e e' u f h =
        exit_lem n s planned missing position e e' u refl f h
    intent_lem n s planned missing enter (some side) e e' u f h =
        entry_lem n s planned missing position side (same_direction position side) e e' u refl refl
          f h
    intent_lem n s planned missing reverse (some side) e e' u f h =
        entry_lem n s planned missing position side (same_direction position side) e e' u refl refl
          f h
    intent_lem n s planned missing enter none e e' u f h =
        let k = ap (λ (x : Result (Unit {0}) × Engine). x.0) h in cc
    intent_lem n s planned missing reverse none e e' u f h =
        let k = ap (λ (x : Result (Unit {0}) × Engine). x.0) h in cc

Follows-of :
    (candle : Candle) (history : List Candle) (next : Option Candle) (at : ℕ)
    → next_candle candle history ≡ ok next
    → planned_at candle next ≡ some at
    → Follows candle history
unfolding planned_at
Follows-of candle history none at found h = cc
Follows-of candle history (some c) at found h = record {
  next = c;
  found = found;
  at_once = ground arith;
}

-- A signal that is handled changes no account, and queues an exit, an entry, or the exit of the
-- position and then the entry on the other side; it queues anything only where the next candle
-- opens exactly as this one closes.
pub handle_signal-IsHandled :
    (environment : Environment) (config : RunConfig) (candle : Candle) (signal : TradingSignal)
    (e e' : Engine) (u : Unit {0})
    → handle_signal environment config candle signal e ≡ (ok u, e')
    → (position : Option Position) × (current_position config e ≡ ok position)
      × IsHandled environment config candle signal position e.history e e'
unfolding handle_signal
handle_signal-IsHandled environment config candle signal e e' u h =
    let (position, held, h1) = step_ok (current_position config e) _ _ h in
    let ((intent, side), _, h2) = step_ok (derive_intent signal position) _ _ h1 in
    let (next, found, h3) = step_ok (next_candle candle e.history) _ _ h2 in
    let x =
      intent_lem environment config candle signal position e.history _ _ _ _ intent side _ e' u
        (λ at k. Follows-of candle e.history next at found k) h3 in
    (
      position,
      held,
      record {
        orders = x.orders;
        queued = x.queued;
        shape = x.shape;
        followed = x.followed;
        book = x.book;
        cash = x.cash;
        active_trade = x.active_trade;
        trades = x.trades;
      },
    )
