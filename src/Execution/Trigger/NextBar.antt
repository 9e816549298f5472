-- ===== src/Execution/Trigger/NextBar.antt =====
-- The next-bar rule of `_execution_candle`: the first bar after the decision, and never before it.
use trading_system_v.Prelude.{
  true, false, refl, ◌&&◌, ◌+◌, if◌then◌else◌, subst, ◌≡◌, ◌≤◌, ◌<◌, List, [], ◌∷◌, arith,
}
use trading_system_v.Prelude.Result.{ok, ok-injective}
use trading_system_v.Prelude.Sort.{
  sort-All, All, sort, IsAbove, IsSorted, sort-IsSorted, sort-IsAbove,
}
use trading_system_v.Types.Candle.{Candle}
use trading_system_v.Execution.Trigger.{
  leb, to_decimal, not, HistoryItem, Execution, candidates, open_time_of, next_bar,
  execution_candle, next_execution,
}

candidates-IsAbove :
    (c : Candle) (hs : List HistoryItem) → IsAbove open_time_of c.close_time (candidates c hs)
unfolding candidates
candidates-IsAbove c [] = tt
candidates-IsAbove c (h ∷ hs) = ground (arith, candidates-IsAbove c hs)

next_execution_lem :
    (c : Candle) (hs : List HistoryItem) (e : Execution)
    → IsSorted open_time_of hs
    → IsAbove open_time_of c.close_time hs
    → next_execution c hs ≡ ok e
    → (c.close_time ≤ e.candle.open_time)
      × (c.close_time < e.timestamp)
      × (e.candle.open_time ≤ e.timestamp)
      × IsAbove open_time_of e.candle.open_time hs
unfolding next_execution
next_execution_lem c [] e s a h = cc
next_execution_lem c (x ∷ xs) e s a h =
    subst
      (λ (u : Execution).
        (c.close_time ≤ u.candle.open_time)
        × (c.close_time < u.timestamp)
        × (u.candle.open_time ≤ u.timestamp)
        × IsAbove open_time_of u.candle.open_time (x ∷ xs))
      (ok-injective h) (a.0, ground arith, ground arith, (omega arith, s.0))

-- A next-bar execution takes a candle that opens at or after the close of the decision candle
-- and no later than any other candidate, and is dated after that close and not before the open
-- of the candle.
pub next_bar_lem :
    (c : Candle) (history : List HistoryItem) (e : Execution)
    → execution_candle c history next_bar ≡ ok e
    → (c.close_time ≤ e.candle.open_time)
      × (c.close_time < e.timestamp)
      × (e.candle.open_time ≤ e.timestamp)
      × IsAbove open_time_of e.candle.open_time (candidates c history)
unfolding execution_candle
next_bar_lem c history e h =
    let cs = candidates c history in
    let (a, b, d, f) =
      next_execution_lem c (sort open_time_of cs) e (sort-IsSorted open_time_of cs)
        ((sort-IsAbove open_time_of c.close_time cs).0 (candidates-IsAbove c history)) h in
    (a, b, d, (sort-IsAbove open_time_of e.candle.open_time cs).1 f)

candidates-All :
    (P : HistoryItem → Type 0) (c : Candle) (hs : List HistoryItem)
    → All open_time_of P hs
    → All open_time_of P (candidates c hs)
unfolding candidates
candidates-All P c [] a = tt
candidates-All P c (h ∷ hs) a =
    elim (not h.is_decision && leb c.close_time h.candle.open_time)
      as (λ b. All open_time_of P (if b then h ∷ candidates c hs else candidates c hs)) [
        | true ↦ (a.0, candidates-All P c hs a.1)
        | false ↦ candidates-All P c hs a.1
      ]

next_terms :
    (P : Candle → Type 0) (c : Candle) (hs : List HistoryItem) (e : Execution)
    → All open_time_of (λ h. P h.candle) hs
    → next_execution c hs ≡ ok e
    → P e.candle
      × (e.reference ≡ to_decimal e.candle.opening)
      × (e.candle.open_time ≤ c.close_time + 1000 → e.timestamp ≡ c.close_time + 1000)
unfolding next_execution
next_terms P c [] e a h = cc
next_terms P c (x ∷ xs) e a h =
    subst
      (λ (u : Execution).
        P u.candle
        × (u.reference ≡ to_decimal u.candle.opening)
        × (u.candle.open_time ≤ c.close_time + 1000 → u.timestamp ≡ c.close_time + 1000))
      (ok-injective h) (a.0, refl, λ early. ground arith)

-- A next-bar execution is in a candle of the history, at its open, and a second after the decision
-- closed unless the candle opens later than that.
pub next_bar_terms :
    (P : Candle → Type 0) (c : Candle) (history : List HistoryItem) (e : Execution)
    → All open_time_of (λ h. P h.candle) history
    → execution_candle c history next_bar ≡ ok e
    → P e.candle
      × (e.reference ≡ to_decimal e.candle.opening)
      × (e.candle.open_time ≤ c.close_time + 1000 → e.timestamp ≡ c.close_time + 1000)
unfolding execution_candle
next_bar_terms P c history e a h =
    let cs = candidates c history in
    next_terms P c (sort open_time_of cs) e
      (sort-All open_time_of (λ h. P h.candle) cs (candidates-All (λ h. P h.candle) c history a)) h
