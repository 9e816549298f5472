-- ===== src/Execution/Protection/Exits.antt =====
-- What `resolve_triggers` returns: the exit of the first bar, in order of time, that calls for one.
use trading_system_v.Prelude.{
  ◌≢◌, ◌≢◌, ◌||◌, ℕ, String, Bool, true, false, inl, inr, Option, none, some, List, [], ◌∷◌, ◌≡◌,
  ◌↔◌, ◌⊎◌, ◌∙◌, sym, ap, refl, subst, arith, if◌then◌else◌,
}
use trading_system_v.Prelude.Int.{ℤ, pos, ◌<ℤ◌}
use trading_system_v.Prelude.Result.{ok, >>=-eq-ok, ok-injective}
use trading_system_v.Prelude.Sort.{sort}
use trading_system_v.Money.{to_decimal}
use trading_system_v.Types.Enums.{
  ExitReason, PositionSide, both, side_eq, is_long, buy, sell, OrderSide,
}
use trading_system_v.Types.Order
use trading_system_v.Types.Order.{Order}
use trading_system_v.Types.Position.{Position}
use trading_system_v.Types.Candle.{Candle}
use trading_system_v.Types.Fill
use trading_system_v.Types.Fill.{Fill}
use trading_system_v.Costs.Model.{CostModel}
use trading_system_v.Execution.Pricing.{fill}
use trading_system_v.Execution.Pricing.Filled.{AtOrBeyond, fill-IsFilled, execution_price_lem}
use trading_system_v.Execution.Protection.{
  leb_ℤ, raise_if, liquidation, liquidation_fill, protection_reference, is_skipped, exit_of,
  synthetic_exit_order, exit_fill, exit_at, resolve_candles, resolve_triggers,
}
use trading_system_v.Execution.Protection.Bars.{
  IsSkipped, IsReference, IsQuiet, IsSkipped-iff, counts_lem, IsQuiet-iff,
  protection_reference-IsReference,
}
use trading_system_v.Execution.Protection.Calls.{CallsFor, exit_of-CallsFor}
use trading_system_v.Execution.Protection.Rounds.{passed, not_both, step-none, step-some}

-- The candles in the order in which they are looked at.
abbrev pub sorted_candles : List Candle → List Candle
sorted_candles candles = sort (λ c. c.open_time) candles

-- The side that closes a position.
abbrev pub closing_side : PositionSide → OrderSide
closing_side side = if is_long side then sell else buy

-- An exit of the whole position at a bar, for a reason and at a reference price.
pub record IsExit (p : Position) (time : ℕ) (reason : ExitReason) (reference : ℤ) (f : Fill)
    : Type 0 where
  pub quantity : f.quantity ≡ p.quantity
  pub symbol : f.symbol ≡ p.symbol
  pub side : f.side ≡ closing_side p.side
  pub position_side : f.position_side ≡ p.side
  pub reduce_only : f.reduce_only ≡ true
  pub exit_reason : f.exit_reason ≡ some reason
  pub timestamp : f.timestamp ≡ time
  pub reference_price : f.reference_price ≡ reference
  pub against : AtOrBeyond (closing_side p.side) reference f.price
  pub some_quantity : pos 0 <ℤ f.quantity
  pub valid : Fill.IsValid f

module _ (exit_id : String → ℕ → ExitReason → String) (p : Position) (model : CostModel) where
  order_lem :
      (t : ℕ) (reason : ExitReason) (o : Order)
      → synthetic_exit_order exit_id p t reason ≡ ok o
      → (o.side ≡ closing_side p.side)
        × (o.symbol ≡ p.symbol)
        × (o.position_side ≡ p.side)
        × (o.reduce_only ≡ true)
  unfolding synthetic_exit_order Order.post_init
  order_lem t reason o h = (ground arith, ground arith, ground arith, ground arith)

  exit_fill-IsExit :
      (reference : ℤ) (gap : Bool) (order_time fill_time : ℕ) (reason : ExitReason) (f : Fill)
      → exit_fill exit_id p reference gap order_time fill_time reason model ≡ ok f
      → IsExit p fill_time reason reference f
  unfolding exit_fill
  exit_fill-IsExit reference gap order_time fill_time reason f h =
      let (o, ho, h1) = >>=-eq-ok (synthetic_exit_order exit_id p order_time reason) _ h in
      let ((f', o'), hf, h2) =
        >>=-eq-ok
          (fill o
            (record {
              reference = reference;
              quantity = p.quantity;
              timestamp = fill_time;
              gap_filled = gap;
              qty_truncated = false;
              exit_reason = some reason;
            })
            model)
          _ h1 in
      let facts = fill-IsFilled o _ model f' o' hf in
      let (s, priced) = facts.priced in
      let (positive, _, _, against) =
        execution_price_lem o reference p.quantity model gap f'.price s priced in
      let (side, symbol, position_side, reduce_only) = order_lem order_time reason o ho in
      subst (IsExit p fill_time reason reference) (ok-injective h2) (record {
        valid = facts.facts;
        quantity = facts.quantity;
        symbol = facts.symbol ∙ symbol;
        side = facts.side ∙ side;
        position_side = facts.position_side ∙ position_side;
        reduce_only = facts.reduce_only ∙ ap (λ x. x || o.close_position) reduce_only;
        exit_reason = facts.exit_reason;
        timestamp = facts.timestamp;
        reference_price = facts.reference;
        against = subst (λ x. AtOrBeyond x reference f'.price) side against;
        some_quantity = subst (λ x. pos 0 <ℤ x) (sym facts.quantity) positive;
      })

  module _ (stop take : Option ℤ) (entry_time : Option ℕ) where
    -- A bar that opened at or before the entry, or that reaches no level of the position.
    abbrev pub Passes : Candle → Type 0
    Passes c = IsSkipped entry_time c ⊎ IsQuiet p model stop take c

    abbrev pub AllPass : List Candle → Type 0
    AllPass [] = Unit {0}
    AllPass (c ∷ cs) = Passes c × AllPass cs

    -- The first bar that counts and calls for an exit, and the fill there.
    pub data FirstExit : List Candle → Fill → Type 0 where
      here :
          {c : Candle} {cs : List Candle} {f : Fill} (reason : ExitReason) (level reference : ℤ)
          → (IsSkipped entry_time c → ⊥)
          → CallsFor p model stop take c reason level
          → IsReference p.side (to_decimal c.opening) level reason reference
          → IsExit p c.close_time reason reference f
          → FirstExit (c ∷ cs) f
      later :
          {c : Candle} {cs : List Candle} {f : Fill}
          → Passes c
          → FirstExit cs f
          → FirstExit (c ∷ cs) f

    passes :
        (c : Candle)
        → p.side ≢ both
        → (is_skipped entry_time c ≡ true) ⊎ (exit_of p model stop take c ≡ ok none)
        → Passes c
    passes c directed (inl skipped) = inl ((IsSkipped-iff entry_time c).0 skipped)
    passes c directed (inr quiet) = inr ((IsQuiet-iff p model stop take c directed).0 quiet)

    passed_by :
        (c : Candle)
        → p.side ≢ both
        → Passes c
        → (is_skipped entry_time c ≡ true) ⊎ (exit_of p model stop take c ≡ ok none)
    passed_by c directed (inl skipped) = inl ((IsSkipped-iff entry_time c).1 skipped)
    passed_by c directed (inr quiet) = inr ((IsQuiet-iff p model stop take c directed).1 quiet)

    resolve_none :
        (cs : List Candle)
        → p.side ≢ both
        → (resolve_candles exit_id p model stop take entry_time cs ≡ ok none) ↔ AllPass cs
    unfolding resolve_candles
    resolve_none [] directed = (λ h. tt, λ h. refl)
    resolve_none (c ∷ cs) directed =
        let one =
          step-none (is_skipped entry_time c) (exit_of p model stop take c)
            (exit_at exit_id p model c) (resolve_candles exit_id p model stop take entry_time cs) in
        let all = resolve_none cs directed in
        (
          λ h. let (a, b) = one.0 h in (passes c directed a, all.0 b),
          λ h. one.1 (passed_by c directed h.0, all.1 h.1),
        )

    exit_at-IsExit :
        (c : Candle) (reason : ExitReason) (level : ℤ) (f : Fill)
        → exit_at exit_id p model c (reason, level) ≡ ok f
        → IsExit p c.close_time reason
            (protection_reference p.side (to_decimal c.opening) level reason).0
            f
    unfolding exit_at
    exit_at-IsExit c reason level f h =
        let r = protection_reference p.side (to_decimal c.opening) level reason in
        exit_fill-IsExit r.0 r.1 c.open_time c.close_time reason f h

    resolve_some :
        (cs : List Candle) (f : Fill)
        → p.side ≢ both
        → resolve_candles exit_id p model stop take entry_time cs ≡ ok (some f)
        → FirstExit cs f
    unfolding resolve_candles
    resolve_some [] f directed h = absurd (ground arith)
    resolve_some (c ∷ cs) f directed h =
        elim (step-some (is_skipped entry_time c) (exit_of p model stop take c)
          (exit_at exit_id p model c) (resolve_candles exit_id p model stop take entry_time cs) f
          h) [
            | inl (counts, (reason, level), exit, at) ↦
                here reason level _ (counts_lem entry_time c counts)
                  (exit_of-CallsFor p model stop take c reason level directed exit)
                  (protection_reference-IsReference p.side (to_decimal c.opening) level reason)
                  (exit_at-IsExit c reason level f at)
            | inr (left, rest) ↦ later (passes c directed left) (resolve_some cs f directed rest)
          ]

    resolve_checked :
        (candles : List Candle) (found : Option Fill)
        → p.side ≢ both
        → (resolve_triggers exit_id p candles model stop take entry_time ≡ ok found) ↔ (
            resolve_candles exit_id p model stop take entry_time (sorted_candles candles)
            ≡ ok found)
    unfolding resolve_triggers
    resolve_checked candles found directed =
        passed (side_eq p.side both) "trigger direction is ambiguous for PositionSide.BOTH"
          (resolve_candles exit_id p model stop take entry_time (sorted_candles candles)) found
          (not_both p.side directed)

    -- For a position with one direction, resolve_triggers returns no fill exactly when every
    -- candle opened at or before the entry, or reaches neither the stop nor the target nor the
    -- liquidation level that the position then has.
    pub resolve_none_iff :
        (candles : List Candle)
        → p.side ≢ both
        → (resolve_triggers exit_id p candles model stop take entry_time ≡ ok none)
          ↔ AllPass (sorted_candles candles)
    resolve_none_iff candles directed =
        let checked = resolve_checked candles none directed in
        let all = resolve_none (sorted_candles candles) directed in
        (λ h. all.0 (checked.0 h), λ h. checked.1 (all.1 h))

    -- For a position with one direction, a fill that resolve_triggers returns is the exit of
    -- the first candle, in order of open time, that opened after the entry and calls for an
    -- exit: at the stop that it reaches, unless it reaches the liquidation level before that;
    -- at the liquidation level that it reaches, unless it reaches a stop that is not beyond it;
    -- or at the target that it reaches, where it reaches neither of the others. Each candle
    -- before it opened at or before the entry or reaches none of the three. The fill closes the
    -- whole position on the closing side, reduce-only, at a reference price or worse: the level
    -- for a liquidation, the better one for the holder of the level and the open for a target,
    -- the worse one for a stop.
    pub resolve_some_lem :
        (candles : List Candle) (f : Fill)
        → p.side ≢ both
        → resolve_triggers exit_id p candles model stop take entry_time ≡ ok (some f)
        → FirstExit (sorted_candles candles) f
    resolve_some_lem candles f directed h =
        resolve_some (sorted_candles candles) f directed
          ((resolve_checked candles (some f) directed).0 h)

-- The fill of `liquidation_fill` is an exit of the whole position at the price that is given.
pub liquidation_fill-IsExit :
    (exit_id : String → ℕ → ExitReason → String) (p : Position) (price : ℤ) (time : ℕ)
    (model : CostModel) (f : Fill)
    → liquidation_fill exit_id p price time model ≡ ok f
    → IsExit p time liquidation price f
unfolding liquidation_fill
liquidation_fill-IsExit exit_id p price time model f h =
    let (_, _, h1) = >>=-eq-ok (raise_if (leb_ℤ price (pos 0)) _) _ h in
    exit_fill-IsExit exit_id p model price false time time liquidation f h1
