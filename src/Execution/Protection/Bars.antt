-- ===== src/Execution/Protection/Bars.antt =====
-- What one bar means for the exits of a position: whether it counts, whether it calls for no exit,
-- and which reference price an exit in it has.
use trading_system_v.Prelude.{
  Bool-cases, ℕ, ◌≤◌, Bool, true, false, inl, inr, Option, none, some, ◌≡◌, ◌≢◌, ◌↔◌, ◌⊎◌, ◌∙◌, sym,
  ap, refl, subst, arith, if◌then◌else◌,
}
use trading_system_v.Prelude.Int.{ℤ, pos}
use trading_system_v.Prelude.Result.{ok, >>=-eq-ok, ok-injective}
use trading_system_v.Money.{to_decimal}
use trading_system_v.Types.Enums.{
  ExitReason, stop_loss, take_profit, trailing_stop, liquidation, signal_exit, reversal, data_gap,
  end_of_data, PositionSide, long, short, both, is_long,
}
use trading_system_v.Types.Position
use trading_system_v.Types.Position.{Position}
use trading_system_v.Types.Candle.{Candle}
use trading_system_v.Costs.Model.{CostModel}
use trading_system_v.Costs.Liquidation.{is_triggered}
use trading_system_v.Execution.Protection.{
  ltb_ℤ, replaced, leb_ℤ, protection_reference, is_skipped, exit_of, liquidation_level,
  liquidation_position,
}
use trading_system_v.Execution.Protection.Precedence.{
  Reaches, NoBetterExit, StopIsHit, TargetIsHit, choose_none_iff,
}

-- The bar opened at or before the entry.
abbrev pub IsSkipped : Option ℕ → Candle → Type 0
IsSkipped none candle = ⊥
IsSkipped (some entry_time) candle = candle.open_time ≤ entry_time

pub IsSkipped-iff :
    (entry_time : Option ℕ) (c : Candle) → (is_skipped entry_time c ≡ true) ↔ IsSkipped entry_time c
IsSkipped-iff none c = (λ h. cc, λ h. absurd h)
IsSkipped-iff (some t) c = (λ h. ground arith, λ h. ground arith)

pub counts_lem :
    (entry_time : Option ℕ) (c : Candle)
    → is_skipped entry_time c ≡ false
    → IsSkipped entry_time c
    → ⊥
counts_lem entry_time c h k = let skipped = (IsSkipped-iff entry_time c).1 k in cc

-- The reference price of an exit: a liquidation has the level; a target the better one, for the
-- holder, of the level and the open of the bar; a stop the worse one.
abbrev pub IsReference : PositionSide → ℤ → ℤ → ExitReason → ℤ → Type 0
IsReference side opening level liquidation r = r ≡ level
IsReference side opening level take_profit r =
    ((r ≡ level) ⊎ (r ≡ opening)) × NoBetterExit side r level × NoBetterExit side r opening
IsReference side opening level _ r =
    ((r ≡ level) ⊎ (r ≡ opening)) × NoBetterExit side level r × NoBetterExit side opening r

pub protection_reference-IsReference :
    (side : PositionSide) (opening level : ℤ) (reason : ExitReason)
    → IsReference side opening level reason (protection_reference side opening level reason).0
unfolding protection_reference
protection_reference-IsReference side opening level liquidation = refl
protection_reference-IsReference long opening level take_profit = ground arith
protection_reference-IsReference short opening level take_profit = ground arith
protection_reference-IsReference both opening level take_profit = ground arith
protection_reference-IsReference long opening level stop_loss = ground arith
protection_reference-IsReference short opening level stop_loss = ground arith
protection_reference-IsReference both opening level stop_loss = ground arith
protection_reference-IsReference long opening level trailing_stop = ground arith
protection_reference-IsReference short opening level trailing_stop = ground arith
protection_reference-IsReference both opening level trailing_stop = ground arith
protection_reference-IsReference long opening level signal_exit = ground arith
protection_reference-IsReference short opening level signal_exit = ground arith
protection_reference-IsReference both opening level signal_exit = ground arith
protection_reference-IsReference long opening level reversal = ground arith
protection_reference-IsReference short opening level reversal = ground arith
protection_reference-IsReference both opening level reversal = ground arith
protection_reference-IsReference long opening level data_gap = ground arith
protection_reference-IsReference short opening level data_gap = ground arith
protection_reference-IsReference both opening level data_gap = ground arith
protection_reference-IsReference long opening level end_of_data = ground arith
protection_reference-IsReference short opening level end_of_data = ground arith
protection_reference-IsReference both opening level end_of_data = ground arith

pub directed_trigger :
    (side : PositionSide) (q : Position) (low high : ℤ)
    → side ≢ both
    → q.side ≡ side
    → (hit : Bool) × (is_triggered q (if is_long side then low else high) ≡ ok hit)
      × ((hit ≡ false) ↔ (Reaches side low high q.liquidation_price → ⊥))
      × ((hit ≡ true) ↔ Reaches side low high q.liquidation_price)
unfolding is_triggered
directed_trigger long q low high directed own =
    (leb_ℤ low q.liquidation_price, rw own refl, ground arith, ground arith)
directed_trigger short q low high directed own =
    (leb_ℤ q.liquidation_price high, rw own refl, ground arith, ground arith)
directed_trigger both q low high directed own = absurd (directed refl)

post_init_keeps : (p : Position) → (Position.post_init p).1 ≡ p
unfolding Position.post_init
post_init_keeps p = ground arith

replaced_lem : (p q : Position) → replaced p ≡ ok q → q ≡ p
unfolding replaced
replaced_lem p q h = ground (arith, post_init_keeps p)

own_level :
    (p q : Position) (model : CostModel) (level : ℤ)
    → ltb_ℤ (pos 0) p.liquidation_price ≡ true
    → liquidation_level p model ≡ ok level
    → liquidation_position p level ≡ ok q
    → (q ≡ p) × (p.liquidation_price ≡ level)
unfolding liquidation_level liquidation_position
own_level p q model level own found asked = (ground arith, ground arith)

derived_level :
    (p q : Position) (level : ℤ)
    → ltb_ℤ (pos 0) p.liquidation_price ≡ false
    → liquidation_position p level ≡ ok q
    → q ≡ record p { liquidation_price = level }
unfolding liquidation_position
derived_level p q level own asked =
    replaced_lem (record p { liquidation_price = level }) q (ground arith)

-- The position that is asked has the level.
pub asked_position :
    (p q : Position) (model : CostModel) (level : ℤ)
    → liquidation_level p model ≡ ok level
    → liquidation_position p level ≡ ok q
    → (q.side ≡ p.side) × (q.liquidation_price ≡ level)
asked_position p q model level found asked = elim (Bool-cases (ltb_ℤ (pos 0) p.liquidation_price)) [
  | inl own ↦
      let (same, at) = own_level p q model level own found asked in
      (ap (λ (x : Position). x.side) same, ap (λ (x : Position). x.liquidation_price) same ∙ at)
  | inr derived ↦
      let same = derived_level p q level derived asked in
      (ap (λ (x : Position). x.side) same, ap (λ (x : Position). x.liquidation_price) same)
]

-- A bar calls for no exit: the position has a liquidation level, and the bar reaches neither it
-- nor the stop nor the target.
pub record IsQuiet (p : Position) (model : CostModel) (stop take : Option ℤ) (c : Candle)
    : Type 0 where
  pub level : ℤ
  pub asked : Position
  pub level_of : liquidation_level p model ≡ ok level
  pub position_of : liquidation_position p level ≡ ok asked
  pub above : Reaches p.side (to_decimal c.low) (to_decimal c.high) level → ⊥
  pub no_stop : StopIsHit p.side (to_decimal c.low) (to_decimal c.high) stop → ⊥
  pub no_target : TargetIsHit p.side (to_decimal c.low) (to_decimal c.high) take → ⊥

exit_of-IsQuiet :
    (p : Position) (model : CostModel) (stop take : Option ℤ) (c : Candle)
    → p.side ≢ both
    → exit_of p model stop take c ≡ ok none
    → IsQuiet p model stop take c
unfolding exit_of
exit_of-IsQuiet p model stop take c directed h =
    let low = to_decimal c.low in
    let high = to_decimal c.high in
    let (level, found, h1) = >>=-eq-ok (liquidation_level p model) _ h in
    let (q, asked, h2) = >>=-eq-ok (liquidation_position p level) _ h1 in
    let (hit, test, h3) = >>=-eq-ok (is_triggered q (if is_long p.side then low else high)) _ h2 in
    let (own, at) = asked_position p q model level found asked in
    let (hit', test', reached, _) = directed_trigger p.side q low high directed own in
    let same : hit' ≡ hit = ok-injective (sym test' ∙ test) in
    let (no_stop, no_hit, no_target) =
      (choose_none_iff p.side low high level hit stop take).0 (ok-injective h3) in
    record {
      level = level;
      asked = q;
      level_of = found;
      position_of = asked;
      above = subst (λ l. Reaches p.side low high l → ⊥) at (reached.0 (same ∙ no_hit));
      no_stop = no_stop;
      no_target = no_target;
    }

IsQuiet-exit_of :
    (p : Position) (model : CostModel) (stop take : Option ℤ) (c : Candle)
    → p.side ≢ both
    → IsQuiet p model stop take c
    → exit_of p model stop take c ≡ ok none
unfolding exit_of
IsQuiet-exit_of p model stop take c directed x =
    let low = to_decimal c.low in
    let high = to_decimal c.high in
    let (own, at) = asked_position p x.asked model x.level x.level_of x.position_of in
    let (hit, test, reached, _) = directed_trigger p.side x.asked low high directed own in
    let missed = reached.1 (subst (λ l. Reaches p.side low high l → ⊥) (sym at) x.above) in
    rw (x.level_of) (
      rw (x.position_of) (
        rw test (
          ap ok (
            (choose_none_iff p.side low high x.level hit stop take).1
              (x.no_stop, missed, x.no_target)))))

-- A position of one direction has no exit in a bar exactly when the bar is quiet.
pub IsQuiet-iff :
    (p : Position) (model : CostModel) (stop take : Option ℤ) (c : Candle)
    → p.side ≢ both
    → (exit_of p model stop take c ≡ ok none) ↔ IsQuiet p model stop take c
IsQuiet-iff p model stop take c directed =
    (exit_of-IsQuiet p model stop take c directed, IsQuiet-exit_of p model stop take c directed)
