-- ===== src/Execution/Protection/Calls.antt =====
-- Why a bar calls for an exit of a position: the stop, the target or the liquidation level.
use trading_system_v.Prelude.{
  Bool, true, false, inl, inr, Option, some, ◌≡◌, ◌≢◌, ◌↔◌, ◌⊎◌, ◌∙◌, sym, ap, subst, arith,
  if◌then◌else◌,
}
use trading_system_v.Prelude.Int.{ℤ}
use trading_system_v.Prelude.Result.{ok, >>=-eq-ok, ok-injective}
use trading_system_v.Money.{to_decimal}
use trading_system_v.Types.Enums.{
  ExitReason, stop_loss, take_profit, liquidation, PositionSide, both, is_long,
}
use trading_system_v.Types.Position.{Position}
use trading_system_v.Types.Candle.{Candle}
use trading_system_v.Costs.Model.{CostModel}
use trading_system_v.Costs.Liquidation.{is_triggered}
use trading_system_v.Execution.Protection.{
  hits, choose, exit_of, liquidation_level, liquidation_position,
}
use trading_system_v.Execution.Protection.Precedence.{
  Reaches, NoBetterExit, StopIsHit, IsBeyond, LiquidatesFirst, chosen, choose_stop_iff,
  choose_liquidation_iff, choose_target_iff,
}
use trading_system_v.Execution.Protection.Bars.{asked_position, directed_trigger}

-- What a bar from `low` to `high` exits for, of a stop, a target and the liquidation level `own`.
abbrev pub IsCause : PositionSide → ℤ → ℤ → ℤ → Option ℤ → Option ℤ → ExitReason → ℤ → Type 0
IsCause side low high own stop take stop_loss level =
    (stop ≡ some level)
    × Reaches side low high level
    × (Reaches side low high own → IsBeyond side own level → ⊥)
IsCause side low high own stop take liquidation level =
    (level ≡ own) × Reaches side low high own × LiquidatesFirst side low high own stop
IsCause side low high own stop take take_profit level =
    (take ≡ some level)
    × NoBetterExit side (if is_long side then high else low) level
    × (Reaches side low high own → ⊥)
    × (StopIsHit side low high stop → ⊥)
IsCause side low high own stop take _ level = ⊥

no_other :
    (side : PositionSide) (low high own : ℤ) (hit : Bool) (stop take : Option ℤ)
    (reason : ExitReason) (level : ℤ)
    → chosen side low high own hit stop take ≡ some (reason, level)
    → (reason ≡ stop_loss) ⊎ ((reason ≡ liquidation) ⊎ (reason ≡ take_profit))
unfolding choose hits
no_other side low high own hit stop take reason level h = ground arith

chosen-IsCause :
    (side : PositionSide) (low high own : ℤ) (hit : Bool) (stop take : Option ℤ)
    (reason : ExitReason) (level : ℤ)
    → ((hit ≡ false) ↔ (Reaches side low high own → ⊥))
    → ((hit ≡ true) ↔ Reaches side low high own)
    → chosen side low high own hit stop take ≡ some (reason, level)
    → IsCause side low high own stop take reason level
chosen-IsCause side low high own hit stop take reason level missed reached h =
    elim (no_other side low high own hit stop take reason level h) [
      | inl is_stop ↦
          let (at, reach, first) =
            (choose_stop_iff side low high own hit stop take level).0
              (h ∙ ap (λ r. some (r, level)) is_stop) in
          subst (λ r. IsCause side low high own stop take r level) (sym is_stop)
            (at, reach, λ there. first (reached.1 there))
      | inr (inl is_liquidation) ↦
          let (at, taken, first) =
            (choose_liquidation_iff side low high own hit stop take level).0
              (h ∙ ap (λ r. some (r, level)) is_liquidation) in
          subst (λ r. IsCause side low high own stop take r level) (sym is_liquidation)
            (at, reached.0 taken, first)
      | inr (inr is_target) ↦
          let (at, reach, clear, no_stop) =
            (choose_target_iff side low high own hit stop take level).0
              (h ∙ ap (λ r. some (r, level)) is_target) in
          subst (λ r. IsCause side low high own stop take r level) (sym is_target)
            (at, reach, missed.0 clear, no_stop)
    ]

-- A bar calls for an exit at a level, where the position has a liquidation level.
pub record CallsFor (p : Position) (model : CostModel) (stop take : Option ℤ) (c : Candle)
    (reason : ExitReason) (level : ℤ) : Type 0 where
  pub own : ℤ
  pub asked : Position
  pub level_of : liquidation_level p model ≡ ok own
  pub position_of : liquidation_position p own ≡ ok asked
  pub cause : IsCause p.side (to_decimal c.low) (to_decimal c.high) own stop take reason level

pub exit_of-CallsFor :
    (p : Position) (model : CostModel) (stop take : Option ℤ) (c : Candle) (reason : ExitReason)
    (level : ℤ)
    → p.side ≢ both
    → exit_of p model stop take c ≡ ok (some (reason, level))
    → CallsFor p model stop take c reason level
unfolding exit_of
exit_of-CallsFor p model stop take c reason level directed h =
    let low = to_decimal c.low in
    let high = to_decimal c.high in
    let (own, found, h1) = >>=-eq-ok (liquidation_level p model) _ h in
    let (q, asked, h2) = >>=-eq-ok (liquidation_position p own) _ h1 in
    let (hit, test, h3) = >>=-eq-ok (is_triggered q (if is_long p.side then low else high)) _ h2 in
    let (same_side, at) = asked_position p q model own found asked in
    let (hit', test', missed, reached) = directed_trigger p.side q low high directed same_side in
    let same : hit' ≡ hit = ok-injective (sym test' ∙ test) in
    record {
      own = own;
      asked = q;
      level_of = found;
      position_of = asked;
      cause =
          chosen-IsCause p.side low high own hit stop take reason level
            (subst (λ b. (b ≡ false) ↔ (Reaches p.side low high own → ⊥)) same
              (subst (λ l. (hit' ≡ false) ↔ (Reaches p.side low high l → ⊥)) at missed))
            (subst (λ b. (b ≡ true) ↔ Reaches p.side low high own) same
              (subst (λ l. (hit' ≡ true) ↔ Reaches p.side low high l) at reached))
            (ok-injective h3);
    }
