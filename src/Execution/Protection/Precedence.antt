-- ===== src/Execution/Protection/Precedence.antt =====
-- Which exit a bar calls for, and where an exit at a level fills.
use trading_system_v.Prelude.{if◌then◌else◌, ◌≡◌, ◌↔◌, Bool, true, false, Option, none, some, arith}
use trading_system_v.Prelude.Int.{ℤ, ◌≤ℤ◌, ◌<ℤ◌}
use trading_system_v.Types.Enums.{
  PositionSide, long, short, both, is_long, ExitReason, stop_loss, take_profit, liquidation,
}
use trading_system_v.Execution.Protection.{hits, choose, protection_reference}

-- A level on the losing side of a position: a bar reaches it from above for a long.
abbrev pub Reaches : PositionSide → ℤ → ℤ → ℤ → Type 0
Reaches long low high level = low ≤ℤ level
Reaches _ low high level = level ≤ℤ high

-- A price that is no better for the position's holder than the level.
abbrev pub NoBetterExit : PositionSide → ℤ → ℤ → Type 0
NoBetterExit long level price = price ≤ℤ level
NoBetterExit _ level price = level ≤ℤ price

-- A stop that a bar reaches, where the bar opens between its low and its high, fills within the
-- bar, and at the stop or worse for the holder.
pub stop_reference :
    (side : PositionSide) (open_price low high level : ℤ)
    → low ≤ℤ open_price
    → open_price ≤ℤ high
    → Reaches side low high level
    → let r = (protection_reference side open_price level stop_loss).0 in
      (low ≤ℤ r) × (r ≤ℤ high) × NoBetterExit side level r
unfolding protection_reference
stop_reference long open_price low high level a b h = ground arith
stop_reference short open_price low high level a b h = ground arith
stop_reference both open_price low high level a b h = ground arith

-- A target that a bar reaches, where the bar opens between its low and its high, fills within
-- the bar, and at the target or better for the holder.
pub target_reference :
    (side : PositionSide) (open_price low high level : ℤ)
    → low ≤ℤ open_price
    → open_price ≤ℤ high
    → NoBetterExit side (if is_long side then high else low) level
    → let r = (protection_reference side open_price level take_profit).0 in
      (low ≤ℤ r) × (r ≤ℤ high) × NoBetterExit side r level
unfolding protection_reference
target_reference long open_price low high level a b h = ground arith
target_reference short open_price low high level a b h = ground arith
target_reference both open_price low high level a b h = ground arith

abbrev pub chosen : PositionSide → ℤ → ℤ → ℤ → Bool → Option ℤ → Option ℤ → Option (ExitReason × ℤ)
chosen side low high level hit stop take =
    choose (hits side low high level stop take hit) level stop take

abbrev pub StopIsHit : PositionSide → ℤ → ℤ → Option ℤ → Type 0
StopIsHit side low high none = ⊥
StopIsHit side low high (some s) = Reaches side low high s

abbrev pub TargetIsHit : PositionSide → ℤ → ℤ → Option ℤ → Type 0
TargetIsHit side low high none = ⊥
TargetIsHit side low high (some t) = NoBetterExit side (if is_long side then high else low) t

-- Nothing is chosen exactly when nothing is hit.
pub choose_none_iff :
    (side : PositionSide) (low high level : ℤ) (hit : Bool) (stop take : Option ℤ)
    → (chosen side low high level hit stop take ≡ none)
      ↔ ((StopIsHit side low high stop → ⊥) × (hit ≡ false) × (TargetIsHit side low high take → ⊥))
unfolding choose hits
choose_none_iff long low high level hit stop take = ground arith
choose_none_iff short low high level hit stop take = ground arith
choose_none_iff both low high level hit stop take = ground arith

-- The stop is beyond the liquidation level for the holder of the position.
abbrev pub IsBeyond : PositionSide → ℤ → ℤ → Type 0
IsBeyond long level s = s <ℤ level
IsBeyond _ level s = level <ℤ s

-- A bar exits at the stop exactly when it reaches the stop, unless the liquidation level is hit
-- too and the stop lies beyond it.
pub choose_stop_iff :
    (side : PositionSide) (low high level : ℤ) (hit : Bool) (stop take : Option ℤ) (s : ℤ)
    → (chosen side low high level hit stop take ≡ some (stop_loss, s))
      ↔ ((stop ≡ some s) × Reaches side low high s × (hit ≡ true → IsBeyond side level s → ⊥))
unfolding choose hits
choose_stop_iff long low high level hit stop take s = ground arith
choose_stop_iff short low high level hit stop take s = ground arith
choose_stop_iff both low high level hit stop take s = ground arith

-- A stop that the bar reaches, if there is one, is beyond the liquidation level.
abbrev pub LiquidatesFirst : PositionSide → ℤ → ℤ → ℤ → Option ℤ → Type 0
LiquidatesFirst side low high level none = Unit
LiquidatesFirst side low high level (some s) = Reaches side low high s → IsBeyond side level s

-- A bar exits at the liquidation level exactly when that level is hit and any stop that the bar
-- reaches lies beyond it.
pub choose_liquidation_iff :
    (side : PositionSide) (low high level : ℤ) (hit : Bool) (stop take : Option ℤ) (l : ℤ)
    → (chosen side low high level hit stop take ≡ some (liquidation, l))
      ↔ ((l ≡ level) × (hit ≡ true) × LiquidatesFirst side low high level stop)
unfolding choose hits
choose_liquidation_iff long low high level hit stop take l = ground arith
choose_liquidation_iff short low high level hit stop take l = ground arith
choose_liquidation_iff both low high level hit stop take l = ground arith

-- A bar exits at the target exactly when it reaches the target and hits neither the stop nor
-- the liquidation level.
pub choose_target_iff :
    (side : PositionSide) (low high level : ℤ) (hit : Bool) (stop take : Option ℤ) (t : ℤ)
    → (chosen side low high level hit stop take ≡ some (take_profit, t)) ↔ (
        (take ≡ some t)
        × NoBetterExit side (if is_long side then high else low) t
        × (hit ≡ false)
        × (StopIsHit side low high stop → ⊥))
unfolding choose hits
choose_target_iff long low high level hit stop take t = ground arith
choose_target_iff short low high level hit stop take t = ground arith
choose_target_iff both low high level hit stop take t = ground arith
