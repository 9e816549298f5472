-- ===== src/Execution/Protection/Rounds.antt =====
-- One round of the loop of `resolve_triggers`, over what it looks up.
use trading_system_v.Prelude.{
  ◌≢◌, ◌≢◌, String, Bool, true, false, inl, inr, Option, none, some, ◌≡◌, ◌↔◌, ◌⊎◌, ◌∙◌, sym, ap,
  refl, arith, if◌then◌else◌,
}
use trading_system_v.Prelude.Int.{ℤ}
use trading_system_v.Prelude.Result.{◌>>=◌, ◌>>◌, Result, ok, err, ok-injective, raise_if}
use trading_system_v.Types.Enums.{ExitReason, PositionSide, long, short, both, side_eq}
use trading_system_v.Types.Fill.{Fill}
use trading_system_v.Execution.Protection.{some_fill}

some-injective : {f g : Fill} → some f ≡ some g → f ≡ g
some-injective h = cc

some_fill_lem :
    (r : Result Fill) (found : Option Fill)
    → some_fill r ≡ ok found
    → (f : Fill) × (r ≡ ok f) × (found ≡ some f)
unfolding some_fill
some_fill_lem (ok f) found h = (f, refl, sym (ok-injective h))
some_fill_lem (err e) found h = cc

pub passed :
    (test : Bool) (message : String) (r : Result (Option Fill)) (found : Option Fill)
    → test ≡ false
    → ((raise_if test message >> r) ≡ ok found) ↔ (r ≡ ok found)
passed true message r found h = (λ k. cc, λ k. cc)
passed false message r found h = (λ k. k, λ k. k)

pub not_both : (side : PositionSide) → side ≢ both → side_eq side both ≡ false
not_both long h = refl
not_both short h = refl
not_both both h = absurd (h refl)

-- One round of the loop, over what it looks up.
abbrev pub step :
    Bool
    → Result (Option (ExitReason × ℤ))
    → (ExitReason × ℤ → Result Fill)
    → Result (Option Fill)
    → Result (Option Fill)
step skipped exit at rest =
    if skipped
    then rest
    else (exit >>= (λ e. elim e [ none ↦ rest | some chosen ↦ some_fill (at chosen) ]))

pub step-none :
    (skipped : Bool) (exit : Result (Option (ExitReason × ℤ))) (at : ExitReason × ℤ → Result Fill)
    (rest : Result (Option Fill))
    → (step skipped exit at rest ≡ ok none)
      ↔ (((skipped ≡ true) ⊎ (exit ≡ ok none)) × (rest ≡ ok none))
step-none true exit at rest = (λ h. (inl refl, h), λ h. h.1)
step-none false (ok none) at rest = (λ h. (inr refl, h), λ h. h.1)
step-none false (ok (some x)) at rest = (
  λ h. let (f, _, e) = some_fill_lem (at x) none h in absurd (ground arith),
  λ h. absurd (ground arith),
)
step-none false (err e) at rest = (λ h. cc, λ h. absurd (ground arith))

pub step-some :
    (skipped : Bool) (exit : Result (Option (ExitReason × ℤ))) (at : ExitReason × ℤ → Result Fill)
    (rest : Result (Option Fill)) (f : Fill)
    → step skipped exit at rest ≡ ok (some f)
    → ((skipped ≡ false) × (x : ExitReason × ℤ) × (exit ≡ ok (some x)) × (at x ≡ ok f))
      ⊎ (((skipped ≡ true) ⊎ (exit ≡ ok none)) × (rest ≡ ok (some f)))
step-some true exit at rest f h = inr (inl refl, h)
step-some false (ok none) at rest f h = inr (inr refl, h)
step-some false (ok (some x)) at rest f h =
    let (g, e, k) = some_fill_lem (at x) (some f) h in
    inl (refl, x, refl, e ∙ ap ok (sym (some-injective k)))
step-some false (err e) at rest f h = cc
