-- ===== src/Eval/Integrity.antt =====
-- eval/integrity.py: the facts about the evidence that must hold before it is evaluated.
use trading_system_v.Prelude.{
  ◌≢◌, String, Bool, true, false, not, Option, none, some, List, [], ◌∷◌, ◌++◌, ◌≡◌, ◌↔◌, arith,
  if◌then◌else◌,
}

abbrev pub required_checks : List String
required_checks =
    "accounting_identity" ∷ "timestamp_order" ∷ "cost_once" ∷ "net_of_cost" ∷ "deterministic"
    ∷ "evidence_complete" ∷ []

pub record IntegrityResult : Type 0 where
  pub passed : Bool
  pub failed_checks : List String

-- `evidence.get(name) is not True`.
abbrev pub is_not_true : Option Bool → Bool
is_not_true (some true) = false
is_not_true _ = true

unfoldable pub failing : (String → Option Bool) → List String → List String
failing evidence [] = []
failing evidence (name ∷ names) =
    let rest = failing evidence names in if is_not_true (evidence name) then name ∷ rest else rest

-- `name in evidence and evidence[name] is not True`.
abbrev pub present_and_not_true : Option Bool → Bool
present_and_not_true none = false
present_and_not_true (some b) = not b

abbrev is_empty : List String → Bool
is_empty [] = true
is_empty (_ ∷ _) = false

-- `check`, on the mapping of the evidence as a function.
unfoldable pub check : (String → Option Bool) → IntegrityResult
check evidence =
    let failed =
      failing evidence required_checks
      ++ (if present_and_not_true (evidence "trailing_parity")
          then "trailing_parity" ∷ []
          else []) in
    record { passed = is_empty failed; failed_checks = failed }

abbrev pub AllTrue : (String → Option Bool) → List String → Type 0
AllTrue evidence [] = Unit {0}
AllTrue evidence (name ∷ names) = (evidence name ≡ some true) × AllTrue evidence names

-- The evidence passes exactly when the six required checks are all there and true, and the
-- check of trailing parity is not there as false.
pub check_iff :
    (evidence : String → Option Bool)
    → ((check evidence).passed ≡ true)
      ↔ (AllTrue evidence required_checks × (evidence "trailing_parity" ≢ some false))
unfolding check failing
check_iff evidence = (λ h. (ground arith, λ e. ground arith), λ h. ground (arith))
