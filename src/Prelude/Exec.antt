-- ===== src/Prelude/Exec.antt =====
-- Methods that mutate an object and may raise. What was written before a raise stays written, so
-- the object comes back beside the error too.
use mathlib.Core.Bool.{Bool, true, false}
use mathlib.Core.Path.{◌≡◌, refl, ap}
use Prim.Native.String.{String}
use trading_system_v.Prelude.Result.{value_error, Result, ok, err}

abbrev pub Exec {ℓ} : Type ℓ → Type ℓ → Type ℓ
Exec S A = S → Result A × S

infixl 5 ◌>>=◌ ◌>>◌
abbrev pub ◌>>=◌ {ℓ} : {S A B : Type ℓ} → Exec S A → (A → Exec S B) → Exec S B
◌>>=◌ m f s = let (r, s') = m s in elim r [ ok a ↦ f a s' | err e ↦ (err e, s') ]

abbrev pub ◌>>◌ {ℓ} : {S A B : Type ℓ} → Exec S A → Exec S B → Exec S B
m >> n = m >>= λ _. n

abbrev pub pure {ℓ} : {S A : Type ℓ} → A → Exec S A
pure a s = (ok a, s)

-- A call that reads the object, and may raise.
abbrev pub check {ℓ} : {S A : Type ℓ} → (S → Result A) → Exec S A
check f s = (f s, s)

abbrev pub modify : {S : Type 0} → (S → S) → Exec S (Unit {0})
modify f s = (ok tt, f s)

-- `if test: raise ValueError(message)`, where the test may read the object.
abbrev pub guard : {S : Type 0} → (S → Bool) → String → Exec S (Unit {0})
guard test message s = (elim (test s) [ true ↦ err (value_error message) | false ↦ ok tt ], s)

-- A chain that returned went through its first call, `call`, and returned what the rest did.
pub step_ok {ℓ} :
    {S A B : Type ℓ} (call : Result A) (s : S) (rest : A → Result B × S) {s' : S} {b : B}
    → ◌≡◌ {A = Result B × S} (elim call [ ok a ↦ rest a | err e ↦ (err e, s) ]) (ok b, s')
    → (a : A) × (call ≡ ok a) × (rest a ≡ (ok b, s'))
step_ok (ok a) s rest h = (a, refl, h)
step_ok {S = S} {B = B} (err e) s rest h = let k = ap (λ (x : Result B × S). x.0) h in cc
