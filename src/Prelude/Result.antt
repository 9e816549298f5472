-- ===== src/Prelude/Result.antt =====
-- Python's exceptions as values: the class of the exception and its message.
use Prim.Native.String.{String}
use mathlib.Core.Path.{◌≡◌, refl}
use mathlib.Core.Bool.{Bool, true, false}
use mathlib.Core.Logic.{◌⊎◌, inl, inr}

pub data Error : Type 0 where
  value_error type_error key_error lookup_error index_error assertion_error runtime_error
        not_implemented arithmetic_error :
      String → Error

-- What a call ends with: an exception that leaves it, or the value that it returns.
pub data Result {μ} (Value : Type μ) : Type μ where
  err : (raised : Error) → Result Value
  ok : (value : Value) → Result Value

infixl 5 ◌>>◌ ◌>>=◌
abbrev pub ◌>>=◌ {μ ν} :
    {Value : Type μ} {Next : Type ν} (call : Result Value) (next : Value → Result Next)
    → Result Next
err raised >>= next = err raised
ok value >>= next = next value

abbrev pub ◌>>◌ {ν} : {Next : Type ν} (call : Result (Unit {0})) (next : Result Next) → Result Next
call >> next = call >>= λ done. next

-- `if test: raise ValueError(message)`.
abbrev pub raise_if : Bool → String → Result (Unit {0})
raise_if false message = ok tt
raise_if true message = err (value_error message)

module _ {μ} {Value : Type μ} where
  pub Result-cases :
      (call : Result Value)
      → ((value : Value) × (call ≡ ok value)) ⊎ ((raised : Error) × (call ≡ err raised))
  Result-cases (err raised) = inr (raised, refl)
  Result-cases (ok value) = inl (value, refl)

  pub ok-injective : {value other : Value} → ok value ≡ ok other → value ≡ other
  ok-injective same = cc

  -- A chain that returned went through its first call, and returned what the rest did.
  pub >>=-eq-ok {ν} :
      {Next : Type ν} (call : Result Value) (next : Value → Result Next) {last : Next}
      → (call >>= next) ≡ ok last
      → (value : Value) × (call ≡ ok value) × (next value ≡ ok last)
  >>=-eq-ok (err raised) next returned = cc
  >>=-eq-ok (ok value) next returned = (value, refl, returned)
