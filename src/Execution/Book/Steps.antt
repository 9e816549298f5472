-- ===== src/Execution/Book/Steps.antt =====
-- execution/position_book.py: what each call on the book that succeeds writes under its key.
use trading_system_v.Prelude.{
  String, Bool, true, false, not, if◌then◌else◌, Option, none, some, ◌≡◌, ◌∙◌, sym, ap, refl,
}
use trading_system_v.Prelude.Int.{ℤ}
use trading_system_v.Prelude.Result.{Result, ok, err}
use trading_system_v.Prelude.Exec.{Exec, ◌>>=◌, ◌>>◌, check, guard, modify, pure}
use trading_system_v.Types.Enums.{PositionSide}
use trading_system_v.Types.Position.{Position, reduce_quantity}
use trading_system_v.Types.Fill.{Fill}
use trading_system_v.Execution.Book.{
  key_error, Book, set, on_position, lookup, found, increase, weighted_average, drop_flat, reduce,
  Opening, open_position, ignore, apply,
}

-- A call on the held object writes that object back.
on_lem :
    {A : Type 0} (symbol : String) (side : PositionSide) (p : Position) (m : Exec Position A)
    (b b' : Book) (a : A)
    → on_position symbol side p m b ≡ (ok a, b')
    → (p' : Position) × (m p ≡ (ok a, p')) × (b' ≡ set symbol side (some p') b)
unfolding on_position
on_lem {A = A} symbol side p m b b' a h = (
  (m p).1,
  λ i. (ap (λ (x : Result A × Book). x.0) h i, (m p).1),
  ap (λ (x : Result A × Book). x.1) (sym h),
)

weighted_at :
    (r : Result Position) (reduce_only : Bool) (symbol : String) (side : PositionSide)
    (message : String) (q price : ℤ) (b b' : Book) (a : ℤ)
    → ◌>>=◌ {B = ℤ}
        (check (λ _. r))
        (λ p. guard (λ _. reduce_only) message >> on_position symbol side p (increase q price))
        b
      ≡ (ok a, b')
    → (p p' : Position) × (r ≡ ok p)
      × (increase q price p ≡ (ok a, p'))
      × (b' ≡ set symbol side (some p') b)
weighted_at (ok p) false symbol side message q price b b' a h =
    let (p', e, k) = on_lem symbol side p (increase q price) b b' a h in (p, p', refl, e, k)
weighted_at (ok p) true symbol side message q price b b' a h =
    let k = ap (λ (x : Result ℤ × Book). x.0) h in cc
weighted_at (err e) ro symbol side message q price b b' a h =
    let k = ap (λ (x : Result ℤ × Book). x.0) h in cc

dropped_at :
    (x : Result ℤ × Book) (symbol : String) (side : PositionSide) (b' : Book) (a : ℤ)
    → ◌≡◌ {A = Result ℤ × Book}
        (elim x.0 [ ok r ↦ (ok r, drop_flat symbol side x.1) | err e ↦ (err e, x.1) ])
        (ok a, b')
    → (x ≡ (ok a, x.1)) × (b' ≡ drop_flat symbol side x.1)
dropped_at (ok r, s) symbol side b' a h =
    (λ i. (ap (λ (x : Result ℤ × Book). x.0) h i, s), ap (λ (x : Result ℤ × Book). x.1) (sym h))
dropped_at (err e, s) symbol side b' a h = let k = ap (λ (x : Result ℤ × Book). x.0) h in cc

reduced_at :
    (r : Result Position) (symbol : String) (side : PositionSide) (q : ℤ) (b b' : Book) (a : ℤ)
    → ◌>>=◌ {B = ℤ}
        (check (λ _. r))
        (λ p. on_position symbol side p (reduce_quantity q) >>= λ released.
          modify (drop_flat symbol side) >> pure released)
        b
      ≡ (ok a, b')
    → (p p' : Position) × (r ≡ ok p)
      × (reduce_quantity q p ≡ (ok a, p'))
      × (b' ≡ drop_flat symbol side (set symbol side (some p') b))
reduced_at (ok p) symbol side q b b' a h =
    let x = on_position symbol side p (reduce_quantity q) b in
    let (e, k) = dropped_at x symbol side b' a h in
    let (p', e', k') = on_lem symbol side p (reduce_quantity q) b x.1 a e in
    (p, p', refl, e', k ∙ ap (drop_flat symbol side) k')
reduced_at (err e) symbol side q b b' a h = let k = ap (λ (x : Result ℤ × Book). x.0) h in cc

ignored_at :
    {A : Type 0} (x : Result A × Book) (b' : Book) (u : Unit {0})
    → ◌≡◌ {A = Result (Unit {0}) × Book}
        (elim x.0 [ ok r ↦ (ok tt, x.1) | err e ↦ (err e, x.1) ])
        (ok u, b')
    → (a : A) × (x ≡ (ok a, b'))
ignored_at (ok r, s) b' u h = (r, λ i. (ok r, ap (λ (x : Result (Unit {0}) × Book). x.1) h i))
ignored_at (err e, s) b' u h = let k = ap (λ (x : Result (Unit {0}) × Book). x.0) h in cc

ignored_lem :
    {A : Type 0} (m : Exec Book A) (b b' : Book) (u : Unit {0})
    → ignore m b ≡ (ok u, b')
    → (a : A) × (m b ≡ (ok a, b'))
unfolding ignore
ignored_lem m b b' u h = ignored_at (m b) b' u h

found_lem :
    (message : String) (entry : Option Position) (p : Position)
    → found message entry ≡ ok p
    → entry ≡ some p
unfolding found
found_lem message none p h = cc
found_lem message (some q) p h = cc

-- An increase that succeeds writes the increased position.
pub weighted_average_lem :
    (f : Fill) (b b' : Book) (a : ℤ)
    → weighted_average f b ≡ (ok a, b')
    → (p p' : Position) × (b f.symbol f.position_side ≡ some p)
      × (increase f.quantity f.price p ≡ (ok a, p'))
      × (b' ≡ set f.symbol f.position_side (some p') b)
unfolding weighted_average lookup
weighted_average_lem f b b' a h =
    let message : String = "no position to increase" in
    let entry = b f.symbol f.position_side in
    let (p, p', e, call, rest) =
      weighted_at (found message entry) f.reduce_only f.symbol f.position_side
        "reduce-only fill cannot increase a position" f.quantity f.price b b' a h in
    (p, p', found_lem message entry p e, call, rest)

reduce_guarded :
    (reduce_only : Bool) (f : Fill) (b b' : Book) (a : ℤ) (m : Exec Book ℤ) (message : String)
    → (guard (λ _. not reduce_only) message >> m) b ≡ (ok a, b')
    → m b ≡ (ok a, b')
reduce_guarded true f b b' a m message h = h
reduce_guarded false f b b' a m message h = let k = ap (λ (x : Result ℤ × Book). x.0) h in cc

-- A reduction that succeeds writes the reduced position, and drops it when it is flat.
pub reduce_lem :
    (f : Fill) (b b' : Book) (a : ℤ)
    → reduce f b ≡ (ok a, b')
    → (p p' : Position) × (b f.symbol f.position_side ≡ some p)
      × (reduce_quantity f.quantity p ≡ (ok a, p'))
      × (b' ≡ drop_flat f.symbol f.position_side (set f.symbol f.position_side (some p') b))
unfolding reduce lookup
reduce_lem f b b' a h =
    let message : String = "no position to reduce" in
    let entry = b f.symbol f.position_side in
    let (p, p', e, call, rest) =
      reduced_at (found message entry) f.symbol f.position_side f.quantity b b' a (
        reduce_guarded f.reduce_only f b b' a
          (check (lookup f.symbol f.position_side message) >>= λ p.
            on_position f.symbol f.position_side p (reduce_quantity f.quantity) >>= λ released.
            modify (drop_flat f.symbol f.position_side) >> pure released)
          "position reductions require a reduce-only fill" h) in
    (p, p', found_lem message entry p e, call, rest)

-- The three ways in which `apply` succeeds.
pub data Applied (f : Fill) (o : Opening) (b b' : Book) : Type 0 where
  opens :
      {u : Unit {0}}
      → b f.symbol f.position_side ≡ none
      → f.reduce_only ≡ false
      → open_position f o b ≡ (ok u, b')
      → Applied f o b b'
  increases : {a : ℤ} → f.reduce_only ≡ false → weighted_average f b ≡ (ok a, b') → Applied f o b b'
  reduces : {a : ℤ} → f.reduce_only ≡ true → reduce f b ≡ (ok a, b') → Applied f o b b'

branch_at :
    (f : Fill) (o : Opening) (b b' : Book) (u : Unit {0}) (entry : Option Position)
    (reduce_only : Bool)
    → entry ≡ b f.symbol f.position_side
    → reduce_only ≡ f.reduce_only
    → ◌≡◌ {A = Result (Unit {0}) × Book}
        ((elim entry as (λ _. Exec Book (Unit {0})) [
          | none ↦
              if reduce_only
              then check (λ _. err (key_error "no position to reduce"))
              else open_position f o
          | some p ↦ if reduce_only then ignore (reduce f) else ignore (weighted_average f)
        ])
          b)
        (ok u, b')
    → Applied f o b b'
branch_at f o b b' u none false e k h = opens (sym e) (sym k) h
branch_at f o b b' u none true e k h = let k = ap (λ (x : Result (Unit {0}) × Book). x.0) h in cc
branch_at f o b b' u (some p) false e k h =
    let (a, s) = ignored_lem (weighted_average f) b b' u h in increases (sym k) s
branch_at f o b b' u (some p) true e k h =
    let (a, s) = ignored_lem (reduce f) b b' u h in reduces (sym k) s

pub apply_cases :
    (f : Fill) (o : Opening) (b b' : Book) (u : Unit {0})
    → apply f o b ≡ (ok u, b')
    → Applied f o b b'
unfolding apply
apply_cases f o b b' u h =
    branch_at f o b b' u (b f.symbol f.position_side) f.reduce_only refl refl h
