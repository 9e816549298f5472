-- ===== src/Execution/Book/Writes.antt =====
-- execution/position_book.py: which key of the book a write reaches.
use trading_system_v.Prelude.{
  String, Bool, true, false, if◌then◌else◌, Option, none, some, ◌≡◌, ◌∙◌, ap, refl,
}
use text.Mathlib.TextPositions.{eq_refl}
use trading_system_v.Types.Enums.{long, short, both, PositionSide}
use trading_system_v.Types.Position.{Position}
use trading_system_v.Execution.Book.{pos, eqb_ℤ, same_key, Book, set, drop_flat}

pub self_key : (symbol : String) (side : PositionSide) → same_key symbol side symbol side ≡ true
self_key symbol long = rw (eq_refl symbol) refl
self_key symbol short = rw (eq_refl symbol) refl
self_key symbol both = rw (eq_refl symbol) refl

-- The book differs from the other at most under the key, where the entry stands.
abbrev pub Writes : String → PositionSide → Option Position → Book → Book → Type 0
Writes symbol side entry b b' =
    (s : String) (d : PositionSide) → b' s d ≡ (if same_key symbol side s d then entry else b s d)

pub set-Writes :
    (symbol : String) (side : PositionSide) (entry : Option Position) (b b' : Book)
    → b' ≡ set symbol side entry b
    → Writes symbol side entry b b'
unfolding set
set-Writes symbol side entry b b' h s d = ap (λ (x : Book). x s d) h

twice :
    {A : Type 0} (k : Bool) (x y z : A)
    → (if k then x else (if k then y else z)) ≡ (if k then x else z)
twice true x y z = refl
twice false x y z = refl

abbrev pub unless_flat : Position → Option Position
unless_flat p = if eqb_ℤ p.quantity (pos 0) then none else some p

drop_at :
    (flat : Bool) (symbol : String) (side : PositionSide) (p : Position) (b : Book) (s : String)
    (d : PositionSide)
    → (if flat
          then set symbol side none (set symbol side (some p) b)
          else set symbol side (some p) b)
        s d
      ≡ (if same_key symbol side s d then (if flat then none else some p) else b s d)
unfolding set
drop_at true symbol side p b s d = twice (same_key symbol side s d) none (some p) (b s d)
drop_at false symbol side p b s d = refl

drop_entry :
    (entry : Option Position) (symbol : String) (side : PositionSide) (p : Position) (c : Book)
    → entry ≡ some p
    → (elim entry as (λ _. Book) [
      | none ↦ c
      | some q ↦ if eqb_ℤ q.quantity (pos 0) then set symbol side none c else c
    ])
      ≡ (if eqb_ℤ p.quantity (pos 0) then set symbol side none c else c)
drop_entry entry symbol side p c e = rw e refl

own_entry :
    (symbol : String) (side : PositionSide) (p : Position) (b : Book)
    → set symbol side (some p) b symbol side ≡ some p
unfolding set
own_entry symbol side p b = rw (self_key symbol side) refl

pub drop_flat-Writes :
    (symbol : String) (side : PositionSide) (p : Position) (b b' : Book)
    → b' ≡ drop_flat symbol side (set symbol side (some p) b)
    → Writes symbol side (unless_flat p) b b'
unfolding drop_flat
drop_flat-Writes symbol side p b b' h s d =
    let c : Book = set symbol side (some p) b in
    ap (λ (x : Book). x s d)
      (h ∙ drop_entry (c symbol side) symbol side p c (own_entry symbol side p b))
    ∙ drop_at (eqb_ℤ p.quantity (pos 0)) symbol side p b s d
