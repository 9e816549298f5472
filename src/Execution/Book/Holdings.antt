-- ===== src/Execution/Book/Holdings.antt =====
-- execution/position_book.py: the book against the abstract view of it, a signed count per key, and
-- what its positions keep.
use trading_system_v.Prelude.{
  String, Bool, true, false, if◌then◌else◌, Option, none, some, ◌≡◌, ◌∙◌, sym, ap, refl, subst,
  arith,
}
use trading_system_v.Prelude.Int.{ℤ, pos, ◌+ℤ◌, ◌-ℤ◌, ◌<ℤ◌, int_laws, eqb_ℤ, eq_of_parts}
use trading_system_v.Prelude.Result.{ok}
use trading_system_v.Types.Enums.{PositionSide}
use trading_system_v.Types.Position.{Position}
use trading_system_v.Types.Position.Validation.{IsValid}
use trading_system_v.Types.Fill
use trading_system_v.Types.Fill.{Fill}
use trading_system_v.Execution.Book.Writes.{Writes, set-Writes, drop_flat-Writes, unless_flat}
use trading_system_v.Execution.Book.Steps.{
  weighted_average_lem, reduce_lem, apply_cases, opens, increases, reduces,
}
use trading_system_v.Execution.Book.{
  Book, same_key, weighted_average, reduce, Opening, open_position, apply,
}
use trading_system_v.Execution.Book.Positions.{IsOpen, increase_lem, reduction_lem, opening_lem}

-- The signed count of an entry, and what a fill makes of it.
abbrev pub amount : Option Position → ℤ
amount none = pos 0
amount (some p) = p.quantity

abbrev pub net : Fill → ℤ → ℤ
net f n = if f.reduce_only then n -ℤ f.quantity else n +ℤ f.quantity

-- Every position in the book is open.
abbrev pub IsSound : Book → Type 0
IsSound b = (s : String) (d : PositionSide) (p : Position) → b s d ≡ some p → IsOpen p

abbrev EntryIsOpen : Option Position → Type 0
EntryIsOpen entry = (p : Position) → entry ≡ some p → IsOpen p

-- What `apply` writes under the fill's key.
record Step (f : Fill) (b b' : Book) : Type 0 where
  entry : Option Position
  writes : Writes f.symbol f.position_side entry b b'
  counts : amount entry ≡ net f (amount (b f.symbol f.position_side))
  sound : EntryIsOpen entry

some-injective : {p q : Position} → some p ≡ some q → p ≡ q
some-injective h = cc

some-EntryIsOpen : (p : Position) → IsOpen p → EntryIsOpen (some p)
some-EntryIsOpen p o q e = subst IsOpen (some-injective e) o

counts_as :
    (f : Fill) (held : Option Position) (p : Position) (n : ℤ) (reduce_only : Bool)
    → held ≡ some p
    → f.reduce_only ≡ reduce_only
    → n ≡ (if reduce_only then p.quantity -ℤ f.quantity else p.quantity +ℤ f.quantity)
    → n ≡ net f (amount held)
counts_as f held p n reduce_only e k h = rw (e, k) h

opening-Step :
    (f : Fill) (o : Opening) (b b' : Book) (u : Unit {0})
    → Fill.IsValid f
    → b f.symbol f.position_side ≡ none
    → f.reduce_only ≡ false
    → open_position f o b ≡ (ok u, b')
    → Step f b b'
opening-Step f o b b' u fill_valid empty entry h =
    let (p, k, valid, q, _, _) = opening_lem f o b b' u h in
    record {
      entry = some p;
      writes = set-Writes f.symbol f.position_side (some p) b b' k;
      counts =
          rw (empty, entry) (q ∙ eq_of_parts f.quantity (pos 0 +ℤ f.quantity) (omega int_laws));
      sound = some-EntryIsOpen p (record {
        valid = valid;
        not_flat = subst (λ x. pos 0 <ℤ x) (sym q) fill_valid.quantity_positive;
      });
    }

increasing-Step :
    (f : Fill) (b b' : Book) (a : ℤ)
    → Fill.IsValid f
    → IsSound b
    → f.reduce_only ≡ false
    → weighted_average f b ≡ (ok a, b')
    → Step f b b'
increasing-Step f b b' a fill_valid sound entry h =
    let (p, p', held, call, k) = weighted_average_lem f b b' a h in
    let (kept, sum) =
      increase_lem p p' f.quantity f.price a (sound f.symbol f.position_side p held)
        fill_valid.price_positive call in
    record {
      entry = some p';
      writes = set-Writes f.symbol f.position_side (some p') b b' k;
      counts = counts_as f (b f.symbol f.position_side) p p'.quantity false held entry sum;
      sound = some-EntryIsOpen p' kept;
    }

flat_amount :
    (flat : Bool) (p : Position)
    → eqb_ℤ p.quantity (pos 0) ≡ flat
    → amount (if flat then none else some p) ≡ p.quantity
flat_amount true p h = eq_of_parts (pos 0) p.quantity (ground arith)
flat_amount false p h = refl

flat_open :
    (flat : Bool) (p : Position)
    → IsValid p
    → eqb_ℤ p.quantity (pos 0) ≡ flat
    → EntryIsOpen (if flat then none else some p)
flat_open true p valid h q e = cc
flat_open false p valid h q e =
    subst IsOpen (some-injective e)
      (record { valid = valid; not_flat = ground (arith, valid.quantity_nonneg) })

amount-unless_flat : (p : Position) → amount (unless_flat p) ≡ p.quantity
amount-unless_flat p = flat_amount (eqb_ℤ p.quantity (pos 0)) p refl

unless_flat-EntryIsOpen : (p : Position) → IsValid p → EntryIsOpen (unless_flat p)
unless_flat-EntryIsOpen p valid q e = flat_open (eqb_ℤ p.quantity (pos 0)) p valid refl q e

reducing-Step :
    (f : Fill) (b b' : Book) (r : ℤ)
    → IsSound b
    → f.reduce_only ≡ true
    → reduce f b ≡ (ok r, b')
    → Step f b b'
reducing-Step f b b' r sound exit h =
    let (p, p', held, call, k) = reduce_lem f b b' r h in
    let (valid, difference) =
      reduction_lem p p' f.quantity r (sound f.symbol f.position_side p held) call in
    record {
      entry = unless_flat p';
      writes = drop_flat-Writes f.symbol f.position_side p' b b' k;
      counts =
          amount-unless_flat p'
          ∙ counts_as f (b f.symbol f.position_side) p p'.quantity true held exit difference;
      sound = unless_flat-EntryIsOpen p' valid;
    }

apply-Step :
    (f : Fill) (o : Opening) (b b' : Book) (u : Unit {0})
    → Fill.IsValid f
    → IsSound b
    → apply f o b ≡ (ok u, b')
    → Step f b b'
apply-Step f o b b' u valid sound h = elim (apply_cases f o b b' u h) [
  | opens {u = v} empty entry k ↦ opening-Step f o b b' v valid empty entry k
  | increases {a = a} entry k ↦ increasing-Step f b b' a valid sound entry k
  | reduces {a = r} exit k ↦ reducing-Step f b b' r sound exit k
]

amount_if :
    (own : Bool) (entry other : Option Position) (n : ℤ)
    → amount entry ≡ n
    → amount (if own then entry else other) ≡ (if own then n else amount other)
amount_if true entry other n h = h
amount_if false entry other n h = refl

IsOpen-if :
    (own : Bool) (entry other : Option Position)
    → EntryIsOpen entry
    → EntryIsOpen other
    → EntryIsOpen (if own then entry else other)
IsOpen-if true entry other h k = h
IsOpen-if false entry other h k = k

-- The position book refines a signed count per key: a well-formed fill that is applied to a
-- sound book adds its quantity under its own key, or takes it away if it is reduce-only, and
-- changes no other key.
pub apply-amount :
    (f : Fill) (o : Opening) (b b' : Book) (u : Unit {0})
    → Fill.IsValid f
    → IsSound b
    → apply f o b ≡ (ok u, b')
    → (s : String) (d : PositionSide)
    → amount (b' s d) ≡ (
        if same_key f.symbol f.position_side s d
        then net f (amount (b f.symbol f.position_side))
        else amount (b s d))
apply-amount f o b b' u valid sound h s d =
    let step = apply-Step f o b b' u valid sound h in
    ap amount (step.writes s d)
    ∙ amount_if (same_key f.symbol f.position_side s d) step.entry (b s d) _ step.counts

-- A well-formed fill that is applied to a sound book leaves a sound book: every position in it
-- is well-formed and none is flat.
pub apply-IsSound :
    (f : Fill) (o : Opening) (b b' : Book) (u : Unit {0})
    → Fill.IsValid f
    → IsSound b
    → apply f o b ≡ (ok u, b')
    → IsSound b'
apply-IsSound f o b b' u valid sound h s d p e =
    let step = apply-Step f o b b' u valid sound h in
    IsOpen-if (same_key f.symbol f.position_side s d) step.entry (b s d) step.sound (sound s d) p
      (sym (step.writes s d) ∙ e)
