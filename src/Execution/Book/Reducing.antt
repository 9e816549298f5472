-- ===== src/Execution/Book/Reducing.antt =====
-- execution/position_book.py `reduce`: a reduction within the position always goes through.
use trading_system_v.Prelude.{arith, ap, ◌∙◌, subst, ◌≡◌, refl, true, some, sym}
use trading_system_v.Prelude.Int.{ℤ, pos, ◌≤ℤ◌, ◌<ℤ◌, ◌-ℤ◌, ◌*ℤ◌, pos_part, int_laws, eq_of_parts}
use trading_system_v.Money.{quantize}
use trading_system_v.Execution.Book.Writes.{drop_flat-Writes, unless_flat, self_key}
use trading_system_v.Types.Position.Reduction.{quantity-reduced, margin-reduced}
use trading_system_v.Prelude.Result.{ok}
use trading_system_v.Prelude.Exec.{◌>>=◌, ◌>>◌, check, guard, modify, pure}
use trading_system_v.Prelude.{none, not, if◌then◌else◌}
use trading_system_v.Prelude.Result.{key_error}
use trading_system_v.Execution.Book.{eqb_ℤ, false, same_key, open_position, weighted_average}
use trading_system_v.Types.Position.{Position, reduced, released_margin, reduce_quantity}
use trading_system_v.Types.Position.Validation.{IsValid}
use trading_system_v.Types.Position.Reduction.{reduce_quantity_lem}
use trading_system_v.Types.Fill.{Fill}
use trading_system_v.Execution.Book.{
  err, PositionSide, Exec, String, Result, Bool, Option, found, ignore, Book, set, reduce,
  drop_flat, lookup, on_position, Opening, apply,
}

lookup_held :
    (b : Book) (f : Fill) (p : Position)
    → b f.symbol f.position_side ≡ some p
    → lookup f.symbol f.position_side "no position to reduce" b ≡ ok p
unfolding lookup found
lookup_held b f p e = rw e refl

-- The body of `reduce`, over its guard, its lookup and its call.
reduced_body :
    Bool → Result Position → (Position → Result ℤ × Position) → String → PositionSide → Exec Book ℤ
reduced_body reduce_only r m symbol side = do
  guard (λ _. not reduce_only) "position reductions require a reduce-only fill"
  p ← check (λ _. r)
  released ← (λ b. ((m p).0, set symbol side (some (m p).1) b))
  modify (drop_flat symbol side)
  pure released

body_ok :
    (reduce_only : Bool) (r : Result Position) (m : Position → Result ℤ × Position)
    (symbol : String) (side : PositionSide) (b : Book) (p p' : Position) (a : ℤ)
    → reduce_only ≡ true
    → r ≡ ok p
    → m p ≡ (ok a, p')
    → reduced_body reduce_only r m symbol side b
      ≡ (ok a, drop_flat symbol side (set symbol side (some p') b))
unfolding reduced_body
body_ok reduce_only r m symbol side b p p' a exit held call =
    subst
      (λ x.
        reduced_body x r m symbol side b
        ≡ (ok a, drop_flat symbol side (set symbol side (some p') b)))
      (sym exit)
      (subst
        (λ x.
          reduced_body true x m symbol side b
          ≡ (ok a, drop_flat symbol side (set symbol side (some p') b)))
        (sym held)
        (subst
          (λ x.
            ◌≡◌ {A = Result ℤ × Book}
              (elim x.0 [
                | ok n ↦ (ok n, drop_flat symbol side (set symbol side (some x.1) b))
                | err e ↦ (err e, set symbol side (some x.1) b)
              ])
              (ok a, drop_flat symbol side (set symbol side (some p') b)))
          (sym call) refl))

reduce_held :
    (f : Fill) (b : Book) (p : Position)
    → IsValid p
    → b f.symbol f.position_side ≡ some p
    → f.reduce_only ≡ true
    → pos 0 <ℤ f.quantity
    → f.quantity ≤ℤ p.quantity
    → reduce f b ≡ (
      ok (released_margin p f.quantity),
      drop_flat f.symbol f.position_side
          (set f.symbol f.position_side (some (reduced f.quantity p)) b),
    )
unfolding reduce on_position reduced_body
reduce_held f b p valid held exit positive within =
    body_ok f.reduce_only (lookup f.symbol f.position_side "no position to reduce" b)
      (reduce_quantity f.quantity) f.symbol f.position_side b p (reduced f.quantity p)
      (released_margin p f.quantity) exit (lookup_held b f p held)
      (reduce_quantity_lem p f.quantity valid positive within).0

ignore_ok : (m : Exec Book ℤ) (b c : Book) (a : ℤ) → m b ≡ (ok a, c) → ignore m b ≡ (ok tt, c)
unfolding ignore
ignore_ok m b c a h =
    subst
      (λ x.
        ◌≡◌ {A = Result (Unit {0}) × Book} (elim x.0 [ ok n ↦ (ok tt, x.1) | err e ↦ (err e, x.1) ])
          (ok tt, c))
      (sym h) refl

-- The body of `apply`, over what it looks up.
apply_body : Fill → Opening → Option Position → Bool → Exec Book (Unit {0})
apply_body f o entry reduce_only = elim entry [
  | none ↦
      if reduce_only
      then check (λ _. err (key_error "no position to reduce"))
      else open_position f o
  | some p ↦ if reduce_only then ignore (reduce f) else ignore (weighted_average f)
]

apply_ok :
    (f : Fill) (o : Opening) (b c : Book) (entry : Option Position) (reduce_only : Bool)
    (p : Position)
    → entry ≡ some p
    → reduce_only ≡ true
    → ignore (reduce f) b ≡ (ok tt, c)
    → apply_body f o entry reduce_only b ≡ (ok tt, c)
unfolding apply_body
apply_ok f o b c entry reduce_only p held exit call =
    subst (λ x. apply_body f o x reduce_only b ≡ (ok tt, c)) (sym held)
      (subst (λ x. apply_body f o (some p) x b ≡ (ok tt, c)) (sym exit) call)

apply_written :
    (f : Fill) (o : Opening) (b : Book) (p : Position)
    → IsValid p
    → b f.symbol f.position_side ≡ some p
    → f.reduce_only ≡ true
    → pos 0 <ℤ f.quantity
    → f.quantity ≤ℤ p.quantity
    → apply f o b ≡ (
      ok tt,
      drop_flat f.symbol f.position_side
          (set f.symbol f.position_side (some (reduced f.quantity p)) b),
    )
unfolding apply apply_body
apply_written f o b p valid held exit positive within =
    apply_ok f o b
      (drop_flat f.symbol f.position_side
        (set f.symbol f.position_side (some (reduced f.quantity p)) b))
      (b f.symbol f.position_side) f.reduce_only p held exit
      (ignore_ok (reduce f) b _ (released_margin p f.quantity)
        (reduce_held f b p valid held exit positive within))

-- What is left under the key of a reduction: nothing of a flat position, and otherwise a
-- well-formed position with the rest of the quantity and of the margin.
pub record IsLeft (p : Position) (sold : ℤ) (entry : Option Position) : Type 0 where
  pub flat : sold ≡ p.quantity → entry ≡ none
  pub open_still :
      sold <ℤ p.quantity
      → (q : Position) × (entry ≡ some q)
        × (q.quantity ≡ p.quantity -ℤ sold)
        × (q.margin ≡ p.margin -ℤ quantize (p.margin *ℤ sold) (pos_part p.quantity))
        × IsValid q

at_zero : (x : ℤ) → x ≡ pos 0 → eqb_ℤ x (pos 0) ≡ true
at_zero x e = rw e refl

above_zero : (x : ℤ) → pos 0 <ℤ x → eqb_ℤ x (pos 0) ≡ false
above_zero x h = ground arith

none_left : (a b : ℤ) → b ≡ a → eqb_ℤ (a -ℤ b) (pos 0) ≡ true
none_left a b e =
    at_zero (a -ℤ b) (subst (λ c. a -ℤ c ≡ pos 0) (sym e) (eq_of_parts _ _ (omega int_laws)))

some_left : (a b : ℤ) → b <ℤ a → eqb_ℤ (a -ℤ b) (pos 0) ≡ false
some_left a b h = above_zero (a -ℤ b) (omega int_laws)

module _ (p : Position) (quantity : ℤ) (valid : IsValid p) (positive : pos 0 <ℤ quantity)
    (within : quantity ≤ℤ p.quantity) where
  kept :
      (flat : Bool)
      → eqb_ℤ (reduced quantity p).quantity (pos 0) ≡ flat
      → unless_flat (reduced quantity p) ≡ (if flat then none else some (reduced quantity p))
  kept flat e = rw e refl

  rest_of_margin :
      (reduced quantity p).margin
      ≡ p.margin -ℤ quantize (p.margin *ℤ quantity) (pos_part p.quantity)
  unfolding released_margin
  rest_of_margin = margin-reduced p quantity valid positive within

  reduced-IsLeft : IsLeft p quantity (unless_flat (reduced quantity p))
  reduced-IsLeft =
      let rest = quantity-reduced p quantity valid positive within in
      record {
        flat =
            λ all. kept true (ap (λ x. eqb_ℤ x (pos 0)) rest ∙ none_left p.quantity quantity all);
        open_still = λ less. (
          reduced quantity p,
          kept false (ap (λ x. eqb_ℤ x (pos 0)) rest ∙ some_left p.quantity quantity less),
          rest,
          rest_of_margin,
          (reduce_quantity_lem p quantity valid positive within).1,
        );
      }

-- A reduce-only fill of a positive quantity that the held, well-formed position covers is
-- always applied. A position that it closes is gone; of another the rest of the quantity and of
-- the margin stays, well-formed, without the share of the margin that was closed. No other key
-- changes.
pub apply_reduction :
    (f : Fill) (o : Opening) (b : Book) (p : Position)
    → IsValid p
    → b f.symbol f.position_side ≡ some p
    → f.reduce_only ≡ true
    → pos 0 <ℤ f.quantity
    → f.quantity ≤ℤ p.quantity
    → (b' : Book) × (apply f o b ≡ (ok tt, b'))
      × IsLeft p f.quantity (b' f.symbol f.position_side)
      × ((s : String) (d : PositionSide)
          → same_key f.symbol f.position_side s d ≡ false
          → b' s d ≡ b s d)
apply_reduction f o b p valid held exit positive within =
    let c =
      drop_flat f.symbol f.position_side
        (set f.symbol f.position_side (some (reduced f.quantity p)) b) in
    let w = drop_flat-Writes f.symbol f.position_side (reduced f.quantity p) b c refl in
    (
      c,
      apply_written f o b p valid held exit positive within,
      subst (IsLeft p f.quantity)
          (sym (
            w f.symbol f.position_side
            ∙ ap (λ k. if k then unless_flat (reduced f.quantity p) else b f.symbol f.position_side)
                (self_key f.symbol f.position_side)))
          (reduced-IsLeft p f.quantity valid positive within),
      λ s d other. w s d ∙ ap (λ k. if k then unless_flat (reduced f.quantity p) else b s d) other,
    )
