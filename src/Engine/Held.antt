-- ===== src/Engine/Held.antt =====
-- engine.py `_current_position`: the one position of the run, and what a reduction leaves of it.
use trading_system_v.Prelude.{
  ◌≡◌, ◌≢◌, ◌∙◌, refl, sym, ap, subst, arith, Bool, true, false, ◌&&◌, if◌then◌else◌, Option, none,
  some, String,
}
use trading_system_v.Prelude.Int.{
  ◌≤ℤ◌, ℤ, pos, ◌+ℤ◌, ◌-ℤ◌, ◌<ℤ◌, eqb_ℤ, int_laws, eq_of_parts, pos_part, neg_part,
}
use trading_system_v.Prelude.Result.{ok, ok-injective}
use text.Mathlib.Text.{◌==◌}
use trading_system_v.Types.Enums.{PositionSide, long, short, both}
use trading_system_v.Types.Position.{Position, reduced, released_margin, reduce_quantity}
use trading_system_v.Types.Position.Validation.{IsValid}
use trading_system_v.Types.Position.Reduction.{
  margin-reduced, quantity-reduced, released_margin-all,
}
use trading_system_v.Types.Fill.{Fill}
use trading_system_v.Execution.Book.{Book, same_key, get, apply, Opening}
use trading_system_v.Execution.Book.Writes.{Writes, drop_flat-Writes, unless_flat, self_key}
use trading_system_v.Execution.Book.Steps.{apply_cases, opens, increases, reduces, reduce_lem}
use trading_system_v.Execution.Book.Positions.{reduction_ok}
use trading_system_v.Execution.Book.Holdings.{IsSound}
use trading_system_v.Execution.Book.Keyed.{IsKeyed}
use trading_system_v.Engine.{RunConfig, Engine, current_position, one_position}
use trading_system_v.Engine.Fills.{margin_of}

-- The entries of the two sides of the run's symbol, of which one is held.
data Sides (l s : Option Position) (p : Position) : Type 0 where
  held_long : l ≡ some p → s ≡ none → Sides l s p
  held_short : l ≡ none → s ≡ some p → Sides l s p

Sides-of : (l s : Option Position) (p : Position) → one_position l s ≡ ok (some p) → Sides l s p
Sides-of (some l) (some s) p h = cc
Sides-of (some l) none p h = held_long (ok-injective h) refl
Sides-of none s p h = held_short refl (ok-injective h)

whole_of : (a q r : ℤ) → r ≡ a -ℤ q → eqb_ℤ r (pos 0) ≡ true → q ≡ a
whole_of a q r e h =
    let z : r ≡ pos 0 = eq_of_parts r (pos 0) (ground arith) in
    let k : a -ℤ q ≡ pos 0 = sym e ∙ z in
    eq_of_parts q a (omega (int_laws, ap pos_part k, ap neg_part k))

-- The margin that a reduction leaves, also when the position is dropped.
margin_left :
    (flat : Bool) (p : Position) (q : ℤ)
    → IsValid p
    → pos 0 <ℤ q
    → q ≤ℤ p.quantity
    → eqb_ℤ (reduced q p).quantity (pos 0) ≡ flat
    → margin_of (if flat then none else some (reduced q p)) +ℤ released_margin p q ≡ p.margin
margin_left true p q valid positive within h =
    let e : q ≡ p.quantity =
      whole_of p.quantity q _ (quantity-reduced p q valid positive within) h in
    subst (λ x. pos 0 +ℤ released_margin p x ≡ p.margin) (sym e)
      (rw (released_margin-all p (omega arith)) (eq_of_parts _ _ (omega int_laws)))
margin_left false p q valid positive within h =
    rw (margin-reduced p q valid positive within) (eq_of_parts _ _ (omega int_laws))

no_and : (b : Bool) → (b && false) ≡ false
no_and true = refl
no_and false = refl

other_side :
    (symbol : String)
    → (same_key symbol long symbol short ≡ false) × (same_key symbol short symbol long ≡ false)
other_side symbol = (no_and (symbol == symbol), no_and (symbol == symbol))

at_long :
    (b b' : Book) (symbol : String) (entry : Option Position)
    → Writes symbol long entry b b'
    → (b' symbol long ≡ entry) × (b' symbol short ≡ b symbol short)
at_long b b' symbol entry w = (
  w symbol long ∙ rw (self_key symbol long) refl,
  w symbol short ∙ rw ((other_side symbol).0) refl,
)

at_short :
    (b b' : Book) (symbol : String) (entry : Option Position)
    → Writes symbol short entry b b'
    → (b' symbol short ≡ entry) × (b' symbol long ≡ b symbol long)
at_short b b' symbol entry w = (
  w symbol short ∙ rw (self_key symbol short) refl,
  w symbol long ∙ rw ((other_side symbol).1) refl,
)

lone_long : (o : Option Position) → one_position o none ≡ ok o
lone_long none = refl
lone_long (some p) = refl

some-injective : {p q : Position} → some p ≡ some q → p ≡ q
some-injective h = cc

-- A write under the held side of the symbol is a write of the one position.
pub one_written :
    (symbol : String) (side : PositionSide) (b b' : Book) (p before : Position)
    (entry : Option Position)
    → side ≢ both
    → one_position (b symbol long) (b symbol short) ≡ ok (some before)
    → b symbol side ≡ some p
    → Writes symbol side entry b b'
    → (p ≡ before) × (one_position (b' symbol long) (b' symbol short) ≡ ok entry)
one_written symbol both b b' p before entry direction one held w = absurd (direction refl)
one_written symbol long b b' p before entry direction one held w =
    let (own, other) = at_long b b' symbol entry w in
    elim (Sides-of (b symbol long) (b symbol short) before one) [
      | held_long l s ↦ (some-injective (sym held ∙ l), rw (own, other, s) (lone_long entry))
      | held_short l s ↦ let k : none ≡ some p = sym l ∙ held in cc
    ]
one_written symbol short b b' p before entry direction one held w =
    let (own, other) = at_short b b' symbol entry w in
    elim (Sides-of (b symbol long) (b symbol short) before one) [
      | held_short l s ↦ (some-injective (sym held ∙ s), rw (own, other, l) refl)
      | held_long l s ↦ let k : none ≡ some p = sym s ∙ held in cc
    ]

-- The one position after a reduction: what is left of it, and the margin that went.
pub record IsReduced (config : RunConfig) (before : Position) (q : ℤ) (b : Book) : Type 0 where
  pub left : Option Position
  pub held : one_position (get config.symbol long b) (get config.symbol short b) ≡ ok left
  pub margins : margin_of left +ℤ released_margin before q ≡ before.margin

IsReduced-one :
    (config : RunConfig) (fill : Fill) (e : Engine) (before : Position) (b' : Book)
    (p p' : Position) (r : ℤ)
    → fill.symbol ≡ config.symbol
    → fill.position_side ≢ both
    → IsSound e.book
    → one_position (e.book config.symbol long) (e.book config.symbol short) ≡ ok (some before)
    → e.book fill.symbol fill.position_side ≡ some p
    → reduce_quantity fill.quantity p ≡ (ok r, p')
    → Writes fill.symbol fill.position_side (unless_flat p') e.book b'
    → IsReduced config before fill.quantity b'
unfolding get
IsReduced-one config fill e before b' p p' r same direction sound one held call w =
    let (e', positive, within) = reduction_ok p p' fill.quantity r call in
    let (at, after) =
      one_written config.symbol fill.position_side e.book b' p before (unless_flat p') direction one
        (subst (λ s. e.book s fill.position_side ≡ some p) same held)
        (subst (λ s. Writes s fill.position_side (unless_flat p') e.book b') same w) in
    let valid = (sound fill.symbol fill.position_side p held).valid in
    record {
      left = unless_flat p';
      held = after;
      margins =
          subst (λ x. margin_of (unless_flat p') +ℤ released_margin x fill.quantity ≡ x.margin) at
            (subst (λ x. margin_of (unless_flat x) +ℤ released_margin p fill.quantity ≡ p.margin)
              (sym e')
              (margin_left (eqb_ℤ (reduced fill.quantity p).quantity (pos 0)) p fill.quantity valid
                positive within refl));
    }

pub apply-IsReduced :
    (config : RunConfig) (fill : Fill) (o : Opening) (e : Engine) (before : Position) (b' : Book)
    (u : Unit {0})
    → fill.symbol ≡ config.symbol
    → fill.position_side ≢ both
    → fill.reduce_only ≡ true
    → IsSound e.book
    → current_position config e ≡ ok (some before)
    → apply fill o e.book ≡ (ok u, b')
    → IsReduced config before fill.quantity b'
unfolding current_position get
apply-IsReduced config fill o e before b' u same direction exit sound one h =
    elim (apply_cases fill o e.book b' u h) [
      | opens {u = v} empty entry k ↦ let k : true ≡ false = sym exit ∙ entry in cc
      | increases {a = a} entry k ↦ let k : true ≡ false = sym exit ∙ entry in cc
      | reduces {a = r} _ call ↦
          let (p, p', held, reduced_by, k) = reduce_lem fill e.book b' r call in
          let w = drop_flat-Writes fill.symbol fill.position_side p' e.book b' k in
          IsReduced-one config fill e before b' p p' r same direction sound one held reduced_by w
    ]

long_not_both : long ≢ both
long_not_both h = cc

short_not_both : short ≢ both
short_not_both h = cc

at_key :
    (b : Book) (s : String) (d : PositionSide) (p : Position)
    → p.symbol ≡ s
    → p.side ≡ d
    → b s d ≡ some p
    → b p.symbol p.side ≡ some p
at_key b s d p e k h =
    subst (λ x. b x p.side ≡ some p) (sym e) (subst (λ x. b s x ≡ some p) (sym k) h)

-- The one position of a keyed book has the run's symbol and one direction.
pub own_key :
    (config : RunConfig) (e : Engine) (p : Position)
    → IsKeyed e.book
    → current_position config e ≡ ok (some p)
    → (p.symbol ≡ config.symbol) × (p.side ≢ both) × (e.book p.symbol p.side ≡ some p)
unfolding current_position get
own_key config e p keyed one =
    elim (Sides-of (e.book config.symbol long) (e.book config.symbol short) p one) [
      | held_long l s ↦
          let (symbol, side) = keyed config.symbol long p l in
          (
            symbol,
            λ k. long_not_both (sym side ∙ k),
            at_key e.book config.symbol long p symbol side l,
          )
      | held_short l s ↦
          let (symbol, side) = keyed config.symbol short p s in
          (
            symbol,
            λ k. short_not_both (sym side ∙ k),
            at_key e.book config.symbol short p symbol side s,
          )
    ]
