-- ===== src/Execution/Book/Positions.antt =====
-- execution/position_book.py: what an increase, a reduction and an opening make of a position.
use trading_system_v.Prelude.{ℕ, String, false, some, ◌≡◌, ◌∙◌, sym, ap, refl, subst, arith}
use trading_system_v.Prelude.Int.{
  ℤ, pos, ◌+ℤ◌, ◌-ℤ◌, ◌*ℤ◌, ◌≤ℤ◌, ◌<ℤ◌, int_laws, eq_of_parts, *ℤ_nonneg,
}
use trading_system_v.Prelude.Result.{Result, ok, err}
use trading_system_v.Prelude.Exec.{◌>>=◌, check, modify}
use trading_system_v.Money.Rounding.{quantize_nonneg}
use trading_system_v.Money.{quantize}
use trading_system_v.Types.Enums.{PositionSide, MarginType}
use trading_system_v.Types.Position.{
  Position, cost_differs, added, add_quantity, reduced, released_margin, reduce_quantity,
}
use trading_system_v.Types.Position
use trading_system_v.Types.Position.Validation.{IsValid, position_post_init_iff, cost_iff}
use trading_system_v.Types.Position.Reduction.{reduce_quantity_lem}
use trading_system_v.Types.Fill.{Fill}
use trading_system_v.Execution.Book.{
  Book, set, increase, increased_margin, Opening, opened, open_position, opened_terms, made,
}

-- A position that may stay in the book: well-formed and not flat.
pub record IsOpen (p : Position) : Type 0 where
  pub valid : IsValid p
  pub not_flat : pos 0 <ℤ p.quantity

with_margin : ℤ → ℤ → Position → Position
with_margin q price p = record p { margin = increased_margin p q price }

increase_ok :
    (p p' : Position) (q price a : ℤ)
    → increase q price p ≡ (ok a, p')
    → (p' ≡ with_margin q price (added q price p))
      × (pos 0 <ℤ q)
      × (cost_differs (added q price p) ≡ false)
unfolding increase add_quantity with_margin
increase_ok p p' q price a h = (ground arith, ground arith, ground arith)

margin_sum_nonneg :
    (m q price : ℤ) (d : ℕ)
    → pos 0 ≤ℤ m
    → pos 0 ≤ℤ q
    → pos 0 ≤ℤ price
    → pos 0 ≤ℤ quantize (m *ℤ pos d +ℤ q *ℤ price) d
margin_sum_nonneg m q price d hm hq hp =
    quantize_nonneg (m *ℤ pos d +ℤ q *ℤ price) d
      (omega (int_laws, *ℤ_nonneg q price hq hp, *ℤ_nonneg m (pos d) hm (omega arith)))

increased_margin_nonneg :
    (p : Position) (q price : ℤ)
    → pos 0 ≤ℤ p.margin
    → pos 0 ≤ℤ q
    → pos 0 ≤ℤ price
    → pos 0 ≤ℤ increased_margin p q price
unfolding increased_margin
increased_margin_nonneg p q price m h k = margin_sum_nonneg p.margin q price _ m h k

increased-IsOpen :
    (p : Position) (q price : ℤ)
    → IsOpen p
    → pos 0 <ℤ q
    → pos 0 <ℤ price
    → cost_differs (added q price p) ≡ false
    → IsOpen (with_margin q price (added q price p))
      × ((added q price p).quantity ≡ p.quantity +ℤ q)
unfolding with_margin added
increased-IsOpen p q price o positive above close = (
  record {
    valid = record {
      quantity_nonneg = omega (int_laws, o.not_flat);
      leverage_positive = o.valid.leverage_positive;
      margin_nonneg =
          increased_margin_nonneg (added q price p) q price o.valid.margin_nonneg (omega arith)
            (omega arith);
      cost = (cost_iff (added q price p)).0 close;
    };
    not_flat = omega (int_laws, o.not_flat);
  },
  refl,
)

-- What a successful increase leaves.
pub increase_lem :
    (p p' : Position) (q price a : ℤ)
    → IsOpen p
    → pos 0 <ℤ price
    → increase q price p ≡ (ok a, p')
    → IsOpen p' × (p'.quantity ≡ p.quantity +ℤ q)
unfolding with_margin
increase_lem p p' q price a o above h =
    let (e, positive, close) = increase_ok p p' q price a h in
    let (kept, sum) = increased-IsOpen p q price o positive above close in
    (subst IsOpen (sym e) kept, ap (λ (x : Position). x.quantity) e ∙ sum)

difference_of : (a b c : ℤ) → a +ℤ b ≡ c → a ≡ c -ℤ b
difference_of a b c h = subst (λ x. a ≡ x -ℤ b) h (eq_of_parts a (a +ℤ b -ℤ b) (omega int_laws))

pub reduction_ok :
    (p p' : Position) (q r : ℤ)
    → reduce_quantity q p ≡ (ok r, p')
    → (p' ≡ reduced q p) × (pos 0 <ℤ q) × (q ≤ℤ p.quantity)
unfolding reduce_quantity
reduction_ok p p' q r h = (ground arith, ground arith, ground arith)

pub reduction_lem :
    (p p' : Position) (q r : ℤ)
    → IsOpen p
    → reduce_quantity q p ≡ (ok r, p')
    → IsValid p' × (p'.quantity ≡ p.quantity -ℤ q)
reduction_lem p p' q r o h =
    let (e, positive, within) = reduction_ok p p' q r h in
    let (_, valid, sum, _) = reduce_quantity_lem p q o.valid positive within in
    (
      subst IsValid (sym e) valid,
      ap (λ (x : Position). x.quantity) e ∙ difference_of (reduced q p).quantity q p.quantity sum,
    )

stored :
    (r : Result Position) (symbol : String) (side : PositionSide) (b b' : Book) (u : Unit {0})
    → ◌>>=◌ {B = Unit {0}} (check (λ _. r)) (λ p. modify (set symbol side (some p))) b ≡ (ok u, b')
    → (p : Position) × (r ≡ ok p) × (b' ≡ set symbol side (some p) b)
stored (ok p) symbol side b b' u h = (p, refl, ap (λ (x : Result (Unit {0}) × Book). x.1) (sym h))
stored (err e) symbol side b b' u h = let k = ap (λ (x : Result (Unit {0}) × Book). x.0) h in cc

made_ok : (p q : Position) → made p ≡ ok q → (q ≡ p) × (Position.post_init p ≡ (ok tt, p))
unfolding made Position.post_init
made_ok p q h = (ground arith, ground arith)

-- The position that `apply` opens.
opening_at :
    (r : Result (ℕ × MarginType)) (f : Fill) (o : Opening) (b b' : Book) (u : Unit {0})
    → ◌>>=◌ {B = Unit {0}}
        (check (λ _. r))
        (λ (lev, m). check (λ _. made (opened f o lev m)) >>= λ p.
          modify (set f.symbol f.position_side (some p)))
        b
      ≡ (ok u, b')
    → (p : Position) × (b' ≡ set f.symbol f.position_side (some p) b)
      × IsValid p
      × (p.quantity ≡ f.quantity)
      × (p.symbol ≡ f.symbol)
      × (p.side ≡ f.position_side)
opening_at (ok (lev, m)) f o b b' u h =
    let (p, e, k) = stored (made (opened f o lev m)) f.symbol f.position_side b b' u h in
    let (same, passed) = made_ok (opened f o lev m) p e in
    (
      p,
      k,
      subst IsValid (sym same) ((position_post_init_iff (opened f o lev m)).0 passed),
      ap (λ (x : Position). x.quantity) same,
      ap (λ (x : Position). x.symbol) same,
      ap (λ (x : Position). x.side) same,
    )
opening_at (err e) f o b b' u h = let k = ap (λ (x : Result (Unit {0}) × Book). x.0) h in cc

pub opening_lem :
    (f : Fill) (o : Opening) (b b' : Book) (u : Unit {0})
    → open_position f o b ≡ (ok u, b')
    → (p : Position) × (b' ≡ set f.symbol f.position_side (some p) b)
      × IsValid p
      × (p.quantity ≡ f.quantity)
      × (p.symbol ≡ f.symbol)
      × (p.side ≡ f.position_side)
unfolding open_position
opening_lem f o b b' u h = opening_at (opened_terms o.leverage o.margin_type) f o b b' u h

-- An increase and a reduction keep the symbol and the side.
pub increase_keeps :
    (p p' : Position) (q price a : ℤ)
    → increase q price p ≡ (ok a, p')
    → (p'.symbol ≡ p.symbol) × (p'.side ≡ p.side)
unfolding with_margin added
increase_keeps p p' q price a h =
    let (e, _, _) = increase_ok p p' q price a h in
    (ap (λ (x : Position). x.symbol) e, ap (λ (x : Position). x.side) e)

pub reduction_keeps :
    (p p' : Position) (q r : ℤ)
    → reduce_quantity q p ≡ (ok r, p')
    → (p'.symbol ≡ p.symbol) × (p'.side ≡ p.side)
unfolding reduced
reduction_keeps p p' q r h =
    let (e, _, _) = reduction_ok p p' q r h in
    (
      ap (λ (x : Position). x.symbol) e ∙ ground arith,
      ap (λ (x : Position). x.side) e ∙ ground arith,
    )
