-- ===== src/Execution/Book/Keyed.antt =====
-- execution/position_book.py: a position stands under its own symbol and side, and what a call of
-- `apply_funding` that succeeds writes.
use trading_system_v.Prelude.{
  String, Bool, true, false, ◌&&◌, if◌then◌else◌, Option, none, some, ◌≡◌, ◌∙◌, sym, ap, refl,
  subst, arith,
}
use trading_system_v.Prelude.Int.{ℤ, pos, ◌+ℤ◌, ◌-ℤ◌, ◌≤ℤ◌, ltb_ℤ, eqb_ℤ}
use trading_system_v.Prelude.Result.{Result, ok, err, value_error, runtime_error, ok-injective}
use trading_system_v.Prelude.Exec.{step_ok}
use trading_system_v.Money.{Rate}
use trading_system_v.Types.Enums.{PositionSide, side_eq}
use trading_system_v.Types.Position.{Position}
use trading_system_v.Execution.Book.{
  Book, set, on_position, active, FundingMarginResult, applied_cost, fund, apply_funding,
  not_futures, not_isolated, same_key, apply, Opening,
}
use trading_system_v.Costs.Liquidation.{price_from_margin}
use text.Mathlib.Text.{◌==◌}
use text.Mathlib.TextEquality.{eq_iff}
use trading_system_v.Types.Fill.{Fill}
use trading_system_v.Execution.Book.Writes.{Writes, set-Writes, drop_flat-Writes, unless_flat}
use trading_system_v.Execution.Book.Steps.{
  apply_cases, opens, increases, reduces, weighted_average_lem, reduce_lem,
}
use trading_system_v.Execution.Book.Holdings.{IsSound}
use trading_system_v.Execution.Book.Positions.{IsOpen, opening_lem, increase_keeps, reduction_keeps}
use trading_system_v.Execution.Book.FundingMargin.{funded, funding_result}

-- The funding of a position that succeeds.
pub record IsFunded (cost : ℤ) (p p' : Position) (r : FundingMarginResult) : Type 0 where
  pub level : ℤ
  pub position : p' ≡ funded p (applied_cost cost p.margin) level
  pub result : r ≡ funding_result p cost
  pub margin_nonneg : pos 0 ≤ℤ (p.margin -ℤ applied_cost cost p.margin)

fund-IsFunded :
    (cost : ℤ) (mmr : Rate) (p p' : Position) (r : FundingMarginResult)
    → fund cost mmr p ≡ (ok r, p')
    → IsFunded cost p p' r
unfolding fund not_futures not_isolated
fund-IsFunded cost mmr p p' r h =
    let a = applied_cost cost p.margin in
    let q = record p { margin = p.margin -ℤ a } in
    let (_, _, h1) =
      step_ok
        (elim (not_futures p.market_type) [
          | true ↦ err (value_error "funding applies to futures positions only")
          | false ↦ ok tt
        ])
        _ _ h in
    let (_, _, h2) =
      step_ok
        (elim (not_isolated p.margin_type) [
          | true ↦ err (value_error "funding margin application supports ISOLATED only")
          | false ↦ ok tt
        ])
        _ _ h1 in
    let (_, kept, h3) =
      step_ok
        (if ltb_ℤ q.margin (pos 0)
          then err (runtime_error "funding must not make isolated margin negative")
          else ok tt)
        _ _ h2 in
    let (level, _, h4) =
      step_ok (price_from_margin (record q { funding_fee_total = p.funding_fee_total +ℤ a }) mmr) _
        _ h3 in
    record {
      level = level;
      position = ap (λ (x : Result FundingMarginResult × Position). x.1) (sym h4);
      result = ok-injective (ap (λ (x : Result FundingMarginResult × Position). x.0) (sym h4));
      margin_nonneg = ground arith;
    }

funded-IsOpen :
    (cost : ℤ) (p p' : Position) (r : FundingMarginResult)
    → IsFunded cost p p' r
    → IsOpen p
    → IsOpen p'
funded-IsOpen cost p p' r f o = subst IsOpen (sym f.position) (record {
  valid = record {
    quantity_nonneg = o.valid.quantity_nonneg;
    leverage_positive = o.valid.leverage_positive;
    margin_nonneg = f.margin_nonneg;
    cost = o.valid.cost;
  };
  not_flat = o.not_flat;
})

active_ok : (o : Option Position) (p : Position) → active o ≡ ok p → o ≡ some p
unfolding active
active_ok none p h = cc
active_ok (some q) p h = ap some (ok-injective h)

-- A call of `apply_funding` that succeeds writes back the funded position.
pub record IsCharged (symbol : String) (side : PositionSide) (cost : ℤ) (b b' : Book)
    (r : FundingMarginResult) : Type 0 where
  pub before : Position
  pub after : Position
  pub held : b symbol side ≡ some before
  pub funded : IsFunded cost before after r
  pub written : b' ≡ set symbol side (some after) b

pub apply_funding-IsCharged :
    (symbol : String) (side : PositionSide) (cost : ℤ) (mmr : Rate) (b b' : Book)
    (r : FundingMarginResult)
    → apply_funding symbol side cost mmr b ≡ (ok r, b')
    → IsCharged symbol side cost b b' r
unfolding apply_funding on_position
apply_funding-IsCharged symbol side cost mmr b b' r h =
    let (p, held, h1) = step_ok (active (b symbol side)) _ _ h in
    record {
      before = p;
      after = (fund cost mmr p).1;
      held = active_ok (b symbol side) p held;
      funded =
          fund-IsFunded cost mmr p (fund cost mmr p).1 r
            (λ i. (ap (λ (x : Result FundingMarginResult × Book). x.0) h1 i, (fund cost mmr p).1));
      written = ap (λ (x : Result FundingMarginResult × Book). x.1) (sym h1);
    }

-- Every position stands under its own symbol and side.
abbrev pub IsKeyed : Book → Type 0
IsKeyed b =
    (s : String) (d : PositionSide) (p : Position) → b s d ≡ some p → (p.symbol ≡ s) × (p.side ≡ d)

some-injective : {p q : Position} → some p ≡ some q → p ≡ q
some-injective h = cc

and_true : (a b : Bool) → (a && b) ≡ true → (a ≡ true) × (b ≡ true)
and_true true b h = (refl, h)
and_true false b h = cc

side_eq-true : (c d : PositionSide) → side_eq c d ≡ true → c ≡ d
side_eq-true c d h = ground arith

same_key_lem :
    (symbol : String) (side : PositionSide) (s : String) (d : PositionSide)
    → same_key symbol side s d ≡ true
    → (symbol ≡ s) × (side ≡ d)
same_key_lem symbol side s d h =
    let (a, b) = and_true (s == symbol) (side_eq d side) h in
    (sym ((eq_iff s symbol).0 a), sym (side_eq-true d side b))

key_if :
    (symbol : String) (side : PositionSide) (s : String) (d : PositionSide) (own : Bool)
    (entry other : Option Position) (p : Position)
    → same_key symbol side s d ≡ own
    → ((q : Position) → entry ≡ some q → (q.symbol ≡ symbol) × (q.side ≡ side))
    → ((q : Position) → other ≡ some q → (q.symbol ≡ s) × (q.side ≡ d))
    → (if own then entry else other) ≡ some p
    → (p.symbol ≡ s) × (p.side ≡ d)
key_if symbol side s d true entry other p k f g h =
    let (symbol_is, side_is) = f p h in
    let (same_symbol, same_side) = same_key_lem symbol side s d k in
    (symbol_is ∙ same_symbol, side_is ∙ same_side)
key_if symbol side s d false entry other p k f g h = g p h

-- A write of a position with that symbol and side keeps the book keyed.
pub Writes-IsKeyed :
    (symbol : String) (side : PositionSide) (entry : Option Position) (b b' : Book)
    → IsKeyed b
    → ((q : Position) → entry ≡ some q → (q.symbol ≡ symbol) × (q.side ≡ side))
    → Writes symbol side entry b b'
    → IsKeyed b'
Writes-IsKeyed symbol side entry b b' keyed f w s d p h =
    key_if symbol side s d (same_key symbol side s d) entry (b s d) p refl f (keyed s d)
      (sym (w s d) ∙ h)

just :
    (symbol : String) (side : PositionSide) (p : Position)
    → p.symbol ≡ symbol
    → p.side ≡ side
    → (q : Position) → some p ≡ some q
    → (q.symbol ≡ symbol) × (q.side ≡ side)
just symbol side p e k q h =
    let same = some-injective h in
    (ap (λ (x : Position). x.symbol) (sym same) ∙ e, ap (λ (x : Position). x.side) (sym same) ∙ k)

unless :
    (symbol : String) (side : PositionSide) (p : Position) (flat : Bool)
    → p.symbol ≡ symbol
    → p.side ≡ side
    → (q : Position) → (if flat then none else some p) ≡ some q
    → (q.symbol ≡ symbol) × (q.side ≡ side)
unless symbol side p true e k q h = cc
unless symbol side p false e k q h = just symbol side p e k q h

-- Fills keep a book keyed.
pub apply-IsKeyed :
    (f : Fill) (o : Opening) (b b' : Book) (u : Unit {0})
    → IsKeyed b
    → apply f o b ≡ (ok u, b')
    → IsKeyed b'
apply-IsKeyed f o b b' u keyed h = elim (apply_cases f o b b' u h) [
  | opens {u = v} empty entry call ↦
      let (p, k, _, _, symbol, side) = opening_lem f o b b' v call in
      Writes-IsKeyed f.symbol f.position_side (some p) b b' keyed
        (just f.symbol f.position_side p symbol side)
        (set-Writes f.symbol f.position_side (some p) b b' k)
  | increases {a = a} entry call ↦
      let (p, p', held, inner, k) = weighted_average_lem f b b' a call in
      let (same_symbol, same_side) = increase_keeps p p' f.quantity f.price a inner in
      let (own_symbol, own_side) = keyed f.symbol f.position_side p held in
      Writes-IsKeyed f.symbol f.position_side (some p') b b' keyed
        (just f.symbol f.position_side p' (same_symbol ∙ own_symbol) (same_side ∙ own_side))
        (set-Writes f.symbol f.position_side (some p') b b' k)
  | reduces {a = r} exit call ↦
      let (p, p', held, inner, k) = reduce_lem f b b' r call in
      let (same_symbol, same_side) = reduction_keeps p p' f.quantity r inner in
      let (own_symbol, own_side) = keyed f.symbol f.position_side p held in
      Writes-IsKeyed f.symbol f.position_side (unless_flat p') b b' keyed
        (unless f.symbol f.position_side p' (eqb_ℤ p'.quantity (pos 0)) (same_symbol ∙ own_symbol)
          (same_side ∙ own_side))
        (drop_flat-Writes f.symbol f.position_side p' b b' k)
]

-- So does funding, which also keeps it sound.
pub charged-IsKeyed :
    (symbol : String) (side : PositionSide) (cost : ℤ) (b b' : Book) (r : FundingMarginResult)
    → IsKeyed b
    → IsCharged symbol side cost b b' r
    → IsKeyed b'
charged-IsKeyed symbol side cost b b' r keyed c =
    let (own_symbol, own_side) = keyed symbol side c.before c.held in
    Writes-IsKeyed symbol side (some c.after) b b' keyed
      (just symbol side c.after (ap (λ (x : Position). x.symbol) c.funded.position ∙ own_symbol)
        (ap (λ (x : Position). x.side) c.funded.position ∙ own_side))
      (set-Writes symbol side (some c.after) b b' c.written)

IsOpen-if :
    (own : Bool) (p q : Position) (other : Option Position)
    → IsOpen p
    → ((x : Position) → other ≡ some x → IsOpen x)
    → (if own then some p else other) ≡ some q
    → IsOpen q
IsOpen-if true p q other o f h = subst IsOpen (some-injective h) o
IsOpen-if false p q other o f h = f q h

pub charged-IsSound :
    (symbol : String) (side : PositionSide) (cost : ℤ) (b b' : Book) (r : FundingMarginResult)
    → IsSound b
    → IsCharged symbol side cost b b' r
    → IsSound b'
charged-IsSound symbol side cost b b' r sound c s d q h =
    IsOpen-if (same_key symbol side s d) c.after q (b s d)
      (funded-IsOpen cost c.before c.after r c.funded (sound symbol side c.before c.held))
      (sound s d) (sym (set-Writes symbol side (some c.after) b b' c.written s d) ∙ h)
