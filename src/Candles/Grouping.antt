-- ===== src/Candles/Grouping.antt =====
-- candles.py: the grouping of the rows by bucket, against a filter of the rows.
use trading_system_v.Prelude.{
  ◌↔◌, ℕ, Bool, true, false, ◌||◌, if◌then◌else◌, List, [], ◌∷◌, ◌++◌, ◌==◌, ◌≡◌, ◌⊎◌, inl, inr,
  subst, refl, sym, ap, ◌∙◌, arith,
}
use trading_system_v.Prelude.Result.{Result, ok, err, value_error, ◌>>=◌, >>=-eq-ok, ok-injective}
use trading_system_v.Candles.{Row, bucket_start, Groups, rows_at, has_time, add_row, group_rows}

-- The rows of one bucket, in the order they came.
unfoldable pub in_bucket : ℕ → ℕ → List Row → List Row
in_bucket length bucket [] = []
in_bucket length bucket (r ∷ rs) =
    let rest = in_bucket length bucket rs in
    if bucket_start r.time length == bucket then r ∷ rest else rest

append_empty : (xs : List Row) → xs ++ [] ≡ xs
append_empty [] = refl
append_empty (x ∷ xs) = ap (λ (ys : List Row). x ∷ ys) (append_empty xs)

append_assoc : (xs ys zs : List Row) → (xs ++ ys) ++ zs ≡ xs ++ (ys ++ zs)
append_assoc [] ys zs = refl
append_assoc (x ∷ xs) ys zs = ap (λ (us : List Row). x ∷ us) (append_assoc xs ys zs)

abbrev added : ℕ → Row → ℕ → List Row → List Row
added bucket row b rows = if bucket == b then rows ++ row ∷ [] else rows

cons_later :
    (bucket key : ℕ) (row : Row) (rows : List Row) (g more : Groups) (b : ℕ)
    → (key == bucket) ≡ false
    → rows_at b more ≡ added bucket row b (rows_at b g)
    → rows_at b ((key, rows) ∷ more) ≡ added bucket row b (rows_at b ((key, rows) ∷ g))
unfolding rows_at
cons_later bucket key row rows g more b e h = ground arith

cons_own :
    (bucket key : ℕ) (row : Row) (rows : List Row) (g : Groups) (b : ℕ)
    → (key == bucket) ≡ true
    → rows_at b ((key, rows ++ row ∷ []) ∷ g) ≡ added bucket row b (rows_at b ((key, rows) ∷ g))
unfolding rows_at
cons_own bucket key row rows g b e = ground arith

pub added_cases :
    (own duplicate : Bool) (rest : Result Groups) (x : Groups) (entry : ℕ × List Row) (h : Groups)
    → (if own
        then if duplicate then err (value_error "duplicate 1m source candle") else ok x
        else (rest >>= λ later. ok (entry ∷ later)))
      ≡ ok h
    → ((own ≡ true) × (x ≡ h))
      ⊎ ((own ≡ false) × (more : Groups) × (rest ≡ ok more) × ◌≡◌ {A = Groups} (entry ∷ more) h)
added_cases true true rest x entry h e = cc
added_cases true false rest x entry h e = inl (refl, ok-injective e)
added_cases false duplicate rest x entry h e =
    let (more, call, same) = >>=-eq-ok rest _ e in inr (refl, more, call, ok-injective same)

one_more :
    (own : Bool) (r : Row) (xs ys : List Row)
    → (if own then xs ++ r ∷ [] else xs) ++ ys ≡ xs ++ (if own then r ∷ ys else ys)
one_more true r xs ys = append_assoc xs (r ∷ []) ys
one_more false r xs ys = refl

-- A row that is added goes to the end of its own bucket.
rows_at-add_row :
    (bucket : ℕ) (row : Row) (g h : Groups) (b : ℕ)
    → add_row bucket row g ≡ ok h
    → rows_at b h ≡ added bucket row b (rows_at b g)
unfolding add_row rows_at
rows_at-add_row bucket row [] h b e = ground arith
rows_at-add_row bucket row ((key, rows) ∷ g) h b e =
    elim (added_cases (key == bucket) (has_time row.time rows) (add_row bucket row g)
      ((key, rows ++ row ∷ []) ∷ g) (key, rows) h e) [
        | inl (own, same) ↦
            subst (λ x. rows_at b x ≡ added bucket row b (rows_at b ((key, rows) ∷ g))) same
              (cons_own bucket key row rows g b own)
        | inr (other, more, call, same) ↦
            subst (λ x. rows_at b x ≡ added bucket row b (rows_at b ((key, rows) ∷ g))) same
              (cons_later bucket key row rows g more b other
                (rows_at-add_row bucket row g more b call))
      ]

pub rows_at-group_rows :
    (length : ℕ) (rows : List Row) (g h : Groups) (b : ℕ)
    → group_rows length rows g ≡ ok h
    → rows_at b h ≡ rows_at b g ++ in_bucket length b rows
unfolding group_rows in_bucket
rows_at-group_rows length [] g h b e =
    let same : g ≡ h = ok-injective e in
    ap (rows_at b) (sym same) ∙ sym (append_empty (rows_at b g))
rows_at-group_rows length (r ∷ rs) g h b e =
    let (more, call, rest) = >>=-eq-ok (add_row (bucket_start r.time length) r g) _ e in
    rows_at-group_rows length rs more h b rest
    ∙ ap (λ x. x ++ in_bucket length b rs)
        (rows_at-add_row (bucket_start r.time length) r g more b call)
    ∙ one_more (bucket_start r.time length == b) r (rows_at b g) (in_bucket length b rs)

-- No two rows have the same time.
abbrev pub IsDistinct : List Row → Type 0
IsDistinct [] = Unit
IsDistinct (r ∷ rs) = (has_time r.time rs ≡ false) × IsDistinct rs

-- No row that is left has the time of a row in its bucket.
abbrev IsFresh : ℕ → Groups → List Row → Type 0
IsFresh length g [] = Unit
IsFresh length g (r ∷ rs) =
    (has_time r.time (rows_at (bucket_start r.time length) g) ≡ false) × IsFresh length g rs

has_time-append :
    (t : ℕ) (xs : List Row) (r : Row) → has_time t (xs ++ r ∷ []) ≡ (has_time t xs || r.time == t)
has_time-append t [] r = ground arith
has_time-append t (x ∷ xs) r = ground (arith, has_time-append t xs r)

own_iff :
    (duplicate : Bool) (x : Groups)
    → ((h : Groups) × ((if duplicate then err (value_error "duplicate 1m source candle") else ok x)
          ≡ ok h))
      ↔ (duplicate ≡ false)
own_iff true x = (λ (h, e). cc, λ e. cc)
own_iff false x = (λ h. refl, λ h. (x, refl))

added_iff :
    (own : Bool) (t : ℕ) (rows below : List Row) (rest : Result Groups) (x : Groups)
    (entry : ℕ × List Row)
    → ((h : Groups) × (rest ≡ ok h)) ↔ (has_time t below ≡ false)
    → ((h : Groups) × ((if own
            then if has_time t rows then err (value_error "duplicate 1m source candle") else ok x
            else (rest >>= λ later. ok (entry ∷ later)))
          ≡ ok h))
      ↔ (has_time t (if own then rows else below) ≡ false)
added_iff true t rows below rest x entry f = own_iff (has_time t rows) x
added_iff false t rows below rest x entry f = (
  λ (h, e). let (more, call, same) = >>=-eq-ok rest _ e in f.0 (more, call),
  λ e. let (more, call) = f.1 e in (entry ∷ more, rw call refl),
)

add_row_iff :
    (bucket : ℕ) (row : Row) (g : Groups)
    → ((h : Groups) × (add_row bucket row g ≡ ok h))
      ↔ (has_time row.time (rows_at bucket g) ≡ false)
unfolding add_row rows_at
add_row_iff bucket row [] = (λ h. refl, λ h. ((bucket, row ∷ []) ∷ [], refl))
add_row_iff bucket row ((key, rows) ∷ g) =
    added_iff (key == bucket) row.time rows (rows_at bucket g) (add_row bucket row g) _ (key, rows)
      (add_row_iff bucket row g)

time_at :
    (own same : Bool) (t : ℕ) (row : Row) (rows : List Row)
    → (row.time == t) ≡ same
    → (same ≡ true → own ≡ true)
    → has_time t (if own then rows ++ row ∷ [] else rows) ≡ (has_time t rows || same)
time_at true same t row rows e h = has_time-append t rows row ∙ ap (λ b. has_time t rows || b) e
time_at false true t row rows e h = let k = h refl in cc
time_at false false t row rows e h = ground arith

time_added :
    (length t : ℕ) (row : Row) (rows : List Row)
    → has_time t (added (bucket_start row.time length) row (bucket_start t length) rows)
      ≡ (has_time t rows || row.time == t)
time_added length t row rows =
    time_at (bucket_start row.time length == bucket_start t length) (row.time == t) t row rows refl
      (λ e. let same : row.time ≡ t = ground arith in rw same (ground arith))

-- After a row is added, a time is in its bucket if it was, or if it is the row's.
has_time-add_row :
    (length t : ℕ) (row : Row) (g h : Groups)
    → add_row (bucket_start row.time length) row g ≡ ok h
    → has_time t (rows_at (bucket_start t length) h)
      ≡ (has_time t (rows_at (bucket_start t length) g) || row.time == t)
has_time-add_row length t row g h e =
    ap (has_time t)
      (rows_at-add_row (bucket_start row.time length) row g h (bucket_start t length) e)
    ∙ time_added length t row (rows_at (bucket_start t length) g)

IsFresh-iff :
    (length : ℕ) (row : Row) (g h : Groups) (rs : List Row)
    → add_row (bucket_start row.time length) row g ≡ ok h
    → IsFresh length h rs ↔ (IsFresh length g rs × (has_time row.time rs ≡ false))
IsFresh-iff length row g h [] e = (λ x. (tt, refl), λ x. tt)
IsFresh-iff length row g h (r ∷ rs) e =
    ground (arith, has_time-add_row length r.time row g h e, IsFresh-iff length row g h rs e)

group_iff :
    (length : ℕ) (rows : List Row) (g : Groups)
    → ((h : Groups) × (group_rows length rows g ≡ ok h)) ↔ (IsFresh length g rows × IsDistinct rows)
unfolding group_rows
group_iff length [] g = (λ h. (tt, tt), λ h. (g, refl))
group_iff length (r ∷ rs) g = (
  λ (h, e).
      let (more, call, rest) = >>=-eq-ok (add_row (bucket_start r.time length) r g) _ e in
      let (fresh, distinct) = (group_iff length rs more).0 (h, rest) in
      let (kept, own) = (IsFresh-iff length r g more rs call).0 fresh in
      (((add_row_iff (bucket_start r.time length) r g).0 (more, call), kept), (own, distinct)),
  λ ((own, fresh), (new, distinct)).
      let (more, call) = (add_row_iff (bucket_start r.time length) r g).1 own in
      let (h, e) =
        (group_iff length rs more).1
          ((IsFresh-iff length r g more rs call).1 (fresh, new), distinct) in
      (h, rw call e),
)

nothing_IsFresh : (length : ℕ) (rows : List Row) → IsFresh length [] rows
unfolding rows_at
nothing_IsFresh length [] = tt
nothing_IsFresh length (r ∷ rs) = (refl, nothing_IsFresh length rs)

-- The rows are grouped exactly when no two of them have the same time.
pub group_rows_iff :
    (length : ℕ) (rows : List Row)
    → ((h : Groups) × (group_rows length rows [] ≡ ok h)) ↔ IsDistinct rows
group_rows_iff length rows = (
  λ h. ((group_iff length rows []).0 h).1,
  λ d. (group_iff length rows []).1 (nothing_IsFresh length rows, d),
)
