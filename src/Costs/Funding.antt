-- ===== src/Costs/Funding.antt =====
-- services/core-lib/core_lib/costs/funding.py. Times count microseconds of UTC from the epoch, which
-- is a midnight; hours, minutes and days are read off them.
use trading_system_v.Prelude.{
  ℕ, zero, suc, ◌+◌, ◌-◌, ◌*◌, ◌/◌, ◌%◌, ◌≡◌, ◌≤◌, ◌<◌, Bool, ◌&&◌, ◌||◌, List, [], ◌∷◌, arith,
  ◌==◌, ltb, leb, if◌then◌else◌, any,
}
use trading_system_v.Prelude.Int.{◌<ℤ◌, ℤ, pos, negsuc, neg, ◌*ℤ◌, leb_ℤ}
use trading_system_v.Prelude.Result.{Result, ok, ◌>>◌, raise_if}
use trading_system_v.Money.{Rate, den, scale, quantize}
use trading_system_v.Money.Rounding.{quantize-neg, *ℤ_minus_one, *ℤ_one}
use trading_system_v.Types.Enums.{long, short, both, side_eq, is_long}
use trading_system_v.Types.Position.{Position}

-- `settle`: quantize(quantity * price * rate * direction).
unfoldable pub settle : Position → Rate → ℤ → Result ℤ
settle p rate price = do
  raise_if (leb_ℤ price (pos 0)) "settlement price must be positive"
  raise_if (side_eq p.side both) "funding direction is ambiguous for PositionSide.BOTH"
  let direction = if is_long p.side then pos 1 else negsuc 0
  ok (quantize (p.quantity *ℤ price *ℤ rate.num *ℤ direction) (scale * den rate))

abbrev pub hour : ℕ
hour = 3600000000

abbrev pub eight_hours : ℕ
eight_hours = 28800000000

abbrev pub day_length : ℕ
day_length = 86400000000

-- `is_boundary`, on the hour, the minute, the second and the microsecond of the day.
unfoldable pub is_boundary : ℕ → Bool
is_boundary at =
    let h = at / hour % 24 in
    (h == 0 || (h == 8 || h == 16))
    && (at / 60000000 % 60 == 0 && (at / 1000000 % 60 == 0 && at % 1000000 == 0))

-- The inner loop of `boundaries_between`, one boundary of the day.
within : ℕ → ℕ → ℕ → List ℕ → List ℕ
within start end boundary rest =
    if ltb start boundary && leb boundary end then boundary ∷ rest else rest

day_boundaries : ℕ → ℕ → ℕ → List ℕ → List ℕ
day_boundaries start end day rest =
    within start end day
      (within start end (day + 8 * hour) (within start end (day + 16 * hour) rest))

-- The outer loop, `while day <= end`.
boundary_loop : ℕ → ℕ → ℕ → ℕ → List ℕ
boundary_loop zero start end day = []
boundary_loop (suc fuel) start end day =
    let later = boundary_loop fuel start end (day + day_length) in
    let today = day_boundaries start end day later in if leb day end then today else []

unfoldable pub boundaries_between : ℕ → ℕ → Result (List ℕ)
unfolding boundary_loop day_boundaries within
boundaries_between start end = do
  raise_if (ltb end start) "funding boundary interval end must not precede start"
  ok (boundary_loop (suc (end / day_length)) start end (start - start % day_length))

abbrev pub elem : ℕ → List ℕ → Bool
elem t = any (λ b. b == t)

-- The test on hour, minute, second and microsecond is that the time is a multiple of eight
-- hours.
pub is_boundary_lem : (t : ℕ) → is_boundary t ≡ (t % eight_hours == 0)
unfolding is_boundary
is_boundary_lem t = ground arith

elem-within :
    (start end b t : ℕ) (rest : List ℕ)
    → elem t (within start end b rest) ≡ (b == t && (ltb start t && leb t end) || elem t rest)
unfolding within
elem-within start end b t rest = ground arith

-- One day of the loop holds a time exactly when the time is one of its boundaries, or comes later.
elem-day_boundaries :
    (start end day t : ℕ) (rest : List ℕ)
    → day % day_length ≡ 0
    → elem t rest
      ≡ (ltb start t && (leb t end && (leb (day + day_length) t && t % eight_hours == 0)))
    → elem t (day_boundaries start end day rest)
      ≡ (ltb start t && (leb t end && (leb day t && t % eight_hours == 0)))
unfolding day_boundaries
elem-day_boundaries start end day t rest aligned later =
    let third = within start end (day + 16 * hour) rest in
    let second = within start end (day + 8 * hour) third in
    ground (
      arith,
      elem-within start end day t second,
      elem-within start end (day + 8 * hour) t third,
      elem-within start end (day + 16 * hour) t rest,
    )

elem-boundary_loop :
    (fuel start end day t : ℕ)
    → day % day_length ≡ 0
    → end < day + fuel * day_length
    → elem t (boundary_loop fuel start end day)
      ≡ (ltb start t && (leb t end && (leb day t && t % eight_hours == 0)))
unfolding boundary_loop
elem-boundary_loop zero start end day t aligned enough = ground arith
elem-boundary_loop (suc fuel) start end day t aligned enough =
    let rest = boundary_loop fuel start end (day + day_length) in
    ground (
      arith,
      elem-day_boundaries start end day t rest aligned,
      elem-boundary_loop fuel start end (day + day_length) t,
    )

all_between :
    (start end t : ℕ)
    → elem t (boundary_loop (suc (end / day_length)) start end (start - start % day_length))
      ≡ (ltb start t && (leb t end && is_boundary t))
all_between start end t = ground (
  arith,
  is_boundary_lem t,
  elem-boundary_loop (suc (end / day_length)) start end (start - start % day_length) t,
)

-- For an interval that does not end before it starts, boundaries_between returns a list that
-- holds exactly the settlement boundaries after the start and up to the end.
pub boundaries_between_lem :
    (start end : ℕ)
    → start ≤ end
    → (bs : List ℕ) × (boundaries_between start end ≡ ok bs)
      × ((t : ℕ) → elem t bs ≡ (ltb start t && (leb t end && is_boundary t)))
unfolding boundaries_between
boundaries_between_lem start end h = (
  boundary_loop (suc (end / day_length)) start end (start - start % day_length),
  ground arith,
  λ t. all_between start end t,
)

settled_amount : Position → Rate → ℤ → ℤ
settled_amount p rate price = quantize (p.quantity *ℤ price *ℤ rate.num) (scale * den rate)

-- At one rate and positive price, what a long is charged a short of the same quantity receives.
pub settle-opposite :
    (p : Position) (rate : Rate) (price : ℤ)
    → pos 0 <ℤ price
    → (c : ℤ) × (settle (record p { side = long }) rate price ≡ ok c)
      × (settle (record p { side = short }) rate price ≡ ok (neg c))
unfolding settle settled_amount
settle-opposite p rate price h = (
  settled_amount p rate price,
  rw *ℤ_one (ground arith),
  rw (*ℤ_minus_one, quantize-neg (p.quantity *ℤ price *ℤ rate.num) (scale * den rate) (omega arith))
      (ground arith),
)
