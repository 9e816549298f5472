-- ===== src/Eval/Gate/Passing.antt =====
-- When a metric set passes Gate A, and when it passes both gates.
use trading_system_v.Prelude.{
  ◌≢◌, Bool, true, false, ◌||◌, List, ◌≡◌, ◌↔◌, ◌⊎◌, inl, inr, refl, arith,
}
use trading_system_v.Prelude.Int.{◌≤ℤ◌}
use trading_system_v.Money.{Float, leb_float, ltb_float}
use trading_system_v.Eval.Number.{
  Number, nan, minus_infinity, plus_infinity, finite, is_nan, leb_number, ltb_number, abs_number,
  whole,
}
use trading_system_v.Eval.Gate.{
  MetricSet, MetricName, Thresholds, below, append_if, is_empty, failures, is_pass, Profile,
  established, outside, check_envelope, judge,
}

-- A number, not NaN, that is at least the limit; the other bounds likewise.
abbrev pub AtLeast : Float → Number → Type 0
AtLeast limit nan = ⊥
AtLeast limit minus_infinity = ⊥
AtLeast limit plus_infinity = Unit {0}
AtLeast limit (finite x) = ltb_float x limit ≡ false

abbrev pub AtMost : Float → Number → Type 0
AtMost limit nan = ⊥
AtMost limit minus_infinity = Unit {0}
AtMost limit plus_infinity = ⊥
AtMost limit (finite x) = ltb_float limit x ≡ false

abbrev pub Below : Float → Number → Type 0
Below limit nan = ⊥
Below limit minus_infinity = Unit {0}
Below limit plus_infinity = ⊥
Below limit (finite x) = leb_float limit x ≡ false

abbrev pub Above : Float → Number → Type 0
Above limit nan = ⊥
Above limit minus_infinity = ⊥
Above limit plus_infinity = Unit {0}
Above limit (finite x) = leb_float x limit ≡ false

AtLeast-iff : (limit : Float) (v : Number) → (below v limit ≡ false) ↔ AtLeast limit v
AtLeast-iff limit nan = ground arith
AtLeast-iff limit minus_infinity = ground arith
AtLeast-iff limit plus_infinity = ground arith
AtLeast-iff limit (finite x) = ground arith

AtMost-iff :
    (limit : Float) (v : Number)
    → ((is_nan v || ltb_number (finite limit) (abs_number v)) ≡ false) ↔ AtMost limit (abs_number v)
AtMost-iff limit nan = ground arith
AtMost-iff limit minus_infinity = ground arith
AtMost-iff limit plus_infinity = ground arith
AtMost-iff limit (finite x) = ground arith

Below-iff :
    (limit : Float) (v : Number)
    → ((is_nan v || leb_number (finite limit) v) ≡ false) ↔ Below limit v
Below-iff limit nan = ground arith
Below-iff limit minus_infinity = ground arith
Below-iff limit plus_infinity = ground arith
Below-iff limit (finite x) = ground arith

Above-iff :
    (limit : Float) (v : Number)
    → ((is_nan v || leb_number v (finite limit)) ≡ false) ↔ Above limit v
Above-iff limit nan = ground arith
Above-iff limit minus_infinity = ground arith
Above-iff limit plus_infinity = ground arith
Above-iff limit (finite x) = ground arith

-- What Gate A asks of a metric set.
pub record MeetsThresholds (m : MetricSet) (limits : Thresholds) : Type 0 where
  pub samples : whole limits.trade_count_min ≤ℤ m.trade_count
  pub pf : AtLeast limits.pf_min m.pf
  pub sortino : AtLeast limits.sortino_min m.sortino
  pub calmar_or_mar : AtLeast limits.calmar_or_mar_min m.calmar_or_mar
  pub sqn : AtLeast limits.sqn_min m.sqn
  pub mdd : AtMost limits.mdd_max (abs_number m.mdd)
  pub ror : Below limits.ror_max_exclusive m.ror
  pub expectancy_r : Above limits.expectancy_r_min_exclusive m.expectancy_r

append_if_lem :
    (test : Bool) (name : MetricName) (later : List MetricName)
    → (is_empty (append_if test name later) ≡ true) ↔ ((test ≡ false) × (is_empty later ≡ true))
append_if_lem true name later = (λ h. ground arith, λ h. ground arith)
append_if_lem false name later = (λ h. (refl, h), λ h. h.1)

pub is_pass_iff :
    (m : MetricSet) (limits : Thresholds)
    → ((is_pass m limits).passed ≡ true) ↔ MeetsThresholds m limits
unfolding is_pass failures
is_pass_iff m limits = (
  λ h. record {
    samples = ground arith;
    pf = (AtLeast-iff limits.pf_min m.pf).0 (ground arith);
    sortino = (AtLeast-iff limits.sortino_min m.sortino).0 (ground arith);
    calmar_or_mar = (AtLeast-iff limits.calmar_or_mar_min m.calmar_or_mar).0 (ground arith);
    sqn = (AtLeast-iff limits.sqn_min m.sqn).0 (ground arith);
    mdd = (AtMost-iff limits.mdd_max m.mdd).0 (ground arith);
    ror = (Below-iff limits.ror_max_exclusive m.ror).0 (ground arith);
    expectancy_r = (Above-iff limits.expectancy_r_min_exclusive m.expectancy_r).0 (ground arith);
  },
  λ v. ground (
    arith,
    v.samples,
    (AtLeast-iff limits.pf_min m.pf).1 v.pf,
    (AtLeast-iff limits.sortino_min m.sortino).1 v.sortino,
    (AtLeast-iff limits.calmar_or_mar_min m.calmar_or_mar).1 v.calmar_or_mar,
    (AtLeast-iff limits.sqn_min m.sqn).1 v.sqn,
    (AtMost-iff limits.mdd_max m.mdd).1 v.mdd,
    (Below-iff limits.ror_max_exclusive m.ror).1 v.ror,
    (Above-iff limits.expectancy_r_min_exclusive m.expectancy_r).1 v.expectancy_r,
  ),
)

-- A number lies below another; nothing lies below or above NaN.
abbrev pub LiesBelow : Number → Number → Type 0
LiesBelow nan b = ⊥
LiesBelow a nan = ⊥
LiesBelow minus_infinity minus_infinity = ⊥
LiesBelow minus_infinity b = Unit {0}
LiesBelow plus_infinity b = ⊥
LiesBelow (finite x) minus_infinity = ⊥
LiesBelow (finite x) plus_infinity = Unit {0}
LiesBelow (finite x) (finite y) = ltb_float x y ≡ true

-- A number, not NaN, that lies neither below the one edge nor above the other.
pub record IsWithin (low high v : Number) : Type 0 where
  pub known : v ≢ nan
  pub not_below : LiesBelow v low → ⊥
  pub not_above : LiesBelow high v → ⊥

not_below_iff : (a b : Number) → (ltb_number a b ≡ false) ↔ (LiesBelow a b → ⊥)
not_below_iff nan b = ground arith
not_below_iff minus_infinity nan = ground arith
not_below_iff minus_infinity minus_infinity = ground arith
not_below_iff minus_infinity plus_infinity = ground arith
not_below_iff minus_infinity (finite y) = ground arith
not_below_iff plus_infinity nan = ground arith
not_below_iff plus_infinity minus_infinity = ground arith
not_below_iff plus_infinity plus_infinity = ground arith
not_below_iff plus_infinity (finite y) = ground arith
not_below_iff (finite x) nan = ground arith
not_below_iff (finite x) minus_infinity = ground arith
not_below_iff (finite x) plus_infinity = ground arith
not_below_iff (finite x) (finite y) = ground arith

known_iff : (v : Number) → (is_nan v ≡ false) ↔ (v ≢ nan)
known_iff nan = (λ h. cc, λ h. absurd (h refl))
known_iff minus_infinity = (λ h k. cc, λ h. refl)
known_iff plus_infinity = (λ h k. cc, λ h. refl)
known_iff (finite x) = (λ h k. cc, λ h. refl)

none_true : (a b c : Bool) → ((a || (b || c)) ≡ false) ↔ ((a ≡ false) × (b ≡ false) × (c ≡ false))
none_true a b c = ground arith

module _ (minus plus : Number → Number → Number) where
  -- Neither below the lower edge less the tolerance, nor above the upper edge and the tolerance.
  abbrev pub InEnvelope : Number → Number × Number → Number → Type 0
  InEnvelope v expected tolerance =
      IsWithin (minus expected.0 tolerance) (plus expected.1 tolerance) v

  -- Win rate and payoff are within the envelope, or the strategy is not yet established.
  abbrev pub IsUnregressed : MetricSet → Profile → Type 0
  IsUnregressed m profile =
      (profile.envelope_status ≢ established)
      ⊎ (InEnvelope m.win_rate profile.expected_win_rate profile.envelope_tolerance
          × InEnvelope m.payoff profile.expected_payoff profile.envelope_tolerance)

  outside_iff :
      (v : Number) (expected : Number × Number) (tolerance : Number)
      → (outside minus plus v expected tolerance ≡ false) ↔ InEnvelope v expected tolerance
  unfolding outside
  outside_iff v expected tolerance =
      let low = minus expected.0 tolerance in
      let high = plus expected.1 tolerance in
      let split = none_true (is_nan v) (ltb_number v low) (ltb_number high v) in
      (
        λ h.
            let (k, b, a) = split.0 h in
            record {
              known = (known_iff v).0 k;
              not_below = (not_below_iff v low).0 b;
              not_above = (not_below_iff high v).0 a;
            },
        λ w. split.1 (
          (known_iff v).1 w.known,
          (not_below_iff v low).1 w.not_below,
          (not_below_iff high v).1 w.not_above,
        ),
      )

  -- What check_envelope says of the two metrics, in terms of the tests.
  abbrev TestsPass : MetricSet → Profile → Type 0
  TestsPass m profile =
      (profile.envelope_status ≢ established)
      ⊎ ((outside minus plus m.win_rate profile.expected_win_rate profile.envelope_tolerance
            ≡ false)
          × (outside minus plus m.payoff profile.expected_payoff profile.envelope_tolerance
              ≡ false))

  IsUnregressed-iff :
      (m : MetricSet) (profile : Profile) → TestsPass m profile ↔ IsUnregressed m profile
  IsUnregressed-iff m profile =
      let w = outside_iff m.win_rate profile.expected_win_rate profile.envelope_tolerance in
      let f = outside_iff m.payoff profile.expected_payoff profile.envelope_tolerance in
      (
        λ h. elim h [ inl k ↦ inl k | inr t ↦ inr (w.0 t.0, f.0 t.1) ],
        λ h. elim h [ inl k ↦ inl k | inr t ↦ inr (w.1 t.0, f.1 t.1) ],
      )

  judge_tests :
      (m : MetricSet) (limits : Thresholds) (profile : Profile)
      → ((judge minus plus m limits profile).passed ≡ true)
        ↔ (MeetsThresholds m limits × TestsPass m profile)
  unfolding judge check_envelope
  judge_tests m limits profile =
      let gate = is_pass_iff m limits in
      (λ h. (gate.0 (ground arith), ground arith), λ h. ground (arith, gate.1 h.0))

  -- Whatever the rounding of the envelope's edges, judge passes a metric set exactly when it
  -- meets every threshold, with no NaN among the metrics that are compared, and its win rate
  -- and payoff are within the envelope unless the strategy is not yet established.
  pub judge_iff :
      (m : MetricSet) (limits : Thresholds) (profile : Profile)
      → ((judge minus plus m limits profile).passed ≡ true)
        ↔ (MeetsThresholds m limits × IsUnregressed m profile)
  judge_iff m limits profile =
      let tests = judge_tests m limits profile in
      let same = IsUnregressed-iff m profile in
      (λ h. let (met, kept) = tests.0 h in (met, same.0 kept), λ h. tests.1 (h.0, same.1 h.1))
