-- ===== src/Eval/Gate.antt =====
-- eval/thresholds.py, eval/profile.py and eval/hard_gate.py: Gate A on universal thresholds, then Gate
-- B on the shape that the strategy's profile declares.
pub mod Passing
use trading_system_v.Prelude.{◌++◌, Bool, true, false, not, ◌||◌, if◌then◌else◌, List, [], ◌∷◌}
use trading_system_v.Prelude.Int.{ℤ, pos, ltb_ℤ}
use trading_system_v.Money.{Float}
use trading_system_v.Eval.Number.{Number, finite, is_nan, leb_number, ltb_number, abs_number, whole}

pub record MetricSet : Type 0 where
  pub pf : Number
  pub sortino : Number
  pub calmar_or_mar : Number
  pub sqn : Number
  pub mdd : Number
  pub ror : Number
  pub sharpe : Number
  pub win_rate : Number
  pub payoff : Number
  pub expectancy_r : Number
  pub ulcer : Number
  pub kelly : Number
  pub trade_count : ℤ

-- The names in `failed` and `deviated`; the text of a failed trade count is its name here.
pub data MetricName : Type 0 where
  trade_count pf sortino calmar_or_mar sqn mdd ror expectancy_r win_rate payoff : MetricName

pub data Stage : Type 0 where
  stage_a stage_b : Stage

pub data Verdict : Type 0 where
  pass not_promotable established_regression : Verdict

pub record GateResult : Type 0 where
  pub passed : Bool
  pub stage : Stage
  pub failed : List MetricName
  pub verdict : Verdict

-- The keys of the thresholds that `is_pass` reads.
pub record Thresholds : Type 0 where
  pub pf_min : Float
  pub sortino_min : Float
  pub calmar_or_mar_min : Float
  pub sqn_min : Float
  pub mdd_max : Float
  pub ror_max_exclusive : Float
  pub expectancy_r_min_exclusive : Float
  pub trade_count_min : Float

-- `universal`.
abbrev pub universal : Thresholds
universal = record {
  pf_min = record { digits = pos 13; places = 1 };
  sortino_min = record { digits = pos 1; places = 0 };
  calmar_or_mar_min = record { digits = pos 8; places = 1 };
  sqn_min = record { digits = pos 16; places = 1 };
  mdd_max = record { digits = pos 3; places = 1 };
  ror_max_exclusive = record { digits = pos 1; places = 3 };
  expectancy_r_min_exclusive = record { digits = pos 0; places = 0 };
  trade_count_min = record { digits = pos 30; places = 0 };
}

-- `_below`.
abbrev pub below : Number → Float → Bool
below value limit = is_nan value || ltb_number value (finite limit)

-- `if test: failed.append(name)`, before what is appended later.
abbrev append_if : Bool → MetricName → List MetricName → List MetricName
append_if test name later = if test then name ∷ later else later

abbrev pub is_empty : List MetricName → Bool
is_empty [] = true
is_empty (_ ∷ _) = false

-- The failures that `is_pass` collects.
unfoldable pub failures : MetricSet → Thresholds → List MetricName
failures m limits = append_if (ltb_ℤ m.trade_count (whole limits.trade_count_min)) trade_count (
    append_if (below m.pf limits.pf_min) pf (
      append_if (below m.sortino limits.sortino_min) sortino (
        append_if (below m.calmar_or_mar limits.calmar_or_mar_min) calmar_or_mar (
          append_if (below m.sqn limits.sqn_min) sqn (
            append_if (is_nan m.mdd || ltb_number (finite limits.mdd_max) (abs_number m.mdd)) mdd (
              append_if (is_nan m.ror || leb_number (finite limits.ror_max_exclusive) m.ror) ror (
                append_if
                  (is_nan m.expectancy_r
                    || leb_number m.expectancy_r (finite limits.expectancy_r_min_exclusive))
                  expectancy_r [])))))))

-- `is_pass`.
unfoldable pub is_pass : MetricSet → Thresholds → GateResult
is_pass m limits =
    let failed = failures m limits in
    record {
      passed = is_empty failed;
      stage = stage_a;
      failed = failed;
      verdict = if is_empty failed then pass else not_promotable;
    }

pub data EnvelopeStatus : Type 0 where
  provisional updating established : EnvelopeStatus

pub data Status : Type 0 where
  in_range warning reject : Status

-- The part of a strategy's profile that is read.
pub record Profile : Type 0 where
  pub expected_win_rate : Number × Number
  pub expected_payoff : Number × Number
  pub envelope_tolerance : Number
  pub envelope_status : EnvelopeStatus

pub record EnvelopeResult : Type 0 where
  pub status : Status
  pub deviated : List MetricName

abbrev pub status_of : Bool → EnvelopeStatus → Status
status_of true _ = in_range
status_of false established = reject
status_of false _ = warning

abbrev is_reject : Status → Bool
is_reject reject = true
is_reject _ = false

-- The sums and differences of two floats round as the machine does: they are parameters.
module _ (minus plus : Number → Number → Number) where
  -- `_outside`.
  unfoldable pub outside : Number → Number × Number → Number → Bool
  outside value expected tolerance =
      is_nan value
      || (ltb_number value (minus expected.0 tolerance)
          || ltb_number (plus expected.1 tolerance) value)

  -- `check_envelope`.
  unfoldable pub check_envelope : Profile → MetricSet → EnvelopeResult
  check_envelope profile m =
      let deviated =
        append_if (outside m.win_rate profile.expected_win_rate profile.envelope_tolerance) win_rate
          (append_if (outside m.payoff profile.expected_payoff profile.envelope_tolerance) payoff
            []) in
      record { status = status_of (is_empty deviated) profile.envelope_status; deviated = deviated }

  -- `judge`.
  unfoldable pub judge : MetricSet → Thresholds → Profile → GateResult
  judge m limits profile =
      let universal_result = is_pass m limits in
      let envelope = check_envelope profile m in
      if not universal_result.passed
      then universal_result
      else if is_reject envelope.status
      then record {
        passed = false;
        stage = stage_b;
        failed = envelope.deviated;
        verdict = established_regression;
      }
      else record { passed = true; stage = stage_b; failed = []; verdict = pass }
