-- ===== src/Eval/Decision.antt =====
-- eval/decision.py: the route of a strategy that passed its gates, by preregistered thresholds.
use trading_system_v.Prelude.{
  String, Bool, true, not, ◌&&◌, Option, none, some, ◌≡◌, arith, if◌then◌else◌,
}
use trading_system_v.Prelude.Result.{
  Result, ok, err, value_error, type_error, ◌>>=◌, ◌>>◌, raise_if,
}
use trading_system_v.Eval.Number.{Number, leb_number}
use trading_system_v.Eval.Gate.{GateResult, MetricSet, Thresholds, Profile, judge}
use trading_system_v.Eval.Gate.Passing.{MeetsThresholds, IsUnregressed, judge_iff}
use text.Mathlib.Text.{◌==◌}

-- The entries of the preregistration, `none` where the entry is missing or of another type; an absent
-- `higher_is_better` is true.
pub record Preregistration : Type 0 where
  pub primary_metric : Option String
  pub observed_value : Option Number
  pub success_threshold : Option Number
  pub failure_threshold : Option Number
  pub higher_is_better : Bool
  pub edge_distinguishable : Option Bool

pub data Route : Type 0 where
  promote abandon retest partial_keep : Route

abbrev named : Option String → Result String
named none = err (value_error "prereg.primary_metric must be a non-empty string")
named (some name) =
    if name == ""
    then err (value_error "prereg.primary_metric must be a non-empty string")
    else ok name

-- `_number`.
abbrev number : Option Number → Result Number
number none = err (type_error "the entry must be numeric")
number (some x) = ok x

abbrev flag : Option Bool → Result Bool
flag none = err (type_error "prereg.edge_distinguishable must be bool")
flag (some b) = ok b

-- Whether a value reaches a threshold from the better side.
abbrev pub reaches : Bool → Number → Number → Bool
reaches higher_is_better observed threshold =
    if higher_is_better then leb_number threshold observed else leb_number observed threshold

abbrev pub route_of : Bool → Bool → Bool → Route
route_of success failed distinguishable =
    if success
    then promote
    else if failed && not distinguishable
    then abandon
    else if failed
    then retest
    else partial_keep

-- `decide`; the text of the rationale, which names the metric and the route, is left out.
unfoldable pub decide : GateResult → Preregistration → Result Route
decide gate_result prereg = do
  raise_if (not gate_result.passed) "Decision requires a passed Hard Gate"
  name ← named prereg.primary_metric
  observed ← number prereg.observed_value
  success_threshold ← number prereg.success_threshold
  failure_threshold ← number prereg.failure_threshold
  distinguishable ← flag prereg.edge_distinguishable
  ok (
      route_of (reaches prereg.higher_is_better observed success_threshold)
        (reaches (not prereg.higher_is_better) observed failure_threshold) distinguishable)

gate_of :
    (g : GateResult) (prereg : Preregistration) (route : Route)
    → decide g prereg ≡ ok route
    → g.passed ≡ true
unfolding decide
gate_of g prereg route h = ground arith

-- A route that decide returns for the result of judge is for a metric set that meets every
-- threshold and has not left the envelope of an established strategy.
pub decide-judge :
    (minus plus : Number → Number → Number) (m : MetricSet) (limits : Thresholds)
    (profile : Profile) (prereg : Preregistration) (route : Route)
    → decide (judge minus plus m limits profile) prereg ≡ ok route
    → MeetsThresholds m limits × IsUnregressed minus plus m profile
decide-judge minus plus m limits profile prereg route h =
    (judge_iff minus plus m limits profile).0
      (gate_of (judge minus plus m limits profile) prereg route h)
