-- ===== src/Examples/Eval.antt =====
-- The properties of the gates at concrete inputs.
use trading_system_v.Prelude.{String, Bool, true, Option, some, ◌≡◌, ◌↔◌, refl}
use trading_system_v.Prelude.Int.{pos, ◌*ℤ◌}
use trading_system_v.Prelude.Result.{ok}
use trading_system_v.Money.{ten_pow}
use trading_system_v.Eval.Number.{Number, finite, whole}
use trading_system_v.Eval.Gate.{
  MetricSet, Profile, established, universal, failures, is_pass, outside, check_envelope, judge,
}
use trading_system_v.Eval.Gate.Passing.{MeetsThresholds, IsUnregressed, judge_iff}
use trading_system_v.Eval.Decision.{Preregistration, promote, decide, decide-judge}

abbrev two : Number
two = finite (record { digits = pos 2; places = 0 })

abbrev tenth : Number
tenth = finite (record { digits = pos 1; places = 1 })

abbrev none_lost : Number
none_lost = finite (record { digits = pos 0; places = 0 })

abbrev good_metrics : MetricSet
good_metrics = record {
  pf = two;
  sortino = two;
  calmar_or_mar = two;
  sqn = two;
  mdd = tenth;
  ror = none_lost;
  sharpe = two;
  win_rate = tenth;
  payoff = two;
  expectancy_r = tenth;
  ulcer = tenth;
  kelly = tenth;
  trade_count = pos 40;
}

-- Edges without a tolerance.
abbrev first_of : Number → Number → Number
first_of a b = a

abbrev profile : Profile
profile = record {
  expected_win_rate = (none_lost, two);
  expected_payoff = (tenth, two);
  envelope_tolerance = none_lost;
  envelope_status = established;
}

abbrev prereg : Preregistration
prereg = record {
  primary_metric = some "pf";
  observed_value = some two;
  success_threshold = some two;
  failure_threshold = some tenth;
  higher_is_better = true;
  edge_distinguishable = some true;
}

judge_iff_example : ((judge first_of first_of good_metrics universal profile).passed ≡ true) ↔ (
    MeetsThresholds good_metrics universal × IsUnregressed first_of first_of good_metrics profile)
judge_iff_example = judge_iff first_of first_of good_metrics universal profile

promoted : decide (judge first_of first_of good_metrics universal profile) prereg ≡ ok promote
unfolding decide judge check_envelope outside is_pass failures whole ten_pow ◌*ℤ◌
promoted = refl

decide-judge_example :
    MeetsThresholds good_metrics universal × IsUnregressed first_of first_of good_metrics profile
decide-judge_example =
    decide-judge first_of first_of good_metrics universal profile prereg promote promoted

abbrev all_there : String → Option Bool
all_there name = some true
