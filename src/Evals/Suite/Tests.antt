-- ===== src/Evals/Suite/Tests.antt =====
-- A suite, its gate and the judge's agreement at concrete inputs, in thousandths.
use toqar.Common.{
  ℕ, ◌≡◌, refl, String, true, false, none, some, List, [], ◌∷◌, all, map_get, map_set,
}
use toqar.Common.Numbers.{thousandths}
use toqar.Evals.Scorers.{
  VersionTuple, EvaluatorKind, judge, human, TrajectoryStep, Trajectory, EvalScore, CodeScorer,
  task_completed, clean_trajectory, low_retry_churn, no_human_intervention, run_code_scorer,
  should_sample,
}
use toqar.Evals.Suite.{
  Dataset, Threshold, scores_of, sum_from, run_suite, find_stat, failures_of, evaluate_gate,
  pair_up, judge_agreement,
}
use toqar.Evals.Suite.Gate.{clears, all_due, evaluate_gate-run_suite}

abbrev step : String → String → TrajectoryStep
step status retry_of = record {
  event = "step_executed";
  tool_name = some "crm";
  status = some status;
  retry_of_step_id = some retry_of;
}

-- The final output is fine, and the first step failed and was retried.
abbrev retried : Trajectory
retried = record {
  task_id = "t2";
  run_id = "r1";
  completed = true;
  steps = step "error" "" ∷ step "ok" "s1" ∷ [];
}

abbrev unfinished : Trajectory
unfinished = record retried { completed = false }

scorers_lem :
    ((task_completed thousandths retried).value ≡ 1000)
    × ((clean_trajectory thousandths retried).value ≡ 0)
    × ((low_retry_churn thousandths retried).value ≡ 500)
    × ((no_human_intervention thousandths retried).value ≡ 1000)
unfolding task_completed clean_trajectory low_retry_churn no_human_intervention
scorers_lem = (refl, refl, refl, refl)

sampled : (should_sample thousandths "t1" 1000 ≡ true) × (should_sample thousandths "t1" 0 ≡ false)
unfolding should_sample
sampled = (refl, refl)

abbrev versions : VersionTuple
versions = record {
  prompt_version = "p1";
  model_version = "m1";
  agent_version = "a1";
  dataset_version = none;
}

abbrev dataset : Dataset
dataset = record {
  dataset_id = "ds_1";
  version = "v3";
  cases =
      record { case_id = "c1"; trajectory = retried }
      ∷ record { case_id = "c2"; trajectory = unfinished }
      ∷ [];
}

abbrev completion : CodeScorer thousandths
completion = record {
  id = "task_completed";
  rubric_hash = "rb_1";
  score = task_completed thousandths;
}

abbrev churn : CodeScorer thousandths
churn = record { id = "low_retry_churn"; rubric_hash = "rb_2"; score = low_retry_churn thousandths }

abbrev scorers : List (CodeScorer thousandths)
scorers = completion ∷ churn ∷ []

abbrev threshold : String → ℕ → Threshold thousandths
threshold id least = record { scorer_id = id; min_mean = least }

abbrev thresholds : List (Threshold thousandths)
thresholds =
    threshold "task_completed" 600 ∷ threshold "low_retry_churn" 400 ∷ threshold "typo" 900 ∷ []

gate_fails :
    evaluate_gate thousandths (run_suite thousandths dataset scorers versions) thresholds ≡ record {
      pass = false;
      failures =
          record {
            scorer_id = "task_completed";
            mean = 500;
            min_mean = 600;
            failing_cases = "c2" ∷ [];
          }
          ∷ [];
    }
unfolding evaluate_gate run_suite scores_of sum_from failures_of find_stat run_code_scorer
    task_completed low_retry_churn
gate_fails = refl

evaluate_gate-run_suite_example :
    ((evaluate_gate thousandths (run_suite thousandths dataset scorers versions) thresholds).pass
      ≡ all (clears thousandths versions dataset scorers) thresholds)
    × ((evaluate_gate thousandths
          (run_suite thousandths dataset scorers versions)
          thresholds).failures
        ≡ all_due thousandths versions dataset scorers thresholds)
evaluate_gate-run_suite_example =
    evaluate_gate-run_suite thousandths versions dataset scorers thresholds (refl, (refl, tt))

abbrev scored : EvaluatorKind → String → ℕ → EvalScore thousandths
scored kind task value = record {
  trace_ref = record { task_id = task; run_id = "r" };
  evaluator = record { id = "e"; kind = kind; rubric_hash = "rb"; judge_model = none };
  versions = versions;
  value = value;
  label = none;
}

agreement :
    judge_agreement thousandths
      (scored judge "t1" 500
        ∷ scored human "t1" 500
        ∷ scored judge "t2" 900
        ∷ scored human "t2" 100
        ∷ scored judge "t3" 100
        ∷ [])
      250
    ≡ (2, some 500)
unfolding judge_agreement pair_up map_get map_set
agreement = refl
