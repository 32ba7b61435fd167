-- ===== src/Evals/Suite.antt =====
-- packages/evals/src/suite.ts: `runSuite`, `evaluateGate` and `judgeAgreement`.
pub mod Columns
pub mod Gate
mod Tests
use Prim.Native.String.{◌++◌ as ◌<>◌}
use toqar.Common.{
  ℕ, suc, String, Bool, true, false, not, ◌&&◌, Option, none, some, List, [], ◌∷◌, ◌++◌, ◌==◌,
  if◌then◌else◌, eqb, length, filter, map, map_get, map_set,
}
use toqar.Common.Numbers.{Number, lt}
use toqar.Evals.Scorers.{
  VersionTuple, EvaluatorKind, code_scorer, judge, human, Trajectory, EvalScore, CodeScorer,
  run_code_scorer,
}

pub record DatasetCase : Type 0 where
  pub case_id : String
  pub trajectory : Trajectory

pub record Dataset : Type 0 where
  pub dataset_id : String
  pub version : String
  pub cases : List DatasetCase

module _ (num : Number) where
  open num use {N, zero, of_ℕ, add, sub, div, le}

  pub record Threshold : Type 0 where
    pub scorer_id : String
    pub min_mean : N

  pub record CaseScore : Type 0 where
    pub score : EvalScore num
    pub case_id : String

  pub record ScorerStat : Type 0 where
    pub scorer_id : String
    pub mean : N
    pub cases : ℕ

  pub record SuiteResult : Type 0 where
    pub dataset_id : String
    pub dataset_version : String
    pub scores : List CaseScore
    pub per_scorer : List ScorerStat

  pub record Failure : Type 0 where
    pub scorer_id : String
    pub mean : N
    pub min_mean : N
    pub failing_cases : List String

  pub record GateResult : Type 0 where
    pub pass : Bool
    pub failures : List Failure

  abbrev pub case_score : VersionTuple → Dataset → DatasetCase → CodeScorer num → CaseScore
  case_score versions dataset c s = record {
    score =
        run_code_scorer num s c.trajectory
          (record versions { dataset_version = some dataset.version });
    case_id = c.case_id;
  }

  unfoldable pub scores_of :
      VersionTuple → Dataset → List (CodeScorer num) → List DatasetCase → List CaseScore
  scores_of versions dataset scorers [] = []
  scores_of versions dataset scorers (c ∷ cases) =
      map (case_score versions dataset c) scorers ++ scores_of versions dataset scorers cases

  -- `own.reduce((n, sc) => n + sc.value, 0)`.
  unfoldable pub sum_from : N → List CaseScore → N
  sum_from n [] = n
  sum_from n (sc ∷ scores) = sum_from (add n sc.score.value) scores

  abbrev pub is_of : String → CaseScore → Bool
  is_of id sc = sc.score.evaluator.id == id

  abbrev pub mean_of : List CaseScore → N
  mean_of own = if eqb (length own) 0 then zero else div (sum_from zero own) (of_ℕ (length own))

  abbrev pub stat_of : List CaseScore → CodeScorer num → ScorerStat
  stat_of scores s = record {
    scorer_id = s.id;
    mean = mean_of (filter (is_of s.id) scores);
    cases = length (filter (is_of s.id) scores);
  }

  unfoldable pub run_suite : Dataset → List (CodeScorer num) → VersionTuple → SuiteResult
  run_suite dataset scorers versions = record {
    dataset_id = dataset.dataset_id;
    dataset_version = dataset.version;
    scores = scores_of versions dataset scorers dataset.cases;
    per_scorer = map (stat_of (scores_of versions dataset scorers dataset.cases)) scorers;
  }

  unfoldable pub find_stat : String → List ScorerStat → Option ScorerStat
  find_stat id [] = none
  find_stat id (p ∷ ps) = if p.scorer_id == id then some p else find_stat id ps

  abbrev pub is_failing : Threshold → CaseScore → Bool
  is_failing t sc = is_of t.scorer_id sc && lt num sc.score.value t.min_mean

  abbrev pub case_ids : List CaseScore → List String
  case_ids [] = []
  case_ids (sc ∷ scores) = sc.case_id ∷ case_ids scores

  abbrev pub failures_for : List CaseScore → Threshold → Option ScorerStat → List Failure
  failures_for scores t none = []
  failures_for scores t (some stat) =
      if le t.min_mean stat.mean
      then []
      else record {
        scorer_id = t.scorer_id;
        mean = stat.mean;
        min_mean = t.min_mean;
        failing_cases = case_ids (filter (is_failing t) scores);
      }
        ∷ []

  unfoldable pub failures_of : SuiteResult → List Threshold → List Failure
  failures_of result [] = []
  failures_of result (t ∷ ts) =
      failures_for result.scores t (find_stat t.scorer_id result.per_scorer)
      ++ failures_of result ts

  unfoldable pub evaluate_gate : SuiteResult → List Threshold → GateResult
  evaluate_gate result thresholds = record {
    pass = eqb (length (failures_of result thresholds)) 0;
    failures = failures_of result thresholds;
  }

  pub record Pair : Type 0 where
    pub judged : Option N
    pub by_human : Option N

  abbrev pub or_unpaired : Option Pair → Pair
  or_unpaired none = record { judged = none; by_human = none }
  or_unpaired (some p) = p

  abbrev pub with_score : EvaluatorKind → N → Pair → Pair
  with_score judge v p = record p { judged = some v }
  with_score human v p = record p { by_human = some v }
  with_score code_scorer v p = p

  abbrev pub trace_key : EvalScore num → String
  trace_key s = s.trace_ref.task_id <> (":" <> s.trace_ref.run_id)

  unfoldable pub pair_up : List (EvalScore num) → List (String × Pair) → List (String × Pair)
  pair_up [] by_trace = by_trace
  pair_up (s ∷ scores) by_trace = pair_up scores (
      map_set by_trace (trace_key s)
        (with_score s.evaluator.kind s.value (or_unpaired (map_get by_trace (trace_key s)))))

  abbrev pub both_of : Option N → Option N → List (N × N)
  both_of (some j) (some h) = (j, h) ∷ []
  both_of j h = []

  abbrev pub complete_pairs : List (String × Pair) → List (N × N)
  complete_pairs [] = []
  complete_pairs ((key, p) ∷ entries) = both_of p.judged p.by_human ++ complete_pairs entries

  -- `Math.abs(j - h) <= tolerance`.
  abbrev pub agrees : N → N × N → Bool
  agrees tolerance (j, h) = le (if le (sub j h) zero then sub zero (sub j h) else sub j h) tolerance

  unfoldable pub judge_agreement : List (EvalScore num) → N → ℕ × Option N
  judge_agreement scores tolerance =
      let pairs = complete_pairs (pair_up scores []) in
      (
        length pairs,
        if eqb (length pairs) 0
            then none
            else some (div (of_ℕ (length (filter (agrees tolerance) pairs))) (of_ℕ (length pairs))),
      )
