-- ===== src/Evals/Scorers.antt =====
-- packages/evals/src/types.ts and scorers.ts: trajectories, scores and the built-in code scorers. The
-- hash of a scorer's source is a field of the scorer. `runJudge`, which calls a model, is left out.
use Prim.Native.Char.{code}
use Prim.Native.String.{String}
use toqar.Common.{
  ℕ, ◌+◌, ◌*◌, ◌%◌, Bool, true, false, not, ◌&&◌, Option, none, some, List, [], ◌∷◌, ◌==◌,
  if◌then◌else◌, eqb, length, filter, includes,
}
use toqar.Common.Numbers.{Number, lt}

pub record VersionTuple : Type 0 where
  pub prompt_version : String
  pub model_version : String
  pub agent_version : String
  pub dataset_version : Option String

pub data EvaluatorKind : Type 0 where
  code_scorer judge human : EvaluatorKind

pub record EvaluatorIdentity : Type 0 where
  pub id : String
  pub kind : EvaluatorKind
  pub rubric_hash : String
  pub judge_model : Option String

pub record TraceRef : Type 0 where
  pub task_id : String
  pub run_id : String

pub data Label : Type 0 where
  not_completed no_steps : Label
  failed_steps : ℕ → Label

pub record TrajectoryStep : Type 0 where
  pub event : String
  pub tool_name : Option String
  pub status : Option String
  pub retry_of_step_id : Option String

pub record Trajectory : Type 0 where
  pub task_id : String
  pub run_id : String
  pub completed : Bool
  pub steps : List TrajectoryStep

-- Neither absent nor empty.
abbrev pub is_given : Option String → Bool
is_given none = false
is_given (some s) = not (s == "")

-- `s.status && s.status !== 'ok'`.
abbrev pub has_failed : Option String → Bool
has_failed none = false
has_failed (some s) = not (s == "") && not (s == "ok")

abbrev pub is_step : TrajectoryStep → Bool
is_step s = s.event == "step_executed"

abbrev pub is_failed_step : TrajectoryStep → Bool
is_failed_step s = is_step s && has_failed s.status

abbrev pub is_retry : TrajectoryStep → Bool
is_retry s = is_given s.retry_of_step_id

abbrev pub is_touched : List TrajectoryStep → Bool
is_touched [] = false
is_touched (s ∷ ss) =
    if includes ("handoff_to_human" ∷ "human_edited" ∷ "human_overrode" ∷ []) s.event
    then true
    else is_touched ss

module _ (num : Number) where
  open num use {N, zero, one, of_ℕ, sub, div, le}

  pub record Scored : Type 0 where
    pub value : N
    pub label : Option Label

  pub record EvalScore : Type 0 where
    pub trace_ref : TraceRef
    pub evaluator : EvaluatorIdentity
    pub versions : VersionTuple
    pub value : N
    pub label : Option Label

  pub record CodeScorer : Type 0 where
    pub id : String
    pub rubric_hash : String
    pub score : Trajectory → Scored

  abbrev pub plain : N → Scored
  plain v = record { value = v; label = none }

  unfoldable pub task_completed : Trajectory → Scored
  task_completed t = plain (if t.completed then one else zero)

  abbrev pub failures_scored : ℕ → Scored
  failures_scored n =
      if eqb n 0 then plain one else record { value = zero; label = some (failed_steps n) }

  unfoldable pub clean_trajectory : Trajectory → Scored
  clean_trajectory t =
      if t.completed
      then failures_scored (length (filter is_failed_step t.steps))
      else record { value = zero; label = some not_completed }

  -- `Math.max(0, …)`.
  abbrev pub at_least_zero : N → N
  at_least_zero a = if le zero a then a else zero

  abbrev pub churn_scored : (retries steps : ℕ) → Scored
  churn_scored retries steps =
      if eqb steps 0
      then record { value = one; label = some no_steps }
      else plain (at_least_zero (sub one (div (of_ℕ retries) (of_ℕ steps))))

  unfoldable pub low_retry_churn : Trajectory → Scored
  low_retry_churn t =
      let steps = filter is_step t.steps in
      churn_scored (length (filter is_retry steps)) (length steps)

  unfoldable pub no_human_intervention : Trajectory → Scored
  no_human_intervention t = plain (if is_touched t.steps then zero else one)

  unfoldable pub run_code_scorer : CodeScorer → Trajectory → VersionTuple → EvalScore
  run_code_scorer s t versions = record {
    trace_ref = record { task_id = t.task_id; run_id = t.run_id };
    evaluator = record {
      id = s.id;
      kind = code_scorer;
      rubric_hash = s.rubric_hash;
      judge_model = none;
    };
    versions = versions;
    value = (s.score t).value;
    label = (s.score t).label;
  }

  -- `h = (h * 31 + c) >>> 0` over the text, whose characters are in ASCII.
  abbrev pub hash_from : ℕ → String → ℕ
  hash_from h String.[] = h
  hash_from h (String.◌∷◌ c s) = hash_from ((h * 31 + code c) % 4294967296) s

  unfoldable pub should_sample : String → N → Bool
  should_sample trace_key rate =
      if le one rate
      then true
      else if le rate zero
      then false
      else lt num (div (of_ℕ (hash_from 0 trace_key)) (of_ℕ 4294967295)) rate
