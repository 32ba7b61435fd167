-- ===== src/Analysis/Runs.antt =====
-- packages/analysis/src/runs.ts: `reconstructRun`. What `String` and `Number` make of a value that is
-- neither a text nor missing is a parameter; the two compiled queries are SQL text and left out.
pub mod Scoring
mod Tests
use toqar.Common.{
  ℕ, suc, ◌+◌, String, Bool, true, false, not, ◌&&◌, Option, none, some, List, [], ◌∷◌, ◌++◌, ◌==◌,
  if◌then◌else◌, length, filter, includes, map, map_get,
}
use toqar.Common.Numbers.{Number}
use toqar.Json.{Value, null, str, prop}
use toqar.Evals.Scorers.{TrajectoryStep, Trajectory}

pub data Outcome : Type 0 where
  completed failed abandoned in_flight : Outcome

pub record HumanEvent : Type 0 where
  pub event : String
  pub timestamp : String

-- The end events, and the outcome of each.
unfoldable pub end_events : List (String × Outcome)
end_events =
    ("task_completed", completed) ∷ ("task_failed", failed) ∷ ("task_abandoned", abandoned) ∷ []

abbrev pub human_events : List String
human_events = "handoff_to_human" ∷ "human_approved" ∷ "human_edited" ∷ "human_overrode" ∷ []

abbrev pub or_outcome : Outcome → Option Outcome → Outcome
or_outcome current none = current
or_outcome current (some o) = o

abbrev pub is_completed : Outcome → Bool
is_completed completed = true
is_completed o = false

abbrev pub unless_empty : String → Option String
unless_empty s = if s == "" then none else some s

module _ (num : Number) (show : Value → String) (number : Value → num.N) where
  open num use {N, zero, add}

  pub record RunStep : Type 0 where
    pub event : String
    pub timestamp : String
    pub agent_name : String
    pub tool_name : String
    pub model : String
    pub status : String
    pub latency_ms : N
    pub tokens_in : N
    pub tokens_out : N
    pub cost_usd : N
    pub retry_of_step_id : String

  pub record Totals : Type 0 where
    pub steps : ℕ
    pub errors : ℕ
    pub retries : ℕ
    pub tokens : N
    pub cost_usd : N

  pub record ReconstructedRun : Type 0 where
    pub task_id : String
    pub run_id : String
    pub task_type : String
    pub session_id : Option String
    pub agents : List String
    pub outcome : Outcome
    pub steps : List RunStep
    pub human : List HumanEvent
    pub totals : Totals
    pub trajectory : Trajectory

  -- `typeof v === 'string' ? v : String(v ?? '')`.
  abbrev pub text_of : Option Value → String
  text_of none = ""
  text_of (some null) = ""
  text_of (some (str s)) = s
  text_of (some v) = show v

  abbrev pub text_at : String → Value → String
  text_at key row = text_of (prop key row)

  -- Zero where `Number(v)` is not finite; `Number(undefined)` is not.
  abbrev pub number_of : Option Value → N
  number_of none = zero
  number_of (some v) = number v

  abbrev pub number_at : String → Value → N
  number_at key row = number_of (prop key row)

  abbrev pub step_of : Value → RunStep
  step_of row = record {
    event = "step_executed";
    timestamp = text_at "timestamp" row;
    agent_name = text_at "agent_name" row;
    tool_name = text_at "tool_name" row;
    model = text_at "model" row;
    status = text_at "status" row;
    latency_ms = number_at "latency_ms" row;
    tokens_in = number_at "tokens_in" row;
    tokens_out = number_at "tokens_out" row;
    cost_usd = number_at "cost_usd" row;
    retry_of_step_id = text_at "retry_of_step_id" row;
  }

  abbrev pub is_step_row : Value → Bool
  is_step_row row = text_at "event" row == "step_executed"

  unfoldable pub steps_of : List Value → List RunStep
  steps_of rows = map step_of (filter is_step_row rows)

  -- The agents so far, and those that the rest of the rows names first.
  unfoldable pub agents_from : List String → List Value → List String
  agents_from agents [] = agents
  agents_from agents (row ∷ rows) =
      let a = text_at "agent_name" row in
      agents_from (if not (a == "") && not (includes agents a) then agents ++ a ∷ [] else agents)
        rows

  unfoldable pub outcome_from : Outcome → List Value → Outcome
  outcome_from current [] = current
  outcome_from current (row ∷ rows) =
      outcome_from (or_outcome current (map_get end_events (text_at "event" row))) rows

  -- The first session that is not empty.
  unfoldable pub session_of : List Value → Option String
  session_of [] = none
  session_of (row ∷ rows) =
      if text_at "session_id" row == "" then session_of rows else some (text_at "session_id" row)

  abbrev pub is_human_row : Value → Bool
  is_human_row row = includes human_events (text_at "event" row)

  abbrev pub human_event_of : Value → HumanEvent
  human_event_of row = record { event = text_at "event" row; timestamp = text_at "timestamp" row }

  abbrev pub is_error : RunStep → Bool
  is_error s = not (s.status == "") && not (s.status == "ok")

  abbrev pub is_retried : RunStep → Bool
  is_retried s = not (s.retry_of_step_id == "")

  unfoldable pub tokens_from : N → List RunStep → N
  tokens_from n [] = n
  tokens_from n (s ∷ steps) = tokens_from (add (add n s.tokens_in) s.tokens_out) steps

  unfoldable pub cost_from : N → List Value → N
  cost_from n [] = n
  cost_from n (row ∷ rows) = cost_from (add n (number_at "cost_usd" row)) rows

  abbrev pub trajectory_step : Value → TrajectoryStep
  trajectory_step row = record {
    event = text_at "event" row;
    tool_name = unless_empty (text_at "tool_name" row);
    status = unless_empty (text_at "status" row);
    retry_of_step_id = unless_empty (text_at "retry_of_step_id" row);
  }

  abbrev pub first_task_type : List Value → String
  first_task_type [] = ""
  first_task_type (row ∷ rows) = text_at "task_type" row

  unfoldable pub reconstruct_run : (task_id run_id : String) → List Value → ReconstructedRun
  reconstruct_run task_id run_id rows = record {
    task_id = task_id;
    run_id = run_id;
    task_type = first_task_type rows;
    session_id = session_of rows;
    agents = agents_from [] rows;
    outcome = outcome_from in_flight rows;
    steps = steps_of rows;
    human = map human_event_of (filter is_human_row rows);
    totals = record {
      steps = length (steps_of rows);
      errors = length (filter is_error (steps_of rows));
      retries = length (filter is_retried (steps_of rows));
      tokens = tokens_from zero (steps_of rows);
      cost_usd = cost_from zero rows;
    };
    trajectory = record {
      task_id = task_id;
      run_id = run_id;
      completed = is_completed (outcome_from in_flight rows);
      steps = map trajectory_step rows;
    };
  }
