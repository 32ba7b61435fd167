-- ===== src/Analysis/Runs/Tests.antt =====
-- A reconstructed run at concrete inputs, in thousandths.
use toqar.Common.{ℕ, ◌≡◌, refl, String, none, some, List, [], ◌∷◌, ◌*◌, if◌then◌else◌, map_get}
use toqar.Common.Numbers.{thousandths}
use toqar.Json.{Value, null, num, str, obj, Fields, end, field}
use toqar.Evals.Scorers.{
  failures_scored, churn_scored, not_completed, clean_trajectory, low_retry_churn,
}
use toqar.Analysis.Runs.{
  completed, is_completed, end_events, steps_of, agents_from, outcome_from, session_of, tokens_from,
  cost_from, reconstruct_run,
}
use toqar.Analysis.Runs.Scoring.{run_of, scores-run_of}

abbrev show : Value → String
show v = "?"

abbrev number : Value → ℕ
number (num n) = n * 1000
number v = 0

abbrev row : String → Fields → Value
row event more = obj (field "event" (str event) more)

abbrev rows : List Value
rows =
    row "task_started" (field "task_type" (str "reply") end)
    ∷ row "step_executed" (
        field "agent_name" (str "sdr")
          (field "status" (str "error") (field "tokens_in" (num 3) (field "cost_usd" (num 1) end))))
    ∷ row "step_executed" (
        field "agent_name" (str "helper") (
          field "status" (str "ok")
            (field "retry_of_step_id" (str "s1") (field "session_id" null end))))
    ∷ row "task_completed" (field "cost_usd" (num 2) end)
    ∷ []

run_tests :
    ((run_of thousandths show number "k" "r" rows).outcome ≡ completed)
    × ((run_of thousandths show number "k" "r" rows).agents ≡ "sdr" ∷ "helper" ∷ [])
    × ((run_of thousandths show number "k" "r" rows).session_id ≡ none)
    × ((run_of thousandths show number "k" "r" rows).totals
        ≡ record { steps = 2; errors = 1; retries = 1; tokens = 3000; cost_usd = 3000 })
unfolding reconstruct_run outcome_from end_events agents_from session_of steps_of tokens_from
    cost_from map_get
run_tests = (refl, refl, refl, refl)

scores-run_of_example :
    (clean_trajectory thousandths (run_of thousandths show number "k" "r" rows).trajectory ≡ (
      if is_completed (run_of thousandths show number "k" "r" rows).outcome
      then failures_scored thousandths (run_of thousandths show number "k" "r" rows).totals.errors
      else record { value = 0; label = some not_completed }))
    × (low_retry_churn thousandths (run_of thousandths show number "k" "r" rows).trajectory
        ≡ churn_scored thousandths
            (run_of thousandths show number "k" "r" rows).totals.retries
            (run_of thousandths show number "k" "r" rows).totals.steps)
scores-run_of_example = scores-run_of thousandths show number "k" "r" rows
