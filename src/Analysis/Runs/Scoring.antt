-- ===== src/Analysis/Runs/Scoring.antt =====
-- packages/analysis/src/runs.ts with packages/evals/src/scorers.ts: the scorers read a reconstructed run
-- by its trajectory, the explorer shows its outcome and totals.
use toqar.Common.{
  suc, ◌≡◌, refl, ap, String, not, ◌&&◌, some, List, [], ◌∷◌, ◌==◌, if◌then◌else◌, length, filter,
  map, Bool-cases, inl, inr,
}
use toqar.Common.Numbers.{Number}
use toqar.Json.{Value}
use toqar.Evals.Scorers.{
  is_given, has_failed, is_step, is_failed_step, is_retry, failures_scored, churn_scored,
  not_completed, clean_trajectory, low_retry_churn,
}
use toqar.Analysis.Runs.{
  is_completed, unless_empty, ReconstructedRun, step_of, is_step_row, steps_of, is_error,
  is_retried, trajectory_step, reconstruct_run, text_at,
}

has_failed-unless_empty :
    (s : String) → has_failed (unless_empty s) ≡ (not (s == "") && not (s == "ok"))
has_failed-unless_empty s = elim (Bool-cases (s == "")) [
  | inl empty ↦ rw empty refl
  | inr given ↦ rw given (rw given refl)
]

is_given-unless_empty : (s : String) → is_given (unless_empty s) ≡ not (s == "")
is_given-unless_empty s = elim (Bool-cases (s == "")) [
  | inl empty ↦ rw empty refl
  | inr given ↦ rw given (rw given refl)
]

module _ (num : Number) (show : Value → String) (number : Value → num.N) where
  length-failed :
      (rows : List Value)
      → length (filter is_failed_step (map (trajectory_step num show number) rows))
        ≡ length (filter (is_error num show number) (steps_of num show number rows))
  unfolding steps_of
  length-failed [] = refl
  length-failed (row ∷ rows) = elim (Bool-cases (is_step_row num show number row)) [
    | inr other ↦ rw other (length-failed rows)
    | inl here ↦ rw here (
        rw (has_failed-unless_empty (text_at num show number "status" row))
          (elim (Bool-cases (is_error num show number (step_of num show number row))) [
            | inl error ↦ rw error (ap suc (length-failed rows))
            | inr fine ↦ rw fine (length-failed rows)
          ]))
  ]

  length-steps :
      (rows : List Value)
      → length (filter is_step (map (trajectory_step num show number) rows))
        ≡ length (steps_of num show number rows)
  unfolding steps_of
  length-steps [] = refl
  length-steps (row ∷ rows) = elim (Bool-cases (is_step_row num show number row)) [
    | inr other ↦ rw other (length-steps rows)
    | inl here ↦ rw here (ap suc (length-steps rows))
  ]

  length-retries :
      (rows : List Value)
      → length (filter is_retry (filter is_step (map (trajectory_step num show number) rows)))
        ≡ length (filter (is_retried num show number) (steps_of num show number rows))
  unfolding steps_of
  length-retries [] = refl
  length-retries (row ∷ rows) = elim (Bool-cases (is_step_row num show number row)) [
    | inr other ↦ rw other (length-retries rows)
    | inl here ↦ rw here (
        rw (is_given-unless_empty (text_at num show number "retry_of_step_id" row))
          (elim (Bool-cases (is_retried num show number (step_of num show number row))) [
            | inl again ↦ rw again (ap suc (length-retries rows))
            | inr new ↦ rw new (length-retries rows)
          ]))
  ]

  abbrev pub run_of : (task_id run_id : String) → List Value → ReconstructedRun num show number
  run_of = reconstruct_run num show number

  -- The scorers and the explorer agree on every run. A reconstructed run is scored clean just if its
  -- outcome is `completed` and its total of errors is zero, with that total in the label where there are
  -- errors; and its retry churn is that of its totals of retries and steps.
  pub scores-run_of :
      (task_id run_id : String) (rows : List Value)
      → (clean_trajectory num (run_of task_id run_id rows).trajectory ≡ (
          if is_completed (run_of task_id run_id rows).outcome
          then failures_scored num (run_of task_id run_id rows).totals.errors
          else record { value = num.zero; label = some not_completed }))
        × (low_retry_churn num (run_of task_id run_id rows).trajectory
            ≡ churn_scored num
                (run_of task_id run_id rows).totals.retries
                (run_of task_id run_id rows).totals.steps)
  unfolding clean_trajectory low_retry_churn reconstruct_run
  scores-run_of task_id run_id rows =
      (rw (length-failed rows) refl, rw (length-retries rows) (rw (length-steps rows) refl))
