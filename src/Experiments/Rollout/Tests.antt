-- ===== src/Experiments/Rollout/Tests.antt =====
-- Runs of the guarded rollout, and its theorems at concrete inputs. Shares are in thousandths.
use toqar.Common.{ℕ, ◌≡◌, refl, String, true, Option, none, some, [], ◌∷◌, ltb, if◌then◌else◌}
use toqar.Common.Numbers.{thousandths}
use toqar.Experiments.Rollout.{
  RolloutPolicy, RolloutRequest, ship, revert, MonitorResult, inconclusive, concluded, stopped,
  rollback, Reason, task_protected, still_inconclusive, guardrail_breach, Outcome, requires_human,
  promoted, rolled_back, halted, History, World, Run, returns, throws, run_guarded_rollout, expose,
  watch, settle, promote, roll_back, halt,
}
use toqar.Experiments.Rollout.Exposure.{
  history, IsLawful, run-IsLawful, IsPermitted, run-IsPermitted,
}
use toqar.Experiments.Rollout.Outcomes.{IsSettled, run-IsSettled}
use toqar.Experiments.Rollout.Ending.{passes}

abbrev policy : RolloutPolicy ℕ
policy = record {
  change_classes = "flag_rollout" ∷ "prompt_variant" ∷ [];
  max_traffic_share = 100;
  protected_task_types = "payments" ∷ [];
  max_concurrent = 2;
}

abbrev request : String → RolloutRequest ℕ
request task_type = record {
  experiment_id = "exp_1";
  flag_key = "flag";
  change_class = "flag_rollout";
  task_type = task_type;
  canary_share = 250;
}

-- The second monitoring pass answers `last`, the others are inconclusive.
abbrev answers : MonitorResult → History ℕ → Option MonitorResult
answers last h = some (if ltb (passes h) 1 then inconclusive else last)

abbrev granting : MonitorResult → World ℕ
granting last = record { level = λ h. some 3; monitor = answers last; accepts = λ c h. true }

-- The grant is withdrawn after the first pass.
abbrev revoking : World ℕ
revoking = record {
  level = λ h. if ltb (passes h) 1 then some 3 else some 2;
  monitor = answers inconclusive;
  accepts = λ c h. true;
}

abbrev outcome : Run ℕ (Outcome ℕ) → Option (Outcome ℕ)
outcome (returns o h) = some o
outcome (throws h) = none

abbrev try : World ℕ → String → ℕ → Run ℕ (Outcome ℕ)
try w task_type active =
    run_guarded_rollout thousandths w policy (request task_type) rollback active 5 []

outcome_tests :
    (outcome (try (granting (concluded ship)) "triage" 0) ≡ some (promoted 2))
    × (outcome (try (granting (concluded revert)) "triage" 0)
        ≡ some (rolled_back Reason.verdict_revert 2))
    × (outcome (try (granting (stopped ("override_rate" ∷ []))) "triage" 1)
        ≡ some (rolled_back (guardrail_breach ("override_rate" ∷ [])) 2))
    × (outcome (try revoking "triage" 0) ≡ some (halted 2))
    × (outcome (try (granting inconclusive) "triage" 0)
        ≡ some (requires_human (still_inconclusive 5 100)))
    × (outcome (try (granting (concluded ship)) "payments" 0)
        ≡ some (requires_human (task_protected "payments")))
    × (outcome (try (granting (concluded ship)) "triage" 2)
        ≡ some (requires_human (Reason.max_concurrent_reached 2)))
unfolding run_guarded_rollout expose watch settle promote roll_back halt
outcome_tests = (refl, refl, refl, refl, refl, refl, refl)

abbrev winning : World ℕ
winning = granting (concluded ship)

run-IsLawful_example :
    IsLawful thousandths winning policy (request "triage") (history (try winning "triage" 0))
run-IsLawful_example =
    run-IsLawful thousandths winning policy (request "triage") rollback 0 5 [] (tt {0})

run-IsPermitted_example : IsPermitted thousandths winning policy (request "triage") 0 []
unfolding run_guarded_rollout expose watch settle promote roll_back halt
run-IsPermitted_example =
    run-IsPermitted thousandths winning policy (request "triage") rollback 0 5 [] refl refl

run-IsSettled_example :
    IsSettled thousandths winning policy
      (request "triage")
      rollback
      5
      (promoted 2)
      (history (try winning "triage" 0))
unfolding run_guarded_rollout expose watch settle promote roll_back halt
run-IsSettled_example =
    run-IsSettled thousandths winning policy (request "triage") rollback 0 5 [] _ (promoted 2) refl
      refl
