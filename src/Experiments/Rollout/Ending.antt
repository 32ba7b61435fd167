-- ===== src/Experiments/Rollout/Ending.antt =====
-- packages/experiment-agent/src/rollout.ts: a guarded rollout monitors within its check budget.
use toqar.Common.{ℕ, zero, suc, ◌+◌, ◌≤◌, [], ◌∷◌, arith}
use toqar.Common.Numbers.{Number}
use toqar.Experiments.Rollout.{
  RolloutPolicy, RolloutRequest, OnHalt, rollout_canary_started, autonomy_level, set_rollout_share,
  recorded, monitored, History, World, canary, halt, roll_back, promote, settle, watch, expose,
  run_guarded_rollout,
}
use toqar.Experiments.Rollout.Exposure.{history}

module _ {N : Type 0} where
  abbrev pub passes : History N → ℕ
  passes [] = 0
  passes (monitored ∷ h) = suc (passes h)
  passes (_ ∷ h) = passes h

module _ (num : Number) (w : World num.N) (policy : RolloutPolicy num.N)
    (request : RolloutRequest num.N) (on_halt : OnHalt) where
  open num use {N}

  passes-watch :
      (max_checks left check : ℕ) (h : History N)
      → passes (history (watch num w policy request on_halt max_checks left check h))
        ≤ passes h + left
  unfolding watch halt settle promote roll_back
  passes-watch max_checks zero check h = ground arith
  passes-watch max_checks (suc left) check h =
      ground (arith, passes-watch max_checks left (check + 1) (monitored ∷ autonomy_level ∷ h))

  passes-expose :
      (max_checks : ℕ) (h : History N)
      → passes (history (expose num w policy request on_halt max_checks h)) ≤ passes h + max_checks
  unfolding expose
  passes-expose max_checks h = ground (
    arith,
    passes-watch max_checks max_checks 1 (
        recorded (rollout_canary_started (canary num w policy request))
        ∷ set_rollout_share request.flag_key (canary num w policy request)
        ∷ h),
  )

  -- A run makes at most `max_checks` monitoring passes, whatever the collaborators answer.
  pub passes-run :
      (active max_checks : ℕ) (h : History N)
      → passes (history (run_guarded_rollout num w policy request on_halt active max_checks h))
        ≤ passes h + max_checks
  unfolding run_guarded_rollout
  passes-run active max_checks h = ground (arith, passes-expose max_checks (autonomy_level ∷ h))
