-- ===== src/Experiments/Rollout.antt =====
-- packages/experiment-agent/src/rollout.ts: `runGuardedRollout`.
-- Its collaborators (the grant store, the flag provider, the audit log, the monitor) are the world:
-- what a call answers is any function of the calls made before it, and any call may fail.
pub mod Exposure
pub mod Outcomes
pub mod Ending
mod Tests
use toqar.Common.{
  ℕ, zero, suc, ◌+◌, String, Bool, true, false, Option, none, some, List, [], ◌∷◌, if◌then◌else◌,
  leb, ltb, includes, not,
}
use toqar.Common.Numbers.{Number, least}

pub record RolloutPolicy (N : Type 0) : Type 0 where
  pub change_classes : List String
  pub max_traffic_share : N
  pub protected_task_types : List String
  pub max_concurrent : ℕ

pub record RolloutRequest (N : Type 0) : Type 0 where
  pub experiment_id : String
  pub flag_key : String
  pub change_class : String
  pub task_type : String
  pub canary_share : N

pub data Decision : Type 0 where
  ship revert : Decision

pub data MonitorResult : Type 0 where
  inconclusive : MonitorResult
  concluded : Decision → MonitorResult
  stopped : (breached : List String) → MonitorResult

pub data OnHalt : Type 0 where
  rollback freeze : OnHalt

-- The texts of the reasons, each with what is put into it.
pub data Reason (N : Type 0) : Type 0 where
  level_below_3 : Reason N
  class_not_declared task_protected : String → Reason N
  max_concurrent_reached : ℕ → Reason N
  still_inconclusive : ℕ → N → Reason N
  guardrail_breach : List String → Reason N
  verdict_revert : Reason N

pub data Outcome (N : Type 0) : Type 0 where
  requires_human : Reason N → Outcome N
  promoted : (checks : ℕ) → Outcome N
  rolled_back : Reason N → (checks : ℕ) → Outcome N
  halted : (checks : ℕ) → Outcome N

-- The audit records, without the copy of the request that each carries.
pub data Action (N : Type 0) : Type 0 where
  rollout_requires_human : Reason N → Action N
  rollout_canary_started : (canary_share : N) → Action N
  rollout_halted : OnHalt → (checks : ℕ) → Action N
  rollout_auto_rollback : Reason N → (checks : ℕ) → Action N
  rollout_auto_promoted : (checks : ℕ) → Action N

pub data Call (N : Type 0) : Type 0 where
  autonomy_level : Call N
  set_rollout_share : String → N → Call N
  recorded : Action N → Call N
  monitored : Call N

-- The calls so far, the newest first.
abbrev pub History : Type 0 → Type 0
History N = List (Call N)

-- `none` and `false` are a rejected promise.
pub record World (N : Type 0) : Type 0 where
  pub level : History N → Option ℕ
  pub monitor : History N → Option MonitorResult
  pub accepts : Call N → History N → Bool

pub data Run (N A : Type 0) : Type 0 where
  returns : A → History N → Run N A
  throws : History N → Run N A

module _ {N : Type 0} where
  infixl 5 ◌>>=◌ ◌>>◌
  abbrev pub ◌>>=◌ :
      {A B : Type 0} → (History N → Run N A) → (A → History N → Run N B) → History N → Run N B
  ◌>>=◌ m f h = elim (m h) [ returns a h' ↦ f a h' | throws h' ↦ throws h' ]

  abbrev pub ◌>>◌ :
      {B : Type 0} → (History N → Run N (Unit {0})) → (History N → Run N B) → History N → Run N B
  m >> k = m >>= λ _. k

  abbrev pub answer : {A : Type 0} → Option A → History N → Run N A
  answer none h = throws h
  answer (some a) h = returns a h

  abbrev pub pure : {A : Type 0} → A → History N → Run N A
  pure a h = returns a h

module _ (num : Number) (w : World num.N) where
  open num use {N, le}

  abbrev pub ask_level : History N → Run N ℕ
  ask_level h = answer (w.level h) (autonomy_level ∷ h)

  abbrev pub run_monitor : History N → Run N MonitorResult
  run_monitor h = answer (w.monitor h) (monitored ∷ h)

  abbrev pub tell : Call N → History N → Run N (Unit {0})
  tell c h = elim (w.accepts c h) [ true ↦ returns tt (c ∷ h) | false ↦ throws (c ∷ h) ]

  module _ (policy : RolloutPolicy N) (request : RolloutRequest N) where
    abbrev pub canary : N
    canary = least num request.canary_share policy.max_traffic_share

    abbrev pub share : N → History N → Run N (Unit {0})
    share s = tell (set_rollout_share request.flag_key s)

    abbrev pub human : Reason N → History N → Run N (Outcome N)
    human reason = do tell (recorded (rollout_requires_human reason)); pure (requires_human reason)

    pub roll_back : Reason N → ℕ → History N → Run N (Outcome N)
    roll_back reason check = do
      share num.zero
      tell (recorded (rollout_auto_rollback reason check))
      pure (rolled_back reason check)

    pub promote : ℕ → History N → Run N (Outcome N)
    promote check = do
      share num.one
      tell (recorded (rollout_auto_promoted check))
      pure (promoted check)

    -- What one monitoring pass leads to; `rest` is the rest of the loop.
    pub settle : (History N → Run N (Outcome N)) → ℕ → MonitorResult → History N → Run N (Outcome N)
    settle rest check (stopped breached) = roll_back (guardrail_breach breached) check
    settle rest check (concluded ship) = promote check
    settle rest check (concluded revert) = roll_back verdict_revert check
    settle rest check inconclusive = rest

    -- The checks before any exposure: why the rollout is left to a human, if it is.
    pub refusal : (level active : ℕ) → Option (Reason N)
    refusal level active =
        if ltb level 3
        then some level_below_3
        else if not (includes policy.change_classes request.change_class)
        then some (class_not_declared request.change_class)
        else if includes policy.protected_task_types request.task_type
        then some (task_protected request.task_type)
        else if leb policy.max_concurrent active
        then some (max_concurrent_reached policy.max_concurrent)
        else none

    module _ (on_halt : OnHalt) where
      -- The branch of a revoked grant.
      pub halt : ℕ → History N → Run N (Outcome N)
      halt check = elim on_halt [
        | rollback ↦ do
          share num.zero
          tell (recorded (rollout_halted rollback check))
          pure (halted check)
        | freeze ↦ do tell (recorded (rollout_halted freeze check)); pure (halted check)
      ]

      -- The loop, with the checks that are left and the number of the next one.
      pub watch : ℕ → ℕ → ℕ → History N → Run N (Outcome N)
      watch max_checks zero check = human (still_inconclusive max_checks canary)
      watch max_checks (suc left) check = do
        level ← ask_level
        elim (ltb level 3) [
          | true ↦ halt check
          | false ↦ do result ← run_monitor; settle (watch max_checks left (check + 1)) check result
        ]

      pub expose : ℕ → History N → Run N (Outcome N)
      expose max_checks = do
        share canary
        tell (recorded (rollout_canary_started canary))
        watch max_checks max_checks 1

      pub run_guarded_rollout : ℕ → ℕ → History N → Run N (Outcome N)
      unfolding refusal
      run_guarded_rollout active max_checks = do
        level ← ask_level
        elim (refusal level active) [ some reason ↦ human reason | none ↦ expose max_checks ]
