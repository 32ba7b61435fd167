-- ===== src/Experiments/Rollout/Exposure.antt =====
-- packages/experiment-agent/src/rollout.ts: what the loop may do to the traffic share, and when.
use toqar.Common.{
  ℕ, zero, suc, ◌+◌, ◌≤◌, ◌<◌, ◌≡◌, ◌⊎◌, inl, inr, Bool, true, false, none, some, [], ◌∷◌, includes,
  arith, Option-cases,
}
use toqar.Common.Numbers.{Number, least-le_right}
use toqar.Experiments.Rollout.{
  RolloutPolicy, RolloutRequest, ship, concluded, OnHalt, rollout_canary_started, Reason,
  autonomy_level, set_rollout_share, recorded, monitored, History, World, Run, returns, throws,
  canary, human, halt, roll_back, promote, settle, watch, expose, refusal, run_guarded_rollout,
}

abbrev pub history : {N : Type 0} {A : Type 0} → Run N A → History N
history (returns a h) = h
history (throws h) = h

module _ (num : Number) (w : World num.N) (policy : RolloutPolicy num.N)
    (request : RolloutRequest num.N) where
  open num use {N, le}

  -- The newest call read the grant, and it was at least 3.
  abbrev pub Granted : History N → Type 0
  Granted [] = ⊥
  Granted (autonomy_level ∷ h) = (n : ℕ) × (w.level h ≡ some n) × (3 ≤ n)
  Granted (_ ∷ h) = ⊥

  -- The newest call is a monitoring pass that answered `ship`.
  abbrev pub Approved : History N → Type 0
  Approved [] = ⊥
  Approved (monitored ∷ h) = w.monitor h ≡ some (concluded ship)
  Approved (_ ∷ h) = ⊥

  -- Each monitoring pass comes straight after a read of the grant that allowed it. Each change of
  -- the share is to the request's flag, and is within the policy's cap, or zero, or everything
  -- straight after a pass that answered `ship`.
  abbrev pub IsLawful : History N → Type 0
  IsLawful [] = Unit
  IsLawful (set_rollout_share k s ∷ h) =
      (k ≡ request.flag_key)
      × ((le s policy.max_traffic_share ≡ true) ⊎ ((s ≡ num.zero) ⊎ ((s ≡ num.one) × Approved h)))
      × IsLawful h
  IsLawful (monitored ∷ h) = Granted h × IsLawful h
  IsLawful (_ ∷ h) = IsLawful h

  module _ (on_halt : OnHalt) where
    watch-IsLawful :
        (max_checks left check : ℕ) (h : History N)
        → IsLawful h
        → IsLawful (history (watch num w policy request on_halt max_checks left check h))
    unfolding watch halt settle promote roll_back
    watch-IsLawful max_checks zero check h v = ground arith
    watch-IsLawful max_checks (suc left) check h v =
        ground (arith, watch-IsLawful max_checks left (check + 1) (monitored ∷ autonomy_level ∷ h))

    expose-IsLawful :
        (max_checks : ℕ) (h : History N)
        → IsLawful h
        → IsLawful (history (expose num w policy request on_halt max_checks h))
    unfolding expose
    expose-IsLawful max_checks h v = ground (
      arith,
      least-le_right num request.canary_share policy.max_traffic_share,
      watch-IsLawful max_checks max_checks 1 (
          recorded (rollout_canary_started (canary num w policy request))
          ∷ set_rollout_share request.flag_key (canary num w policy request)
          ∷ h),
    )

    -- Whatever the collaborators answer and whichever call fails: every monitoring pass comes straight
    -- after a read of the grant at level 3 or above, and every change of the share is of the request's
    -- flag and within the policy's cap, zero, or everything straight after a pass that answered ship.
    pub run-IsLawful :
        (active max_checks : ℕ) (h : History N)
        → IsLawful h
        → IsLawful (history (run_guarded_rollout num w policy request on_halt active max_checks h))
    unfolding run_guarded_rollout
    run-IsLawful active max_checks h v =
        ground (arith, expose-IsLawful max_checks (autonomy_level ∷ h))

  -- No call has touched the share.
  abbrev pub is_unexposed : History N → Bool
  is_unexposed [] = true
  is_unexposed (set_rollout_share k s ∷ h) = false
  is_unexposed (_ ∷ h) = is_unexposed h

  -- The gates that are checked before any exposure.
  pub record IsPermitted (active : ℕ) (h : History N) : Type 0 where
    pub granted : Granted (autonomy_level ∷ h)
    pub declared : includes policy.change_classes request.change_class ≡ true
    pub unprotected : includes policy.protected_task_types request.task_type ≡ false
    pub below_limit : active < policy.max_concurrent

  module _ (on_halt : OnHalt) where
    refusal-none :
        (level active : ℕ)
        → refusal num w policy request level active ≡ none
        → (3 ≤ level)
          × (includes policy.change_classes request.change_class ≡ true)
          × (includes policy.protected_task_types request.task_type ≡ false)
          × (active < policy.max_concurrent)
    unfolding refusal
    refusal-none level active e = ground arith

    human_unexposed :
        (reason : Reason N) (h : History N)
        → is_unexposed h ≡ true
        → is_unexposed (history (human num w policy request reason h)) ≡ true
    human_unexposed reason h v = ground arith

    -- If a run touched the share at all, then the grant was at level 3 or above, the change class is
    -- declared, the task type is not protected, and fewer rollouts than the limit are active.
    pub run-IsPermitted :
        (active max_checks : ℕ) (h : History N)
        → is_unexposed h ≡ true
        → is_unexposed
            (history (run_guarded_rollout num w policy request on_halt active max_checks h))
          ≡ false
        → IsPermitted active h
    unfolding run_guarded_rollout
    run-IsPermitted active max_checks h v e = elim (Option-cases (w.level h)) [
      | inl failed ↦ absurd (ground arith)
      | inr (n, known) ↦ elim (Option-cases (refusal num w policy request n active)) [
        | inl passed ↦
            let (high, declared, free, room) = refusal-none n active passed in
            record {
              granted = (n, known, high);
              declared = declared;
              unprotected = free;
              below_limit = room;
            }
        | inr (reason, refused) ↦
            absurd (ground (arith, human_unexposed reason (autonomy_level ∷ h)))
      ]
    ]
