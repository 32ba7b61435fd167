-- ===== src/Experiments/Rollout/Outcomes.antt =====
-- packages/experiment-agent/src/rollout.ts: what each outcome of a guarded rollout says of the calls
-- that were made, and that there is an outcome.
use toqar.Common.{
  ℕ, zero, suc, ◌+◌, ◌≤◌, ◌≡◌, refl, inl, inr, Option, none, some, [], ◌∷◌, ltb, arith,
  Option-cases, Bool-cases,
}
use toqar.Common.Numbers.{Number}
use toqar.Experiments.Rollout.{
  RolloutPolicy, RolloutRequest, ship, revert, MonitorResult, inconclusive, concluded, stopped,
  OnHalt, rollback, freeze, Reason, still_inconclusive, guardrail_breach, verdict_revert, Outcome,
  requires_human, promoted, rolled_back, halted, Action, rollout_requires_human,
  rollout_canary_started, rollout_halted, rollout_auto_rollback, rollout_auto_promoted, Call,
  autonomy_level, set_rollout_share, recorded, monitored, History, World, Run, returns, canary,
  human, halt, roll_back, promote, settle, watch, expose, refusal, run_guarded_rollout,
}

module _ {N : Type 0} where
  -- The share that the flag provider was last told, newest call first.
  abbrev pub last_share : History N → Option N
  last_share [] = none
  last_share (set_rollout_share k s ∷ h) = some s
  last_share (_ ∷ h) = last_share h

  abbrev pub head_call : History N → Option (Call N)
  head_call [] = none
  head_call (c ∷ h) = some c

module _ (num : Number) (w : World num.N) (policy : RolloutPolicy num.N)
    (request : RolloutRequest num.N) (on_halt : OnHalt) where
  open num use {N}

  abbrev pub run : ℕ → ℕ → History N → Run N (Outcome N)
  run = run_guarded_rollout num w policy request on_halt

  abbrev pub final_share : Outcome N → Option N
  final_share (requires_human (still_inconclusive n s)) = some (canary num w policy request)
  final_share (requires_human _) = none
  final_share (promoted n) = some num.one
  final_share (rolled_back r n) = some num.zero
  final_share (halted n) = elim on_halt [
    | rollback ↦ some num.zero
    | freeze ↦ some (canary num w policy request)
  ]

  abbrev pub final_record : Outcome N → Action N
  final_record (requires_human r) = rollout_requires_human r
  final_record (promoted n) = rollout_auto_promoted n
  final_record (rolled_back r n) = rollout_auto_rollback r n
  final_record (halted n) = rollout_halted on_halt n

  -- The newest call is a monitoring pass that answered `r`.
  abbrev pub Judged : MonitorResult → History N → Type 0
  Judged r [] = ⊥
  Judged r (monitored ∷ h) = w.monitor h ≡ some r
  Judged r (_ ∷ h) = ⊥

  -- An outcome and the calls that lead to it: the last two before a promotion or a roll-back are the
  -- change of the share and the record of it, straight after the pass that calls for it.
  abbrev pub Justified : Outcome N → History N → Type 0
  Justified (promoted n) (_ ∷ _ ∷ h) = Judged (concluded ship) h
  Justified (rolled_back (guardrail_breach b) n) (_ ∷ _ ∷ h) = Judged (stopped b) h
  Justified (rolled_back verdict_revert n) (_ ∷ _ ∷ h) = Judged (concluded revert) h
  Justified (requires_human r) h = Unit
  Justified (halted n) h = Unit
  Justified _ _ = ⊥

  abbrev pub checks : Outcome N → ℕ
  checks (requires_human r) = 0
  checks (promoted n) = n
  checks (rolled_back r n) = n
  checks (halted n) = n

  pub record IsSettled (max_checks : ℕ) (o : Outcome N) (h : History N) : Type 0 where
    pub share : last_share h ≡ final_share o
    pub audited : head_call h ≡ some (recorded (final_record o))
    pub justified : Justified o h
    pub within : checks o ≤ max_checks

  abbrev AtCanary : History N → Type 0
  AtCanary h = last_share h ≡ some (canary num w policy request)

  halt-IsSettled :
      (max_checks check : ℕ) (h h' : History N) (o : Outcome N)
      → AtCanary h
      → check ≤ max_checks
      → halt num w policy request on_halt check h ≡ returns o h'
      → IsSettled max_checks o h'
  unfolding halt
  halt-IsSettled max_checks check h h' o v c e = record {
    share = ground arith;
    audited = ground arith;
    justified = ground arith;
    within = ground arith;
  }

  promote-IsSettled :
      (max_checks check : ℕ) (h h' : History N) (o : Outcome N)
      → Judged (concluded ship) h
      → check ≤ max_checks
      → promote num w policy request check h ≡ returns o h'
      → IsSettled max_checks o h'
  unfolding promote
  promote-IsSettled max_checks check h h' o v c e = ground arith

  settle-IsSettled :
      (max_checks check : ℕ) (rest : History N → Run N (Outcome N)) (r : MonitorResult)
      (h h' : History N) (o : Outcome N)
      → w.monitor h ≡ some r
      → check ≤ max_checks
      → (rest (monitored ∷ h) ≡ returns o h' → IsSettled max_checks o h')
      → settle num w policy request rest check r (monitored ∷ h) ≡ returns o h'
      → IsSettled max_checks o h'
  unfolding settle roll_back
  settle-IsSettled max_checks check rest inconclusive h h' o v c k e = k e
  settle-IsSettled max_checks check rest (concluded ship) h h' o v c k e =
      promote-IsSettled max_checks check (monitored ∷ h) h' o v c e
  settle-IsSettled max_checks check rest (concluded revert) h h' o v c k e = record {
    share = ground arith;
    audited = ground arith;
    justified = ground arith;
    within = ground arith;
  }
  settle-IsSettled max_checks check rest (stopped b) h h' o v c k e = record {
    share = ground arith;
    audited = ground arith;
    justified = ground arith;
    within = ground arith;
  }

  watch-IsSettled :
      (max_checks left check : ℕ) (h h' : History N) (o : Outcome N)
      → AtCanary h
      → check + left ≡ suc max_checks
      → watch num w policy request on_halt max_checks left check h ≡ returns o h'
      → IsSettled max_checks o h'
  unfolding watch
  watch-IsSettled max_checks zero check h h' o v c e = ground arith
  watch-IsSettled max_checks (suc left) check h h' o v c e = elim (Option-cases (w.level h)) [
    | inl failed ↦ absurd (ground arith)
    | inr (level, known) ↦ elim (Bool-cases (ltb level 3)) [
      | inl low ↦
          halt-IsSettled max_checks check (autonomy_level ∷ h) h' o v (omega arith) (ground arith)
      | inr high ↦ elim (Option-cases (w.monitor (autonomy_level ∷ h))) [
        | inl failed ↦ absurd (ground arith)
        | inr (r, judged) ↦
            settle-IsSettled max_checks check
              (watch num w policy request on_halt max_checks left (check + 1)) r
              (autonomy_level ∷ h) h' o judged (omega arith)
              (watch-IsSettled max_checks left (check + 1) (monitored ∷ autonomy_level ∷ h) h' o v
                (omega arith))
              (ground arith)
      ]
    ]
  ]

  expose-IsSettled :
      (max_checks : ℕ) (h h' : History N) (o : Outcome N)
      → expose num w policy request on_halt max_checks h ≡ returns o h'
      → IsSettled max_checks o h'
  unfolding expose
  expose-IsSettled max_checks h h' o e =
      watch-IsSettled max_checks max_checks 1
        (recorded (rollout_canary_started (canary num w policy request))
          ∷ set_rollout_share request.flag_key (canary num w policy request)
          ∷ h)
        h' o refl (omega arith) (ground arith)

  refusal-final_share :
      (level active : ℕ) (r : Reason N)
      → refusal num w policy request level active ≡ some r
      → final_share (requires_human r) ≡ none
  unfolding refusal
  refusal-final_share level active r e = ground arith

  human-IsSettled :
      (max_checks : ℕ) (r : Reason N) (h h' : History N) (o : Outcome N)
      → last_share h ≡ none
      → final_share (requires_human r) ≡ none
      → human num w policy request r h ≡ returns o h'
      → IsSettled max_checks o h'
  human-IsSettled max_checks r h h' o v g e = ground arith

  -- Started with the share untouched, a rollout that returns, whatever its collaborators answered,
  -- leaves the flag at the share that its outcome says (nothing told, the canary, zero or all); its
  -- last call is the audit record of that outcome; a promotion follows a pass that answered ship,
  -- and a roll-back one that answered the breach or revert; it names at most `max_checks` checks.
  pub run-IsSettled :
      (active max_checks : ℕ) (h h' : History N) (o : Outcome N)
      → last_share h ≡ none
      → run active max_checks h ≡ returns o h'
      → IsSettled max_checks o h'
  unfolding run_guarded_rollout
  run-IsSettled active max_checks h h' o v e = elim (Option-cases (w.level h)) [
    | inl failed ↦ absurd (ground arith)
    | inr (level, known) ↦ elim (Option-cases (refusal num w policy request level active)) [
      | inl passed ↦ expose-IsSettled max_checks (autonomy_level ∷ h) h' o (ground arith)
      | inr (r, refused) ↦
          human-IsSettled max_checks r (autonomy_level ∷ h) h' o v
            (refusal-final_share level active r refused) (ground arith)
    ]
  ]
