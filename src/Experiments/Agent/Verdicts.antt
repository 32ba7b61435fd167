-- ===== src/Experiments/Agent/Verdicts.antt =====
-- packages/experiment-agent/src/agent.ts: when `monitorExperiment` reaches a verdict, which, and what it
-- has written by then.
use toqar.Common.{
  ◌≡◌, ◌≢◌, refl, sym, ◌⊎◌, inl, inr, String, Option, none, some, List, [], ◌∷◌, ◌++◌, map, map_get,
  Bool-cases, All,
}
use mathlib.Core.Path.{subst}
use toqar.Experiments.Sequential.{Floats, Decision, inconclusive, ship, revert, Evaluation}
use toqar.Experiments.Trial.{
  Status, stopped, concluded, Severity, MonitorResult, undecided, decided, breached_by,
  FindingMetric, Finding, ArmObservations, GuardrailOutcome, Verdict, MonitorOptions, Call, updated,
  wrote_verdict, published, World, Run, returns, throws,
}
use toqar.Experiments.Agent.{
  or_default, run_sequence, target_decision, guardrail_outcomes, breached_metrics, effect_metric,
  build_experiment_finding, verdict_of, close, conclude, settle, monitor_experiment,
}
use toqar.Experiments.Agent.Decisions.{
  Shows, Straddles, Decides, target_decision-Decides, IsSampled, Shows-IsSampled,
}

module _ (floats : Floats) where
  open floats use {num}
  open num use {N}

  module _ (to_fixed : N → String) (opts : MonitorOptions floats) where
    abbrev pub target_of : Evaluation floats
    target_of = run_sequence floats opts.target

    abbrev pub breached_of : List String
    breached_of =
        breached_metrics floats to_fixed opts
          (guardrail_outcomes floats to_fixed opts opts.guardrails)

    -- A query that the caller named.
    abbrev pub Known : String → Type 0
    Known q =
        (q ≡ opts.target_query)
        ⊎ ((metric : String) × (map_get opts.guardrail_queries metric ≡ some q))

    or_default-Known :
        (metric : String) (o : Option String)
        → map_get opts.guardrail_queries metric ≡ o
        → Known (or_default opts.target_query o)
    or_default-Known metric none e = inl refl
    or_default-Known metric (some q) e = inr (metric, e)

    abbrev IsCited : GuardrailOutcome floats → Type 0
    IsCited g = Known g.query_id

    guardrail_outcomes-IsCited :
        (rest : List (String × ArmObservations floats))
        → All IsCited (guardrail_outcomes floats to_fixed opts rest)
    unfolding guardrail_outcomes
    guardrail_outcomes-IsCited [] = tt
    guardrail_outcomes-IsCited ((metric, obs) ∷ rest) = (
      or_default-Known metric (map_get opts.guardrail_queries metric) refl,
      guardrail_outcomes-IsCited rest,
    )

    abbrev pub Cites : FindingMetric → Type 0
    Cites m = Known m.query_id

    effect_metrics-Cites :
        (gs : List (GuardrailOutcome floats))
        → All IsCited gs
        → All Cites (
            map
              (λ (g : GuardrailOutcome floats).
                effect_metric floats to_fixed opts g.metric g.effect g.query_id)
              gs)
    effect_metrics-Cites [] c = tt
    effect_metrics-Cites (g ∷ gs) (p, c) = (p, effect_metrics-Cites gs c)

    -- The three writes of a verdict, as far as they got, the newest first.
    abbrev pub Writes :
        Verdict floats
        → Status
        → Finding
        → MonitorResult
        → List (Call floats)
        → Run floats MonitorResult
        → Type 0
    Writes v status f result h (returns r h') =
        (r ≡ result)
        × (h'
            ≡ published f
              ∷ updated opts.experiment_id status none
              ∷ wrote_verdict opts.experiment_id v
              ∷ h)
    Writes v status f result h (throws h') =
        (later : List (Call floats)) × (h' ≡ later ++ wrote_verdict opts.experiment_id v ∷ h)

    -- A verdict that is written with a finding whose numbers all cite a query that the caller named.
    pub record Closes (d : Decision) (status : Status) (result : MonitorResult)
        (h : List (Call floats)) (run : Run floats MonitorResult) : Type 0 where
      pub verdict : Verdict floats
      pub finding : Finding
      pub decision : verdict.decision ≡ d
      pub interval : verdict.interval ≡ target_of.interval
      pub cited : All Cites finding.metrics
      pub writes : Writes verdict status finding result h run

    module _ (world : World floats) where
      close-Writes :
          (v : Verdict floats) (status : Status) (f : Finding) (result : MonitorResult)
          (h : List (Call floats))
          → Writes v status f result h (close floats to_fixed opts world v status f result h)
      close-Writes v status f result h =
          elim (Bool-cases (world.accepts (wrote_verdict opts.experiment_id v))) [
            | inr a ↦ rw a ([], refl)
            | inl a ↦
                rw a (elim (Bool-cases (world.accepts (updated opts.experiment_id status none))) [
                  | inr b ↦ rw b (updated opts.experiment_id status none ∷ [], refl)
                  | inl b ↦ rw b (elim (Bool-cases (world.accepts (published f))) [
                    | inr c ↦ rw c (published f ∷ updated opts.experiment_id status none ∷ [], refl)
                    | inl c ↦ rw c (refl, refl)
                  ])
                ])
          ]

      finding-Cites :
          (d : Decision) (severity : Severity) (ms : List String)
          → All Cites
              (build_experiment_finding floats to_fixed opts d severity target_of
                (guardrail_outcomes floats to_fixed opts opts.guardrails)
                ms).metrics
      unfolding build_experiment_finding
      finding-Cites d severity ms = (
        inl refl,
        effect_metrics-Cites (guardrail_outcomes floats to_fixed opts opts.guardrails)
            (guardrail_outcomes-IsCited opts.guardrails),
      )

      close-Closes :
          (d : Decision) (status : Status) (severity : Severity) (ms : List String)
          (queries : List (Option String)) (result : MonitorResult) (h : List (Call floats))
          → Closes d status result h (
              close floats to_fixed opts world
                (verdict_of floats to_fixed opts d target_of
                  (guardrail_outcomes floats to_fixed opts opts.guardrails)
                  queries)
                status
                (build_experiment_finding floats to_fixed opts d severity target_of
                  (guardrail_outcomes floats to_fixed opts opts.guardrails)
                  ms)
                result
                h)
      close-Closes d status severity ms queries result h = record {
        verdict = _;
        finding = _;
        decision = refl;
        interval = refl;
        cited = finding-Cites d severity ms;
        writes = close-Writes _ status _ result h;
      }

      -- What a monitoring run may do.
      abbrev pub IsLawful : List (Call floats) → Run floats MonitorResult → Type 0
      IsLawful h run =
          ((run ≡ returns undecided h) × (breached_of ≡ []) × Straddles floats target_of.interval)
          ⊎ ((d : Decision) × (breached_of ≡ [])
              × Shows floats opts.direction d target_of.interval
              × IsSampled floats target_of
              × Closes d concluded (decided d) h run)
          ⊎ ((breached_of ≢ []) × Closes revert stopped (breached_by breached_of) h run)

      conclude-IsLawful :
          (d : Decision) (h : List (Call floats))
          → breached_of ≡ []
          → Decides floats opts.direction target_of.interval d
          → IsLawful h (
              conclude floats to_fixed opts world target_of
                (guardrail_outcomes floats to_fixed opts opts.guardrails)
                d
                h)
      conclude-IsLawful inconclusive h none_breached s = inl (refl, none_breached, s)
      conclude-IsLawful ship h none_breached s = inr (
          inl (
            ship,
            none_breached,
            s,
            Shows-IsSampled floats opts.direction ship opts.target s,
            close-Closes ship concluded _ [] _ (decided ship) h,
          ))
      conclude-IsLawful revert h none_breached s = inr (
          inl (
            revert,
            none_breached,
            s,
            Shows-IsSampled floats opts.direction revert opts.target s,
            close-Closes revert concluded _ [] _ (decided revert) h,
          ))

      settle-IsLawful :
          (ms : List String) (h : List (Call floats))
          → breached_of ≡ ms
          → IsLawful h (
              settle floats to_fixed opts world target_of
                (guardrail_outcomes floats to_fixed opts opts.guardrails)
                ms
                h)
      settle-IsLawful [] h e =
          conclude-IsLawful (target_decision floats opts.direction target_of.interval) h e
            (target_decision-Decides floats opts.direction target_of.interval)
      settle-IsLawful (m ∷ ms) h e = inr (
          inr (
            λ empty. cc,
            subst
                (λ xs. Closes revert stopped (breached_by xs) h (
                  settle floats to_fixed opts world target_of
                    (guardrail_outcomes floats to_fixed opts opts.guardrails) (m ∷ ms) h))
                (sym e) (close-Closes revert stopped _ (m ∷ ms) _ (breached_by (m ∷ ms)) h),
          ))

      -- A run of `monitorExperiment` ends in one of three ways. If a guardrail is breached, it writes the
      -- verdict `revert` and stops the experiment, whatever the target shows. If none is and both arms of
      -- the target have samples and its interval lies clear of zero, it writes the verdict on the side
      -- where the interval lies, `ship` just for the wanted direction. Otherwise the interval reaches
      -- zero, and it makes no call. Where all calls succeed, the verdict is written before the status and the status before
      -- the finding; where one fails, nothing comes before the verdict. Each number of the finding cites
      -- a query that the caller named.
      pub monitor_experiment-IsLawful :
          (h : List (Call floats)) → IsLawful h (monitor_experiment floats to_fixed opts world h)
      unfolding monitor_experiment
      monitor_experiment-IsLawful h = settle-IsLawful breached_of h refl
