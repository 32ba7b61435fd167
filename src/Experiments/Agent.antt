-- ===== src/Experiments/Agent.antt =====
-- packages/experiment-agent/src/agent.ts: `startExperiment` and `monitorExperiment`, over the world of
-- Experiments/Trial. How a number is written with one digit is a parameter.
pub mod Gate
pub mod Decisions
pub mod Verdicts
mod Tests
use Prim.Native.String.{◌++◌ as ◌<>◌}
use toqar.Common.{
  ℕ, String, Bool, true, false, ◌&&◌, ◌||◌, not, Option, none, some, List, [], ◌∷◌, ◌++◌, ◌==◌,
  if◌then◌else◌, ltb, map, map_get,
}
use toqar.Common.Numbers.{Number, lt}
use toqar.Experiments.Trial.{
  Direction, Hypothesis, Status, Severity, StartResult, MonitorResult, FindingMetric, EvidenceStep,
  Finding, ArmObservations, GuardrailOutcome, Verdict, MonitorOptions, Call, World, Run, Cmd, ◌>>=◌,
  ◌>>◌, pure, ask, done_if, tell, increase, decrease, running, stopped, concluded, critical,
  warning, positive, refused, started, undecided, decided, breached_by, asked_level, created,
  assembled, updated, wrote_verdict, published, returns, throws,
}
use toqar.Experiments.Sequential.{
  Floats, Decision, inconclusive, ship, revert, control, variant, Interval, Evaluation,
  SequentialTest, create_sequential_test, observe, evaluate,
}

abbrev pub experiment_autonomy_level : ℕ
experiment_autonomy_level = 2

abbrev pub join : String → List String → String
join separator [] = ""
join separator (x ∷ []) = x
join separator (x ∷ xs) = x <> (separator <> join separator xs)

abbrev pub or_default : {A : Type 0} → A → Option A → A
or_default d none = d
or_default d (some a) = a

unfoldable pub guardrail_harm : List (String × Direction)
guardrail_harm =
    ("override_rate", increase)
    ∷ ("cost_per_completed_task", increase)
    ∷ ("task_success_rate", decrease)
    ∷ []

abbrev pub verdict_word : Decision → String
verdict_word ship = "ship"
verdict_word revert = "revert"
verdict_word inconclusive = "inconclusive"

module _ (floats : Floats) where
  open floats use {num}
  open num use {N, of_ℕ, mul, le}

  module _ (world : World floats) where
    abbrev pub propose : Hypothesis → Cmd floats StartResult
    propose hypothesis = do
      experiment_id ← ask (created hypothesis) world.create
      pr_url ← ask assembled world.assemble
      tell world (updated experiment_id running (some pr_url))
      pure (started experiment_id pr_url)

    unfoldable pub start_experiment : Hypothesis → Cmd floats StartResult
    start_experiment hypothesis = do
      level ← ask asked_level world.level
      if ltb level experiment_autonomy_level then pure (refused level) else propose hypothesis

  -- The loop up to the length of the shorter list.
  abbrev pub observe_pairs : List N → List N → SequentialTest floats → SequentialTest floats
  observe_pairs (c ∷ cs) (v ∷ vs) t =
      observe_pairs cs vs (observe floats variant v (observe floats control c t))
  observe_pairs _ _ t = t

  unfoldable pub run_sequence : ArmObservations floats → Evaluation floats
  run_sequence obs = evaluate floats (
      observe_pairs obs.control obs.variant
        (create_sequential_test floats (num.div (of_ℕ 5) (of_ℕ 100))))

  abbrev pub harm_of : String → Direction
  harm_of metric = or_default increase (map_get guardrail_harm metric)

  abbrev pub is_decided : Decision → Bool
  is_decided inconclusive = false
  is_decided d = true

  abbrev pub harmed : Direction → Interval floats → Bool
  harmed increase i = lt num num.zero i.lower
  harmed decrease i = lt num i.upper num.zero

  abbrev pub is_breach : String → Evaluation floats → Bool
  is_breach metric seq = is_decided seq.decision && harmed (harm_of metric) seq.interval

  abbrev pub sign_of : N → String
  sign_of pts = if le num.zero pts then "+" else ""

  -- The decision for the target, by the direction that is wanted.
  abbrev pub target_decision : Direction → Interval floats → Decision
  target_decision increase i =
      if lt num num.zero i.lower
      then ship
      else if lt num i.upper num.zero
      then revert
      else inconclusive
  target_decision decrease i =
      if lt num i.upper num.zero
      then ship
      else if lt num num.zero i.lower
      then revert
      else inconclusive

  module _ (to_fixed : N → String) (opts : MonitorOptions floats) where
    abbrev pub fmt_effect : N → String
    fmt_effect effect = let pts = mul effect (of_ℕ 100) in sign_of pts <> (to_fixed pts <> " pts")

    abbrev pub outcome_of : String → ArmObservations floats → GuardrailOutcome floats
    outcome_of metric obs = record {
      metric = metric;
      breached = is_breach metric (run_sequence obs);
      effect = (run_sequence obs).effect;
      query_id = or_default opts.target_query (map_get opts.guardrail_queries metric);
    }

    unfoldable pub guardrail_outcomes :
        List (String × ArmObservations floats) → List (GuardrailOutcome floats)
    guardrail_outcomes [] = []
    guardrail_outcomes ((metric, obs) ∷ rest) = outcome_of metric obs ∷ guardrail_outcomes rest

    unfoldable pub breached_metrics : List (GuardrailOutcome floats) → List String
    breached_metrics [] = []
    breached_metrics (g ∷ gs) =
        let rest = breached_metrics gs in if g.breached then g.metric ∷ rest else rest

    abbrev pub effect_metric : String → N → String → FindingMetric
    effect_metric metric effect query_id = record {
      label = metric <> "_effect";
      value = fmt_effect effect;
      query_id = query_id;
    }

    abbrev pub summary_of : Decision → List String → String
    summary_of d [] =
        "The sequential test concluded to "
        <> (verdict_word d <> " the variant. Effect estimates and their queries are attached.")
    summary_of d breached =
        "The variant was stopped because a guardrail breached its harm threshold ("
        <> (join ", " breached <> "). Effect estimates and their queries are attached.")

    unfoldable pub build_experiment_finding :
        Decision
        → Severity
        → Evaluation floats
        → List (GuardrailOutcome floats)
        → List String
        → Finding
    build_experiment_finding d severity target guardrails breached = record {
      layer = "T";
      severity = severity;
      variant = "experiment";
      headline =
          "Experiment verdict: "
          <> (verdict_word d <> (" the variant for " <> (opts.target_metric <> ".")));
      summary = summary_of d breached;
      metrics =
          effect_metric opts.target_metric target.effect opts.target_query
          ∷ map (λ (g : GuardrailOutcome floats). effect_metric g.metric g.effect g.query_id)
              guardrails;
      evidence =
          record { title = "Target metric sequential test"; query_id = opts.target_query }
          ∷ map
              (λ (g : GuardrailOutcome floats). record {
                title = "Guardrail: " <> g.metric;
                query_id = g.query_id;
              })
              guardrails;
      prompt_version = "experiment-agent@0.1.0";
    }

    abbrev pub verdict_of :
        Decision
        → Evaluation floats
        → List (GuardrailOutcome floats)
        → List (Option String)
        → Verdict floats
    verdict_of d target guardrails query_ids = record {
      decision = d;
      effect = target.effect;
      interval = target.interval;
      control_samples = target.control_samples;
      variant_samples = target.variant_samples;
      guardrail_outcomes = map (λ (g : GuardrailOutcome floats). (g.metric, g.breached)) guardrails;
      query_ids = query_ids;
    }

    module _ (world : World floats) where
      -- The verdict, the status and the finding, in this order.
      abbrev pub close :
          Verdict floats → Status → Finding → MonitorResult → Cmd floats MonitorResult
      close verdict status finding result = do
        tell world (wrote_verdict opts.experiment_id verdict)
        tell world (updated opts.experiment_id status none)
        tell world (published finding)
        pure result

      -- The branch of a breach.
      abbrev pub stop :
          Evaluation floats
          → List (GuardrailOutcome floats)
          → List String
          → Cmd floats MonitorResult
      stop target guardrails breached =
          close
            (verdict_of revert target guardrails
              (some opts.target_query ∷ map (map_get opts.guardrail_queries) breached))
            stopped (build_experiment_finding revert critical target guardrails breached)
            (breached_by breached)

      abbrev pub severity_of : Decision → Severity
      severity_of ship = positive
      severity_of d = warning

      abbrev pub conclude :
          Evaluation floats → List (GuardrailOutcome floats) → Decision → Cmd floats MonitorResult
      conclude target guardrails inconclusive = pure undecided
      conclude target guardrails d =
          close (verdict_of d target guardrails (some opts.target_query ∷ [])) concluded
            (build_experiment_finding d (severity_of d) target guardrails []) (decided d)

      abbrev pub settle :
          Evaluation floats
          → List (GuardrailOutcome floats)
          → List String
          → Cmd floats MonitorResult
      settle target guardrails [] =
          conclude target guardrails (target_decision opts.direction target.interval)
      settle target guardrails (metric ∷ more) = stop target guardrails (metric ∷ more)

      unfoldable pub monitor_experiment : Cmd floats MonitorResult
      monitor_experiment =
          settle (run_sequence opts.target) (guardrail_outcomes opts.guardrails)
            (breached_metrics (guardrail_outcomes opts.guardrails))
