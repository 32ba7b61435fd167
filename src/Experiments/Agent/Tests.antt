-- ===== src/Experiments/Agent/Tests.antt =====
-- The experiment agent at concrete inputs, over the natural numbers with a largest one.
use toqar.Common.{
  ℕ, ◌+◌, ◌-◌, ◌*◌, ◌/◌, ◌≡◌, refl, ◌⊎◌, inl, inr, String, Bool, true, false, Option, none, some,
  [], ◌∷◌, leb, arith, map_get,
}
use toqar.Common.Numbers.{Number, le_refl_nat, le_trans_nat, le_total_nat}
use toqar.Experiments.Sequential.{Floats, ship, cs_radius, evaluate}
use toqar.Experiments.Trial.{
  increase, Hypothesis, refused, started, decided, breached_by, ArmObservations, MonitorOptions,
  World, Run, returns, asked_level,
}
use toqar.Experiments.Agent.{
  run_sequence, guardrail_harm, guardrail_outcomes, breached_metrics, start_experiment,
  monitor_experiment,
}
use toqar.Experiments.Agent.Gate.{IsGated, start_experiment-IsGated}
use toqar.Experiments.Agent.Verdicts.{IsLawful, monitor_experiment-IsLawful}

data Extended : Type 0 where
  finite : ℕ → Extended
  top : Extended

abbrev le : Extended → Extended → Bool
le (finite a) (finite b) = leb a b
le (finite a) top = true
le top (finite b) = false
le top top = true

le_refl_extended : (a : Extended) → le a a ≡ true
le_refl_extended (finite a) = le_refl_nat a
le_refl_extended top = refl

le_trans_extended : (a b c : Extended) → le a b ≡ true → le b c ≡ true → le a c ≡ true
le_trans_extended (finite a) (finite b) (finite c) h k = le_trans_nat a b c h k
le_trans_extended (finite a) b top h k = refl
le_trans_extended (finite a) top (finite c) h k = cc
le_trans_extended top (finite b) c h k = cc
le_trans_extended top top c h k = k

le_total_extended : (a b : Extended) → (le a b ≡ true) ⊎ (le b a ≡ true)
le_total_extended (finite a) (finite b) = le_total_nat a b
le_total_extended (finite a) top = inl refl
le_total_extended top b = inr (below_top b)
  where
    below_top : (b : Extended) → le b top ≡ true
    below_top (finite b) = refl
    below_top top = refl

abbrev lifted : (ℕ → ℕ → ℕ) → Extended → Extended → Extended
lifted f (finite a) (finite b) = finite (f a b)
lifted f a b = top

abbrev extended : Number
extended = record {
  N = Extended;
  zero = finite 0;
  one = finite 1;
  of_ℕ = finite;
  add = lifted (λ a b. a + b);
  sub = lifted (λ a b. a - b);
  mul = lifted (λ a b. a * b);
  div = lifted (λ a b. a / b);
  le = le;
  le_refl = le_refl_extended;
  le_trans = le_trans_extended;
  le_total = le_total_extended;
}

le_top : (a : Extended) → le a top ≡ true
le_top (finite a) = refl
le_top top = refl

zero_le : (a : Extended) → le (finite 0) a ≡ true
zero_le (finite a) = ground arith
zero_le top = refl

-- A root of nothing but zero makes every interval a point.
abbrev floats : Floats
floats = record {
  num = extended;
  log = λ a. a;
  sqrt = λ a. finite 0;
  infinity = top;
  minus_infinity = finite 0;
  le_infinity = le_top;
  minus_infinity_le = zero_le;
}

abbrev better : ArmObservations floats
better = record {
  control = finite 2 ∷ finite 2 ∷ [];
  variant = finite 5 ∷ finite 5 ∷ finite 9 ∷ [];
}

abbrev same : ArmObservations floats
same = record { control = finite 2 ∷ []; variant = finite 2 ∷ [] }

abbrev options : ArmObservations floats → MonitorOptions floats
options guardrail = record {
  experiment_id = "x1";
  target_metric = "task_success_rate";
  direction = increase;
  target_query = "q_1";
  guardrail_queries = ("override_rate", "q_2") ∷ [];
  target = better;
  guardrails = ("override_rate", guardrail) ∷ [];
}

abbrev willing : World floats
willing = record { level = some 2; create = some "x1"; assemble = some "pr"; accepts = λ c. true }

abbrev to_fixed : Extended → String
to_fixed a = "1.0"

abbrev result_of : {A : Type 0} → Run floats A → Option A
result_of (returns a h) = some a
result_of run = none

decisions :
    (result_of (monitor_experiment floats to_fixed (options same) willing []) ≡ some (decided ship))
    × (result_of (monitor_experiment floats to_fixed (options better) willing [])
        ≡ some (breached_by ("override_rate" ∷ [])))
unfolding monitor_experiment run_sequence evaluate cs_radius guardrail_outcomes breached_metrics
    guardrail_harm map_get
decisions = (refl, refl)

monitor_experiment-IsLawful_example :
    IsLawful floats to_fixed
      (options better)
      willing
      []
      (monitor_experiment floats to_fixed (options better) willing [])
monitor_experiment-IsLawful_example =
    monitor_experiment-IsLawful floats to_fixed (options better) willing []

abbrev hypothesis : Hypothesis
hypothesis = record {
  hypothesis = "shorter prompts";
  target_metric = "task_success_rate";
  direction = increase;
  from_query_ids = "q_1" ∷ [];
  guardrails = "override_rate" ∷ [];
  flag_provider = "posthog";
}

starts : result_of (start_experiment floats willing hypothesis []) ≡ some (started "x1" "pr")
unfolding start_experiment
starts = refl

refuses :
    start_experiment floats (record willing { level = some 1 }) hypothesis []
    ≡ returns (refused 1) (asked_level ∷ [])
unfolding start_experiment
refuses = refl

start_experiment-IsGated_example :
    IsGated floats willing hypothesis [] (start_experiment floats willing hypothesis [])
start_experiment-IsGated_example = start_experiment-IsGated floats willing hypothesis []
