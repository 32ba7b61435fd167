-- ===== src/Registry/Trials.antt =====
-- packages/registry-service/src/store.ts: the schemas of experiments and verdicts.
use toqar.Common.{ℕ, String, Bool, Option, none, some, List, [], ◌∷◌, map}
use toqar.Common.Options.{◌>>=◌}
use toqar.Json.{
  Value, num, decimal, bool, str, arr, obj, end, field, prop, as_str, as_bool, text, optional_text,
  str_items, items_of,
}
use toqar.Registry.Schema.{items_at}
use toqar.Registry.Inputs.{one_of}
use toqar.Registry.Findings.{text_field}
use toqar.Registry.Requests.{items_or_none, count_at}

-- `z.number()`.
abbrev as_number : Value → Option Value
as_number (num n) = some (num n)
as_number (decimal s) = some (decimal s)
as_number v = none

pub record Experiment : Type 0 where
  pub hypothesis : String
  pub target_metric : String
  pub direction : String
  pub from_finding_id : Option String
  pub from_query_ids : List String
  pub guardrails : List String
  pub flag_provider : String

-- `experimentSchema`.
unfoldable pub parse_experiment : Value → Option Experiment
parse_experiment v = do
  hypothesis ← text "hypothesis" v
  target_metric ← text "target_metric" v
  direction ← one_of ("increase" ∷ "decrease" ∷ []) "direction" v
  from_finding_id ← optional_text "from_finding_id" v
  from_query_ids ← items_or_none as_str (prop "from_query_ids" v)
  guardrails ← items_or_none as_str (prop "guardrails" v)
  flag_provider ← one_of ("posthog" ∷ "launchdarkly" ∷ []) "flag_provider" v
  some (record {
    hypothesis = hypothesis;
    target_metric = target_metric;
    direction = direction;
    from_finding_id = from_finding_id;
    from_query_ids = from_query_ids;
    guardrails = guardrails;
    flag_provider = flag_provider;
  })

unfoldable pub experiment_json : Experiment → Value
experiment_json e = obj (
    field "hypothesis" (str e.hypothesis) (
      field "target_metric" (str e.target_metric) (
        field "direction" (str e.direction) (
          text_field "from_finding_id" e.from_finding_id (
            field "from_query_ids" (str_items e.from_query_ids) (
              field "guardrails" (str_items e.guardrails)
                (field "flag_provider" (str e.flag_provider) end)))))))

pub record Verdict : Type 0 where
  pub decision : String
  pub effect : Value
  pub lower : Value
  pub upper : Value
  pub control : ℕ
  pub variant : ℕ
  pub guardrail_outcomes : List (String × Bool)
  pub query_ids : List String

abbrev parse_guardrail : Value → Option (String × Bool)
parse_guardrail v = do
  metric ← prop "metric" v
  name ← as_str metric
  found ← prop "breached" v
  breached ← as_bool found
  some (name, breached)

abbrev number_at : String → Value → Option Value
number_at k v = do found ← prop k v; as_number found

-- `verdictSchema`.
unfoldable pub parse_verdict : Value → Option Verdict
parse_verdict v = do
  decision ← one_of ("ship" ∷ "revert" ∷ "inconclusive" ∷ []) "decision" v
  effect ← number_at "effect" v
  interval ← prop "interval" v
  lower ← number_at "lower" interval
  upper ← number_at "upper" interval
  samples ← prop "samples" v
  control ← count_at "control" samples
  variant ← count_at "variant" samples
  guardrail_outcomes ← items_or_none parse_guardrail (prop "guardrail_outcomes" v)
  query_ids ← items_at as_str "query_ids" v
  some (record {
    decision = decision;
    effect = effect;
    lower = lower;
    upper = upper;
    control = control;
    variant = variant;
    guardrail_outcomes = guardrail_outcomes;
    query_ids = query_ids;
  })

abbrev guardrail_json : String × Bool → Value
guardrail_json (metric, breached) =
    obj (field "metric" (str metric) (field "breached" (bool breached) end))

unfoldable pub verdict_json : Verdict → Value
verdict_json w = obj (
    field "decision" (str w.decision) (
      field "effect" w.effect (
        field "interval" (obj (field "lower" w.lower (field "upper" w.upper end))) (
          field "samples"
            (obj (field "control" (num w.control) (field "variant" (num w.variant) end)))
            (field "guardrail_outcomes" (arr (items_of (map guardrail_json w.guardrail_outcomes)))
              (field "query_ids" (str_items w.query_ids) end))))))
