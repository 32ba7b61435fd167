-- ===== src/Analysis/Clusters/Draft.antt =====
-- packages/analysis-agent/src/clusters.ts: `clusterFinding`, the finding drafted from a cluster. How a
-- number is written is a parameter.
use Prim.Native.String.{◌++◌ as ◌<>◌}
use toqar.Common.{
  ℕ, String, true, false, none, some, [], ◌∷◌, ◌≡◌, refl, ◌==◌, if◌then◌else◌, leb, includes,
  map_get, Bool-cases, inl, inr,
}
use toqar.Common.Options.{all_some}
use toqar.Common.Texts.{filled-append}
use toqar.Json.{Value, str, arr, obj, item, nil, field, end}
use toqar.Registry.Findings.{Finding, is_query_id, parse_metric, parse_evidence, parse_finding}
use toqar.Analysis.Clusters.{Signature, tool_failure, human_override, FailureCluster}

abbrev pub layer_of : Signature → String
layer_of (tool_failure tool_name status task_type) = "O"
layer_of (human_override task_type) = "A"

abbrev pub severity_of : ℕ → String
severity_of count = if leb 10 count then "critical" else "warning"

abbrev pub headline_of : (ℕ → String) → FailureCluster → String
headline_of show c =
    "Recurring pattern: " <> (c.label <> (" across " <> (show c.member_count <> " runs.")))

abbrev pub fixed_summary : String
fixed_summary =
    "Clustered from recorded failure facts (deterministic signature grouping; "
    <> ("members enumerable by run). " <> "The label names the pattern, not a measurement.")

unfoldable pub cluster_finding : (ℕ → String) → FailureCluster → String → Value
cluster_finding show c query_id = obj (
    field "layer" (str (layer_of c.signature)) (
      field "severity" (str (severity_of c.member_count)) (
        field "variant" (str "anomaly") (
          field "headline" (str (headline_of show c)) (
            field "summary" (str fixed_summary) (
              field "metrics"
                (arr (
                  item
                    (obj (
                      field "label" (str "member_runs") (
                        field "value" (str (show c.member_count))
                          (field "query_id" (str query_id) end))))
                    nil))
                (field "evidence"
                  (arr (
                    item
                      (obj (
                        field "title" (str ("Member runs for " <> c.label))
                          (field "query_id" (str query_id) end)))
                      nil))
                  end)))))))

-- The draft as a finding.
abbrev pub drafted : (ℕ → String) → FailureCluster → String → Finding
drafted show c query_id = record {
  layer = layer_of c.signature;
  severity = severity_of c.member_count;
  variant = "anomaly";
  headline = headline_of show c;
  summary = fixed_summary;
  metrics = record { label = "member_runs"; value = show c.member_count; query_id = query_id } ∷ [];
  evidence =
      record {
        title = "Member runs for " <> c.label;
        note = none;
        query_id = query_id;
        result_ref = none;
      }
      ∷ [];
  prompt_version = none;
  model = none;
}

layer_of-includes :
    (s : Signature) → includes ("T" ∷ "O" ∷ "Q" ∷ "A" ∷ "R" ∷ []) (layer_of s) ≡ true
layer_of-includes (tool_failure tool_name status task_type) = refl
layer_of-includes (human_override task_type) = refl

severity_of-includes :
    (n : ℕ) → includes ("critical" ∷ "warning" ∷ "info" ∷ "positive" ∷ []) (severity_of n) ≡ true
severity_of-includes n = elim (Bool-cases (leb 10 n)) [
  | inl many ↦ rw many refl
  | inr few ↦ rw few refl
]

pub parse_finding-cluster_finding :
    (show : ℕ → String) (c : FailureCluster) (query_id : String)
    → is_query_id query_id ≡ true
    → (show c.member_count == "") ≡ false
    → parse_finding (cluster_finding show c query_id) ≡ some (drafted show c query_id)
unfolding parse_finding cluster_finding parse_metric parse_evidence map_get all_some
parse_finding-cluster_finding show c query_id q n = rw (layer_of-includes c.signature) (
    rw (severity_of-includes c.member_count) (
      rw
        (filled-append "Recurring pattern: "
          (c.label <> (" across " <> (show c.member_count <> " runs."))) refl)
        (rw (filled-append "Member runs for " c.label refl) (rw n (rw q refl)))))
