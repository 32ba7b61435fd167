-- ===== src/Registry/Findings.antt =====
-- packages/registry/src/finding.ts: findings, their schema and the check of their citations. How the
-- pattern of a numeric claim cuts a text (the index and the text of each match) and whether a text
-- ends in the tag of something else are parameters.
use toqar.Common.{
  ℕ, ◌-◌, String, Bool, false, Option, none, some, List, [], ◌∷◌, ◌&&◌, ◌||◌, ◌==◌, map,
  if◌then◌else◌, eqb, leb, length, all,
}
use toqar.Common.Options.{◌>>=◌, ◌>>◌, guard}
use toqar.Common.Texts.{slice_to, slice_from, codes, has_part, join}
use toqar.Json.{
  string_if_given, Value, str, arr, obj, Fields, end, field, prop, as_str, text, optional_text,
  items_of,
}
use toqar.Registry.Schema.{at_least_one, items_at}
use toqar.Registry.Inputs.{one_of}

pub record FindingMetric : Type 0 where
  pub label : String
  pub value : String
  pub query_id : String

pub record EvidenceStep : Type 0 where
  pub title : String
  pub note : Option String
  pub query_id : String
  pub result_ref : Option String

pub record Finding : Type 0 where
  pub layer : String
  pub severity : String
  pub variant : String
  pub headline : String
  pub summary : String
  pub metrics : List FindingMetric
  pub evidence : List EvidenceStep
  pub prompt_version : Option String
  pub model : Option String

abbrev is_hex : ℕ → Bool
is_hex c = (leb b'0' c && leb c b'9') || (leb b'a' c && leb c b'f')

-- `/^q_[0-9a-f]{16}$/`.
unfoldable pub is_query_id : String → Bool
is_query_id s =
    (slice_to 2 s == "q_")
    && eqb (length (codes (slice_from 2 s))) 16
    && all is_hex (codes (slice_from 2 s))

abbrev query_id_at : Value → Option String
query_id_at v = do found ← prop "query_id" v; s ← as_str found; guard (is_query_id s); some s

-- `findingMetricSchema`.
unfoldable pub parse_metric : Value → Option FindingMetric
parse_metric v = do
  label ← text "label" v
  value ← text "value" v
  query_id ← query_id_at v
  some (record { label = label; value = value; query_id = query_id })

-- `evidenceStepSchema`.
unfoldable pub parse_evidence : Value → Option EvidenceStep
parse_evidence v = do
  title ← text "title" v
  note ← string_if_given (prop "note" v)
  query_id ← query_id_at v
  result_ref ← string_if_given (prop "result_ref" v)
  some (record { title = title; note = note; query_id = query_id; result_ref = result_ref })

-- `findingSchema`.
unfoldable pub parse_finding : Value → Option Finding
parse_finding v = do
  layer ← one_of ("T" ∷ "O" ∷ "Q" ∷ "A" ∷ "R" ∷ []) "layer" v
  severity ← one_of ("critical" ∷ "warning" ∷ "info" ∷ "positive" ∷ []) "severity" v
  variant ← one_of ("anomaly" ∷ "regression" ∷ "experiment" ∷ "digest" ∷ []) "variant" v
  headline ← text "headline" v
  summary ← text "summary" v
  some_metrics ← items_at parse_metric "metrics" v
  metrics ← at_least_one some_metrics
  some_evidence ← items_at parse_evidence "evidence" v
  evidence ← at_least_one some_evidence
  prompt_version ← optional_text "prompt_version" v
  model ← optional_text "model" v
  some (record {
    layer = layer;
    severity = severity;
    variant = variant;
    headline = headline;
    summary = summary;
    metrics = metrics;
    evidence = evidence;
    prompt_version = prompt_version;
    model = model;
  })

-- The schema on a value that may be `undefined`.
abbrev pub parse_given : Option Value → Option Finding
parse_given none = none
parse_given (some v) = parse_finding v

abbrev pub text_field : String → Option String → Fields → Fields
text_field k none fs = fs
text_field k (some s) fs = field k (str s) fs

abbrev metric_json : FindingMetric → Value
metric_json m = obj (
    field "label" (str m.label)
      (field "value" (str m.value) (field "query_id" (str m.query_id) end)))

abbrev evidence_json : EvidenceStep → Value
evidence_json s = obj (
    field "title" (str s.title) (
      text_field "note" s.note
        (field "query_id" (str s.query_id) (text_field "result_ref" s.result_ref end))))

-- The object that `JSON.stringify` writes for a parsed finding.
unfoldable pub finding_json : Finding → Value
finding_json f = obj (
    field "layer" (str f.layer) (
      field "severity" (str f.severity) (
        field "variant" (str f.variant) (
          field "headline" (str f.headline) (
            field "summary" (str f.summary) (
              field "metrics" (arr (items_of (map metric_json f.metrics))) (
                field "evidence" (arr (items_of (map evidence_json f.evidence))) (
                  text_field "prompt_version" f.prompt_version
                    (text_field "model" f.model end)))))))))

abbrev or_empty : Option String → String
or_empty none = ""
or_empty (some s) = s

abbrev evidence_texts : List EvidenceStep → List String
evidence_texts [] = []
evidence_texts (s ∷ ss) = s.title ∷ or_empty s.note ∷ evidence_texts ss

unfoldable pub prose_of : Finding → String
prose_of f = join "\n" (f.headline ∷ f.summary ∷ evidence_texts f.evidence)

-- `v.includes(token) || token.includes(v)`, for some registered value.
abbrev pub is_cited : List FindingMetric → String → Bool
is_cited [] token = false
is_cited (m ∷ ms) token = has_part m.value token || has_part token m.value || is_cited ms token

module _ (claims : String → List (ℕ × String)) (is_tag : String → Bool) where
  abbrev pub preceding : String → ℕ → String
  preceding prose index = slice_from (index - 12) (slice_to index prose)

  unfoldable pub uncited_of : List FindingMetric → String → List (ℕ × String) → List String
  uncited_of metrics prose [] = []
  uncited_of metrics prose ((index, token) ∷ found) =
      let rest = uncited_of metrics prose found in
      if is_tag (preceding prose index)
      then rest
      else if is_cited metrics token
      then rest
      else token ∷ rest

  -- The uncited claims of a value, `none` if it is fine.
  abbrev pub unless_none : List String → Option (List String)
  unless_none [] = none
  unless_none (t ∷ ts) = some (t ∷ ts)

  abbrev pub checked : Option Finding → Option (List String)
  checked none = some ("(finding failed schema validation)" ∷ [])
  checked (some f) = unless_none (uncited_of f.metrics (prose_of f) (claims (prose_of f)))

  unfoldable pub validate_finding_citations : Option Value → Option (List String)
  validate_finding_citations v = checked (parse_given v)
