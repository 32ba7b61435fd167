-- ===== src/Pipeline/Consumer/Tests.antt =====
-- Batches at concrete inputs: the insert of the rows fails twice, and they go to the dead-letter topic.
use toqar.Common.{
  ℕ, ◌+◌, ◌≡◌, refl, String, Bool, true, false, not, Option, none, some, List, [], ◌∷◌, ◌==◌,
  if◌then◌else◌, ltb, length, map_get,
}
use toqar.Json.{Value, null, num, str, obj, field, end}
use toqar.Pipeline.Transform.{Formats, EventRow, to_row}
use toqar.Pipeline.Consumer.{
  Commit, commits, leaves_open, ended, dead_letter_failed, unmappable, unparsable, insert_failed,
  Services, Pipeline, route, sort_all, insert_rows, each_batch,
}
use toqar.Pipeline.Consumer.Delivery.{total, sum_worth, moved, each_batch-total}

abbrev message : Value
message = obj (
    field "tenant_id" (str "t1") (
      field "event" (str "task_started") (
        field "event_id" (str "u1") (
          field "timestamp" (str "now") (
            field "task_id" (str "k1") (
              field "run_id" (str "r1") (
                field "task_type" (str "triage") (
                  field "agent" (obj (field "name" (str "bot") end))
                    (field "retention_days" (num 9000) (field "residency" (str "eu") end))))))))))

abbrev formats : Formats
formats = record { is_uuid = λ s. not (s == ""); stringify = λ v. "{}"; round = λ t. 0 }

abbrev parse_json : String → Option Value
parse_json raw = if raw == "good" then some message else if raw == "bare" then some null else none

abbrev services : ℕ → Bool → Commit → Services
services failing takes commit = record {
  formats = formats;
  parse_json = parse_json;
  has_eu = true;
  inserts = λ n. not (ltb n failing);
  takes_dead = λ ds. takes;
  commit = commit;
}

abbrev start : Pipeline
start = record {
  us_rows = [];
  eu_rows = [];
  dead_letters = [];
  unmapped = 0;
  dead_lettered = 0;
  insert_calls = 0;
  committed = 0;
}

abbrev batch : List (Option String)
batch = some "good" ∷ none ∷ some "bare" ∷ some "{" ∷ some "" ∷ []

abbrev row : EventRow
row = record {
  tenant_id = "t1";
  event = "task_started";
  event_id = "u1";
  timestamp = "now";
  task_id = "k1";
  run_id = "r1";
  session_id = "";
  task_type = "triage";
  agent_name = "bot";
  agent_version = "";
  tool_name = "";
  model = "";
  status = "";
  verification = "";
  initiator = "";
  retry_of_step_id = "";
  tokens_in = num 0;
  tokens_out = num 0;
  latency_ms = num 0;
  cost_usd = num 0;
  rating_value = num 0;
  edit_magnitude_value = num 0;
  response_latency_ms = num 0;
  retention_days = 3650;
  payload = "{}";
}

abbrev sent : Pipeline
sent = record start {
  eu_rows = row ∷ [];
  dead_letters = unmappable "bare" ∷ unparsable "{" ∷ unparsable "" ∷ [];
  unmapped = 3;
  dead_lettered = 3;
  insert_calls = 2;
  committed = 5;
}

one_retry : each_batch (services 1 true commits) batch start ≡ (sent, ended)
unfolding each_batch sort_all route insert_rows to_row map_get
one_retry = refl

abbrev saved : Pipeline
saved = record start {
  dead_letters = unmappable "bare" ∷ unparsable "{" ∷ unparsable "" ∷ insert_failed row ∷ [];
  unmapped = 3;
  dead_lettered = 4;
  insert_calls = 2;
  committed = 5;
}

two_failures : each_batch (services 2 true commits) batch start ≡ (saved, ended)
unfolding each_batch sort_all route insert_rows to_row map_get
two_failures = refl

abbrev halted : Pipeline
halted = record start { unmapped = 3; insert_calls = 2 }

no_topic : each_batch (services 2 false commits) batch start ≡ (halted, dead_letter_failed)
unfolding each_batch sort_all route insert_rows to_row map_get
no_topic = refl

abbrev unsettled : Pipeline
unsettled = record saved { committed = 0 }

left_open : each_batch (services 2 true leaves_open) batch start ≡ (unsettled, ended)
unfolding each_batch sort_all route insert_rows to_row map_get
left_open = refl

abbrev one : {A : Type 0} → A → ℕ
one a = 1

each_batch-total_example :
    (total one one saved ≡ total one one start + sum_worth one one (services 2 true commits) batch)
    × (saved.committed ≡ start.committed + moved commits (length batch))
each_batch-total_example =
    each_batch-total one one (services 2 true commits) batch start saved two_failures
