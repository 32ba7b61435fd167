-- ===== src/Pipeline/Transform.antt =====
-- packages/pipeline/src/transform.ts: an enriched message as a row. A number is kept as the JSON number
-- that it is; `JSON.stringify`, zod's UUID check and `Math.round` of a number that is not natural are
-- parameters.
use toqar.Common.{ℕ, String, Bool, Option, none, some, min, max}
use toqar.Common.Options.{◌>>=◌, ◌>>◌, guard}
use toqar.Json.{Value, num, decimal, str, prop, text, as_str}

pub record Formats : Type 0 where
  pub is_uuid : String → Bool
  pub stringify : Value → String
  pub round : String → ℕ

pub record EventRow : Type 0 where
  pub tenant_id : String
  pub event : String
  pub event_id : String
  pub timestamp : String
  pub task_id : String
  pub run_id : String
  pub session_id : String
  pub task_type : String
  pub agent_name : String
  pub agent_version : String
  pub tool_name : String
  pub model : String
  pub status : String
  pub verification : String
  pub initiator : String
  pub retry_of_step_id : String
  pub tokens_in : Value
  pub tokens_out : Value
  pub latency_ms : Value
  pub cost_usd : Value
  pub rating_value : Value
  pub edit_magnitude_value : Value
  pub response_latency_ms : Value
  pub retention_days : ℕ
  pub payload : String

-- `str` and `num`: a value that is missing or of another kind is the empty text, or zero.
abbrev pub text_or_empty : Option Value → String
text_or_empty none = ""
text_or_empty (some (str s)) = s
text_or_empty (some v) = ""

abbrev pub number_or_zero : Option Value → Value
number_or_zero none = num 0
number_or_zero (some (num n)) = num n
number_or_zero (some (decimal d)) = decimal d
number_or_zero (some v) = num 0

abbrev pub nested : Option Value → String → Option Value
nested none key = none
nested (some v) key = prop key v

abbrev pub clamp_days : ℕ → ℕ
clamp_days days = min 3650 (max 1 days)

abbrev pub retention_days : (String → ℕ) → Option Value → ℕ
retention_days round none = 365
retention_days round (some (num n)) = clamp_days n
retention_days round (some (decimal d)) = clamp_days (round d)
retention_days round (some v) = 365

abbrev optional_version : Option Value → Option String
optional_version none = some ""
optional_version (some v) = as_str v

module _ (f : Formats) where
  abbrev uuid_field : Value → Option String
  uuid_field v = do found ← prop "event_id" v; id ← as_str found; guard (f.is_uuid id); some id

  -- `requiredShape`, and the row.
  unfoldable pub to_row : Value → Option EventRow
  to_row v = do
    tenant_id ← text "tenant_id" v
    event ← text "event" v
    event_id ← uuid_field v
    timestamp ← text "timestamp" v
    task_id ← text "task_id" v
    run_id ← text "run_id" v
    task_type ← text "task_type" v
    agent ← prop "agent" v
    agent_name ← text "name" agent
    agent_version ← optional_version (prop "version" agent)
    some (record {
      tenant_id = tenant_id;
      event = event;
      event_id = event_id;
      timestamp = timestamp;
      task_id = task_id;
      run_id = run_id;
      session_id = text_or_empty (prop "session_id" v);
      task_type = task_type;
      agent_name = agent_name;
      agent_version = agent_version;
      tool_name = text_or_empty (prop "tool_name" v);
      model = text_or_empty (prop "model" v);
      status = text_or_empty (prop "status" v);
      verification = text_or_empty (prop "verification" v);
      initiator = text_or_empty (prop "initiator" v);
      retry_of_step_id = text_or_empty (prop "retry_of_step_id" v);
      tokens_in = number_or_zero (prop "tokens_in" v);
      tokens_out = number_or_zero (prop "tokens_out" v);
      latency_ms = number_or_zero (prop "latency_ms" v);
      cost_usd = number_or_zero (prop "cost_usd" v);
      rating_value = number_or_zero (nested (prop "rating" v) "value");
      edit_magnitude_value = number_or_zero (nested (prop "edit_magnitude" v) "value");
      response_latency_ms = number_or_zero (prop "response_latency_ms" v);
      retention_days = retention_days f.round (prop "retention_days" v);
      payload = f.stringify v;
    })
