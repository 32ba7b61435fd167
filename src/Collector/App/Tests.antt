-- ===== src/Collector/App/Tests.antt =====
-- The route `/v1/events` at concrete inputs; the digest of a token is the token itself.
use toqar.Common.{
  String, Bool, true, false, Option, some, List, [], ◌∷◌, ◌≡◌, refl, ◌==◌, map_get, map_set,
}
use toqar.Json.{Value, num, str, arr, obj, item, nil, end, field}
use toqar.Registry.Shapes.{Code, Formats, cleaned, issues, bad_format}
use toqar.Registry.Events.{parse_event, toqar_event_names}
use toqar.Registry.Table.{select}
use toqar.Registry.Store.{Db, empty_db}
use toqar.Registry.Store.Tokens.{default_tenant, live_token, resolve_token, find_tenant_by_token}
use toqar.Registry.Store.Settings.{get_ingest_settings}
use toqar.Collector.Redact.{
  Piece, between, is_structural, structural_keys, replaced, replace_all, redact_text,
  secret_recognizers, pii_recognizers, walk, redact_event, luhn,
}
use toqar.Collector.Sink.{begin, settle, publish}
use toqar.Collector.App.{
  Collector, taken_in, unauthorized, authenticate, record_rejection, parse_product, parse_any,
  gather, take_in, post_events,
}
use toqar.Collector.App.Traces.{
  spans_taken, spans_deferred, TraceDue, take_traces, post_traces, post_traces-Due,
}

abbrev always : String → Bool
always s = true

abbrev formats : Formats
formats = record {
  is_uuid = always;
  is_datetime = always;
  is_snake_case = λ s. s == "lead_scored";
  is_integer = always;
  is_non_negative = always;
}

abbrev show : Value → String
show v = "?"

abbrev cut : String → String → List Piece
cut kind text = between text ∷ []

abbrev same_text : String → String
same_text s = s

abbrev db : Db
db = record empty_db {
  tenants = ("t1", default_tenant "acme") ∷ [];
  tokens =
      (
        "t1",
        record {
          token_id = "tk_1";
          token_hash = "tok_a";
          prefix = "tok_";
          scope = "events:write";
          revoked = false;
        },
      )
      ∷ [];
}

abbrev event : String → Value
event name = obj (
    field "event_id" (str "e1") (
      field "schema_version" (str "1") (
        field "timestamp" (str "now") (
          field "task_id" (str "k") (
            field "run_id" (str "r") (
              field "task_type" (str "score") (
                field "agent" (obj (field "name" (str "sdr") end)) (
                  field "event" (str name)
                    (field "tenant_id" (str "t9") (field "score" (num 7) end))))))))))

abbrev body : Value
body =
    obj (
      field "events" (arr (item (event "lead_scored") (item (event "Bad") (item (num 3) nil)))) end)

abbrev idle : Collector
idle = record { sink = record { buffer = []; degraded = false; capacity = 1 }; counters = [] }

abbrev token : Option String
token = some "Bearer tok_a"

abbrev stored_event : Value
stored_event = obj (
    field "event_id" (str "e1") (
      field "schema_version" (str "1") (
        field "timestamp" (str "now") (
          field "task_id" (str "k") (
            field "run_id" (str "r") (
              field "task_type" (str "score") (
                field "agent" (obj (field "name" (str "sdr") end)) (
                  field "event" (str "lead_scored") (
                    field "tenant_id" (str "t1") (
                      field "score" (num 7) (
                        field "retention_days" (num 365)
                          (field "residency" (str "us") end))))))))))))

served : post_events formats show cut same_text db token body false idle ≡ (
  record {
    sink = record { buffer = stored_event ∷ []; degraded = true; capacity = 1 };
    counters = ("t1", ("invalid_event_name", 1) ∷ ("schema_validation", 1) ∷ []) ∷ [];
  },
  taken_in 1
      (record { index = 1; reasons = record { path = "event" ∷ []; code = bad_format } ∷ [] }
        ∷ record { index = 2; reasons = record { path = []; code = Code.wrong_type } ∷ [] }
        ∷ [])
      0,
)
unfolding post_events authenticate find_tenant_by_token resolve_token live_token get_ingest_settings
    select take_in gather parse_any parse_product toqar_event_names parse_event issues cleaned
    map_get map_set redact_event walk is_structural structural_keys redact_text replace_all replaced
    secret_recognizers pii_recognizers luhn record_rejection publish begin settle default_tenant
served = refl

refused :
    post_events formats show cut same_text db (some "Bearer tok_b") body true idle
    ≡ (idle, unauthorized)
unfolding post_events authenticate find_tenant_by_token resolve_token live_token
refused = refl

-- One mapped span and two unmapped ones: an outage is ridden once, then the buffer is full.
traced :
    (post_traces cut same_text db token (record { events = end ∷ []; unmapped = 2 }) false idle).1
    ≡ spans_taken 1 2
unfolding post_traces take_traces authenticate find_tenant_by_token resolve_token live_token
    get_ingest_settings select map_get publish begin settle default_tenant
traced = refl

deferred :
    (post_traces cut same_text db token
      (record { events = end ∷ end ∷ []; unmapped = 2 })
      false
      idle).1
    ≡ spans_deferred
unfolding post_traces take_traces authenticate find_tenant_by_token resolve_token live_token
    get_ingest_settings select map_get publish begin settle default_tenant
deferred = refl

post_traces-Due_example :
    TraceDue cut
      (authenticate same_text token db)
      (record { events = end ∷ []; unmapped = 2 })
      false
      idle
      (post_traces cut same_text db token (record { events = end ∷ []; unmapped = 2 }) false idle)
post_traces-Due_example =
    post_traces-Due cut same_text db token (record { events = end ∷ []; unmapped = 2 }) false idle
      λ u kind. refl
