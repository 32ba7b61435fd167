-- ===== src/Registry/Events/Tests.antt =====
-- Core events at concrete inputs.
use toqar.Common.{String, Bool, true, [], ◌∷◌, ◌≡◌, refl, map, map_get}
use toqar.Json.{Value, num, str, obj, Fields, end, field}
use toqar.Registry.Shapes.{Formats, cleaned, issues, missing}
use toqar.Registry.Events.{core_events, toqar_event_names, accepted, rejected, parse_event}

abbrev yes_to : String → Bool
yes_to s = true

abbrev formats : Formats
formats = record {
  is_uuid = yes_to;
  is_datetime = yes_to;
  is_snake_case = yes_to;
  is_integer = yes_to;
  is_non_negative = yes_to;
}

-- The envelope, then the members of `task_failed` and one that it does not have.
abbrev failed : Fields → Value
failed error = obj (
    field "event_id" (str "e1") (
      field "event" (str "task_failed") (
        field "secret" (str "x") (
          field "schema_version" (str "0.1.0") (
            field "timestamp" (str "now") (
              field "task_id" (str "k") (
                field "run_id" (str "r") (
                  field "task_type" (str "reply") (
                    field "agent" (obj (field "name" (str "sdr") end)) (
                      field "error" (obj error) (
                        field "retryable" (Value.bool true)
                          (field "duration_ms" (num 5) end))))))))))))

abbrev event_out : Value
event_out = obj (
    field "event_id" (str "e1") (
      field "schema_version" (str "0.1.0") (
        field "timestamp" (str "now") (
          field "task_id" (str "k") (
            field "run_id" (str "r") (
              field "task_type" (str "reply") (
                field "agent" (obj (field "name" (str "sdr") end)) (
                  field "event" (str "task_failed") (
                    field "error" (obj (field "type" (str "rate_limited") end)) (
                      field "retryable" (Value.bool true)
                        (field "duration_ms" (num 5) end)))))))))))

parses :
    parse_event formats (failed (field "type" (str "rate_limited") (field "more" (num 1) end)))
    ≡ accepted event_out
unfolding parse_event core_events cleaned issues map_get
parses = refl

complains :
    parse_event formats (failed end)
    ≡ rejected (record { path = "error" ∷ "type" ∷ []; code = missing } ∷ [])
unfolding parse_event core_events cleaned issues map_get
complains = refl

names_lem : map (λ entry. entry.0) core_events ≡ toqar_event_names
unfolding core_events toqar_event_names
names_lem = refl
