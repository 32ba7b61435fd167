-- ===== src/Registry/Events.antt =====
-- packages/registry/src/envelope.ts and events.ts: the envelope that every event carries and the core
-- events, and `toqarEventSchema`, the union of the core events told apart by `event`.
pub mod Conformance
mod Tests
use toqar.Common.{String, Option, none, some, List, [], ◌∷◌, map_get, map}
use toqar.Json.{Value, str, obj, Fields, fields}
use toqar.Registry.Shapes.{
  required, optional, Check, text, any_text, uuid, datetime, literal, one_of, boolean, number,
  non_negative, count, object, Shape, done, member, Issue, Formats, complain, wrong_type, bad_event,
  cleaned, issues,
}

abbrev pub agent_identity : Check
agent_identity = object (
    member required "name" text
      (member optional "version" text (member optional "model" text done)))

-- `eventEnvelopeSchema.extend(…)`: the members of the envelope, then those of the event.
abbrev pub envelope : Shape → Shape
envelope rest = member required "event_id" uuid (
    member required "schema_version" text (
      member required "timestamp" datetime (
        member required "task_id" text (
          member required "run_id" text (
            member required "task_type" text
              (member required "agent" agent_identity (member optional "session_id" text rest)))))))

abbrev pub core : String → Shape → Check
core name rest = object (envelope (member required "event" (literal name) rest))

abbrev pub error_info : Check
error_info = object (member required "type" text (member optional "message" any_text done))

abbrev pub task_started : Check
task_started = core "task_started" (
    member required "initiator" (one_of ("human" ∷ "agent" ∷ "schedule" ∷ "api" ∷ []))
      (member optional "parent_task_id" text (member optional "input_ref" text done)))

abbrev pub task_completed : Check
task_completed = core "task_completed" (
    member required "verification" (one_of ("verified" ∷ "self_reported" ∷ [])) (
      member optional "verifier" text (
        member required "duration_ms" count (
          member required "steps_total" count (
            member optional "tokens_in_total" count (
              member optional "tokens_out_total" count (
                member optional "cost_usd" non_negative
                  (member optional "output_ref" text done))))))))

abbrev pub task_failed : Check
task_failed = core "task_failed" (
    member required "error" error_info (
      member optional "failed_step_id" text
        (member required "retryable" boolean (member required "duration_ms" count done))))

abbrev pub task_abandoned : Check
task_abandoned = core "task_abandoned" (
    member required "abandoned_by" (one_of ("human" ∷ "timeout" ∷ "system" ∷ []))
      (member optional "reason" any_text (member required "duration_ms" count done)))

abbrev pub step_types : List String
step_types = "llm_call" ∷ "tool_call" ∷ "retrieval" ∷ "code_execution" ∷ "handoff" ∷ "other" ∷ []

abbrev pub step_executed : Check
step_executed = core "step_executed" (
    member required "step_id" text (
      member required "step_index" count (
        member required "step_type" (one_of step_types) (
          member optional "tool_name" text (
            member optional "model" text (
              member optional "tokens_in" count (
                member optional "tokens_out" count (
                  member required "latency_ms" count (
                    member required "status" (one_of ("ok" ∷ "error" ∷ "timeout" ∷ [])) (
                      member optional "error" error_info
                        (member optional "retry_of_step_id" text done)))))))))))

abbrev pub handoff_reasons : List String
handoff_reasons =
    "approval_required" ∷ "low_confidence" ∷ "error" ∷ "policy" ∷ "clarification" ∷ "user_request"
    ∷ []

abbrev pub handoff_to_human : Check
handoff_to_human = core "handoff_to_human" (
    member required "handoff_id" text (
      member required "reason" (one_of handoff_reasons)
        (member required "blocking" boolean (member optional "context_ref" text done))))

abbrev pub human_approved : Check
human_approved =
    core "human_approved"
      (member required "handoff_id" text (member required "response_latency_ms" count done))

abbrev pub human_edited : Check
human_edited = core "human_edited" (
    member optional "handoff_id" text (
      member required "artifact_type" text (
        member optional "edit_magnitude"
          (object (
            member required "unit" (one_of ("chars" ∷ "tokens" ∷ "lines" ∷ []))
              (member required "value" count done)))
          done)))

abbrev pub human_overrode : Check
human_overrode = core "human_overrode" (
    member optional "handoff_id" text
      (member optional "takeover_step_id" text (member optional "reason" any_text done)))

abbrev pub feedback_given : Check
feedback_given = core "feedback_given" (
    member required "rating"
      (object (
        member required "kind" (one_of ("binary" ∷ "scale" ∷ []))
          (member required "value" number done)))
      (member required "source" (one_of ("end_user" ∷ "operator" ∷ []))
        (member optional "comment_ref" text done)))

unfoldable pub core_events : List (String × Check)
core_events =
    ("task_started", task_started)
    ∷ ("task_completed", task_completed)
    ∷ ("task_failed", task_failed)
    ∷ ("task_abandoned", task_abandoned)
    ∷ ("step_executed", step_executed)
    ∷ ("handoff_to_human", handoff_to_human)
    ∷ ("human_approved", human_approved)
    ∷ ("human_edited", human_edited)
    ∷ ("human_overrode", human_overrode)
    ∷ ("feedback_given", feedback_given)
    ∷ []

-- The names of `core_events`, in their order.
unfoldable pub toqar_event_names : List String
toqar_event_names =
    "task_started" ∷ "task_completed" ∷ "task_failed" ∷ "task_abandoned" ∷ "step_executed"
    ∷ "handoff_to_human" ∷ "human_approved" ∷ "human_edited" ∷ "human_overrode" ∷ "feedback_given"
    ∷ []

-- What `safeParse` gives.
pub data Parsed : Type 0 where
  accepted : Value → Parsed
  rejected : List Issue → Parsed

abbrev pub safe_parsed : List Issue → Value → Parsed
safe_parsed [] v = accepted v
safe_parsed (i ∷ is) v = rejected (i ∷ is)

-- `discriminatedUnion`: the schema is chosen by the text under `event`.
abbrev pub chosen : Option Value → Option Check
chosen (some (str name)) = map_get core_events name
chosen found = none

module _ (formats : Formats) where
  abbrev pub parse_with : Check → Value → Parsed
  parse_with c v = safe_parsed (issues formats c [] v) (cleaned c v)

  abbrev pub parse_chosen : Option Check → Value → Parsed
  parse_chosen none v = rejected (complain ("event" ∷ []) bad_event)
  parse_chosen (some c) v = parse_with c v

  unfoldable pub parse_event : Value → Parsed
  parse_event (obj fs) = parse_chosen (chosen (map_get (fields fs) "event")) (obj fs)
  parse_event v = rejected (complain [] wrong_type)
