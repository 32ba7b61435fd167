-- ===== src/Registry/Schema.antt =====
-- packages/registry/src/tracking-plan.ts: registry entries, planned events and tracking plans, with
-- the checks of their schemas. A parsed value is the record; unknown keys are dropped.
pub mod RoundTrip
pub mod Plans
use toqar.Common.{String, Bool, Option, none, some, List, [], ◌∷◌, map, ◌==◌, if◌then◌else◌}
use toqar.Common.Options.{◌>>=◌, ◌>>◌, guard, all_some}
use toqar.Json.{
  Value, str, arr, obj, Fields, end, field, prop, as_str, as_items, non_empty, text, optional_text,
  str_items,
}

pub data Status : Type 0 where
  proposed active deprecated : Status

pub record RegistryEntry : Type 0 where
  pub event : String
  pub description : String
  pub journey : String
  pub owner_metric : String
  pub hypothesis : Option String
  pub status : Status
  pub since_version : String

abbrev pub status_text : Status → String
status_text proposed = "proposed"
status_text active = "active"
status_text deprecated = "deprecated"

abbrev pub status_of : String → Option Status
status_of s =
    if s == "proposed"
    then some proposed
    else if s == "active"
    then some active
    else if s == "deprecated"
    then some deprecated
    else none

abbrev pub status_field : Value → Option Status
status_field v = do found ← prop "status" v; s ← as_str found; status_of s

-- `registryEntrySchema`.
unfoldable pub parse_entry : Value → Option RegistryEntry
parse_entry v = do
  event ← text "event" v
  description ← text "description" v
  journey ← text "journey" v
  owner_metric ← text "owner_metric" v
  hypothesis ← optional_text "hypothesis" v
  status ← status_field v
  since_version ← text "since_version" v
  some (record {
    event = event;
    description = description;
    journey = journey;
    owner_metric = owner_metric;
    hypothesis = hypothesis;
    status = status;
    since_version = since_version;
  })

abbrev hypothesis_json : Option String → Fields → Fields
hypothesis_json none fs = fs
hypothesis_json (some h) fs = field "hypothesis" (str h) fs

-- The object that `JSON.stringify` writes for a parsed entry.
unfoldable pub entry_json : RegistryEntry → Value
entry_json e = obj (
    field "event" (str e.event) (
      field "description" (str e.description) (
        field "journey" (str e.journey) (
          field "owner_metric" (str e.owner_metric) (
            hypothesis_json e.hypothesis (
              field "status" (str (status_text e.status))
                (field "since_version" (str e.since_version) end)))))))

pub record PlannedEvent : Type 0 where
  pub entry : RegistryEntry
  pub code_locations : List String
  pub implementation_notes : String

pub record Removal : Type 0 where
  pub event : String
  pub reason : String

pub record TrackingPlan : Type 0 where
  pub repo : String
  pub generated_at : String
  pub summary : String
  pub added : List PlannedEvent
  pub modified : List PlannedEvent
  pub removed : List Removal

abbrev pub text_item : Value → Option String
text_item v = do s ← as_str v; non_empty s

abbrev pub at_least_one {ℓ} : {A : Type ℓ} → List A → Option (List A)
at_least_one [] = none
at_least_one (x ∷ xs) = some (x ∷ xs)

-- `plannedEventSchema`.
unfoldable pub parse_planned : Value → Option PlannedEvent
unfolding all_some
parse_planned v = do
  entry ← parse_entry v
  listed ← prop "code_locations" v
  values ← as_items listed
  locations ← all_some text_item values
  code_locations ← at_least_one locations
  notes ← text "implementation_notes" v
  some (record { entry = entry; code_locations = code_locations; implementation_notes = notes })

unfoldable pub parse_removal : Value → Option Removal
parse_removal v = do
  event ← text "event" v
  reason ← text "reason" v
  some (record { event = event; reason = reason })

abbrev pub items_at : {A : Type 0} → (Value → Option A) → String → Value → Option (List A)
items_at f k v = do found ← prop k v; values ← as_items found; all_some f values

-- `trackingPlanSchema`; what counts as a date and time is zod's.
unfoldable pub parse_plan : (String → Bool) → Value → Option TrackingPlan
parse_plan is_datetime v = do
  repo ← text "repo" v
  stamp ← prop "generated_at" v
  generated_at ← as_str stamp
  guard (is_datetime generated_at)
  summary ← text "summary" v
  added ← items_at parse_planned "added" v
  modified ← items_at parse_planned "modified" v
  removed ← items_at parse_removal "removed" v
  some (record {
    repo = repo;
    generated_at = generated_at;
    summary = summary;
    added = added;
    modified = modified;
    removed = removed;
  })
