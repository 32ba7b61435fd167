-- ===== src/Registry/SeamMap.antt =====
-- packages/registry/src/seam-map.ts: seams and seam maps, with the checks of their schemas.
pub mod RoundTrip
use toqar.Common.{
  String, Bool, Option, none, some, List, [], ◌∷◌, map, ◌==◌, if◌then◌else◌, includes,
}
use toqar.Common.Options.{◌>>=◌, ◌>>◌, guard, all_some}
use toqar.Json.{
  Value, str, arr, obj, Fields, end, field, prop, as_str, text, optional_text, str_items, items_of,
}
use toqar.Registry.Schema.{text_item, at_least_one, items_at}

pub record Seam : Type 0 where
  pub kind : String
  pub location : String
  pub note : Option String

pub record SeamMap : Type 0 where
  pub repo : String
  pub frameworks : List String
  pub seams : List Seam
  pub task_taxonomy : List String
  pub agent_version : String
  pub produced_at : String

abbrev pub seam_kinds : List String
seam_kinds =
    "task_start" ∷ "llm_call" ∷ "tool_call" ∷ "retrieval" ∷ "outcome" ∷ "handoff" ∷ "verification"
    ∷ []

abbrev pub kind_field : Value → Option String
kind_field v = do
  found ← prop "kind" v
  kind ← as_str found
  guard (includes seam_kinds kind)
  some kind

-- `seamSchema`.
unfoldable pub parse_seam : Value → Option Seam
parse_seam v = do
  kind ← kind_field v
  location ← text "location" v
  note ← optional_text "note" v
  some (record { kind = kind; location = location; note = note })

abbrev pub frameworks_field : Value → Option (List String)
frameworks_field v = do listed ← items_at text_item "frameworks" v; at_least_one listed

abbrev pub stamp_field : (String → Bool) → Value → Option String
stamp_field is_datetime v = do
  found ← prop "produced_at" v
  stamp ← as_str found
  guard (is_datetime stamp)
  some stamp

-- `seamMapSchema`.
unfoldable pub parse_seam_map : (String → Bool) → Value → Option SeamMap
parse_seam_map is_datetime v = do
  repo ← text "repo" v
  frameworks ← frameworks_field v
  seams ← items_at parse_seam "seams" v
  task_taxonomy ← items_at text_item "task_taxonomy" v
  agent_version ← text "agent_version" v
  produced_at ← stamp_field is_datetime v
  some (record {
    repo = repo;
    frameworks = frameworks;
    seams = seams;
    task_taxonomy = task_taxonomy;
    agent_version = agent_version;
    produced_at = produced_at;
  })

abbrev pub note_json : Option String → Fields
note_json none = end
note_json (some n) = field "note" (str n) end

unfoldable pub seam_json : Seam → Value
seam_json s = obj (field "kind" (str s.kind) (field "location" (str s.location) (note_json s.note)))

-- The object that `JSON.stringify` writes for a parsed map.
unfoldable pub seam_map_json : SeamMap → Value
seam_map_json m = obj (
    field "repo" (str m.repo) (
      field "frameworks" (str_items m.frameworks) (
        field "seams" (arr (items_of (map seam_json m.seams))) (
          field "task_taxonomy" (str_items m.task_taxonomy) (
            field "agent_version" (str m.agent_version)
              (field "produced_at" (str m.produced_at) end))))))
