-- ===== src/Cli/File.antt =====
-- packages/cli/src/file.ts: the registry-as-code file. What the file system and `JSON.parse` gave is an
-- argument. One invalid entry is one problem, however many issues zod lists for it.
pub mod Accepted
pub mod Written
mod Tests
use toqar.Common.{
  ℕ, suc, String, Bool, Option, none, some, List, [], ◌∷◌, ◌++◌, map, if◌then◌else◌, map_get,
  map_set,
}
use toqar.Json.{Value, arr, items_of, as_items}
use toqar.Registry.Schema.{RegistryEntry, parse_entry, entry_json}

pub data Problem : Type 0 where
  unreadable invalid_json not_an_array : Problem
  invalid : ℕ → Problem
  duplicate : ℕ → String → ℕ → Problem

pub data Loaded : Type 0 where
  loaded : List RegistryEntry → Loaded
  rejected : List Problem → Loaded

-- What reading the file gave.
pub data Contents : Type 0 where
  no_file no_json : Contents
  json : Value → Contents

pub record Progress : Type 0 where
  pub problems : List Problem
  pub seen : List (String × ℕ)
  pub entries : List RegistryEntry

abbrev pub add_entry : ℕ → RegistryEntry → Progress → Option ℕ → Progress
add_entry i e st (some prior) = record st {
  problems = st.problems ++ duplicate i e.event prior ∷ [];
}
add_entry i e st none = record st {
  seen = map_set st.seen e.event i;
  entries = st.entries ++ e ∷ [];
}

abbrev pub add_value : ℕ → Progress → Option RegistryEntry → Progress
add_value i st none = record st { problems = st.problems ++ invalid i ∷ [] }
add_value i st (some e) = add_entry i e st (map_get st.seen e.event)

unfoldable pub load_values : ℕ → List Value → Progress → Progress
load_values i [] st = st
load_values i (v ∷ vs) st = load_values (suc i) vs (add_value i st (parse_entry v))

abbrev pub verdict : Progress → Loaded
verdict st = elim st.problems [ [] ↦ loaded st.entries | p ∷ ps ↦ rejected (p ∷ ps) ]

abbrev load_items : Option (List Value) → Loaded
load_items none = rejected (not_an_array ∷ [])
load_items (some vs) =
    verdict (load_values 0 vs (record { problems = []; seen = []; entries = [] }))

unfoldable pub load_registry_file : Contents → Loaded
load_registry_file no_file = rejected (unreadable ∷ [])
load_registry_file no_json = rejected (invalid_json ∷ [])
load_registry_file (json v) = load_items (as_items v)

-- A stable sort; `before s t` is `s.localeCompare(t) < 0`.
module _ (before : String → String → Bool) where
  unfoldable pub insert_sorted : RegistryEntry → List RegistryEntry → List RegistryEntry
  insert_sorted e [] = e ∷ []
  insert_sorted e (x ∷ xs) = if before x.event e.event then x ∷ insert_sorted e xs else e ∷ x ∷ xs

  unfoldable pub sort_by_event : List RegistryEntry → List RegistryEntry
  sort_by_event [] = []
  sort_by_event (e ∷ es) = insert_sorted e (sort_by_event es)

  -- The value whose text is written.
  unfoldable pub write_registry_file : List RegistryEntry → Value
  write_registry_file es = arr (items_of (map entry_json (sort_by_event es)))
