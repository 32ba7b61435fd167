-- ===== src/Cli/Diff.antt =====
-- packages/cli/src/diff.ts: the difference between the registry file and the backend, as a plan.
-- Entries are what the schema's parser returns, so `JSON.stringify` writes their fields in one order,
-- and two texts are equal just where all fields are.
pub mod Lookup
pub mod Steps
pub mod Merging
pub mod Convergence
pub mod Settled
mod Tests
use toqar.Common.{
  ℕ, ◌+◌, String, Bool, true, false, Option, none, some, List, [], ◌∷◌, ◌==◌, ◌&&◌, not,
  if◌then◌else◌, map, filter, length, eqb,
}
use toqar.Registry.Schema.{
  Status, proposed, active, deprecated, status_text, RegistryEntry, PlannedEvent, Removal,
  TrackingPlan,
}

-- `new Map(entries.map((e) => [e.event, e]))` and `get`: of two entries for one event the later
-- counts.
unfoldable pub by_event : List RegistryEntry → String → Option RegistryEntry
by_event [] event = none
by_event (e ∷ es) event = elim (by_event es event) [
  | some found ↦ some found
  | none ↦ if e.event == event then some e else none
]

abbrev pub has_event : List RegistryEntry → String → Bool
has_event es event = elim (by_event es event) [ none ↦ false | some e ↦ true ]

abbrev pub same_optional : Option String → Option String → Bool
same_optional none none = true
same_optional none (some t) = false
same_optional (some s) none = false
same_optional (some s) (some t) = s == t

-- `JSON.stringify(a) === JSON.stringify(b)`.
unfoldable pub same_entry : RegistryEntry → RegistryEntry → Bool
same_entry a b =
    (a.event == b.event)
    && ((a.description == b.description)
        && ((a.journey == b.journey)
            && ((a.owner_metric == b.owner_metric)
                && (same_optional a.hypothesis b.hypothesis
                    && ((status_text a.status == status_text b.status)
                        && (a.since_version == b.since_version))))))

abbrev pub planned : String → RegistryEntry → PlannedEvent
planned file_path e = record {
  entry = e;
  code_locations = file_path ∷ [];
  implementation_notes = "declared in the registry-as-code file";
}

abbrev pub is_added : List RegistryEntry → RegistryEntry → Bool
is_added remote e = not (has_event remote e.event)

abbrev pub is_modified : List RegistryEntry → RegistryEntry → Bool
is_modified remote e = elim (by_event remote e.event) [
  | none ↦ false
  | some current ↦ not (same_entry current e)
]

abbrev pub is_removed : List RegistryEntry → RegistryEntry → Bool
is_removed local e = (status_text e.status == "active") && not (has_event local e.event)

abbrev pub removal : RegistryEntry → Removal
removal e = record { event = e.event; reason = "absent from the registry-as-code file" }

-- The wording of the summary is an argument; the three counts choose between its two forms.
unfoldable pub summary : (String → ℕ → ℕ → ℕ → String) → String → ℕ → ℕ → ℕ → String
summary wording repo added modified removed =
    if eqb (added + modified + removed) 0
    then "No drift between the registry file and the backend."
    else wording repo added modified removed

unfoldable pub compute_diff :
    (String → ℕ → ℕ → ℕ → String)
    → List RegistryEntry
    → List RegistryEntry
    → String
    → String
    → String
    → TrackingPlan
compute_diff wording local remote repo file_path generated_at =
    let added = map (planned file_path) (filter (is_added remote) local) in
    let modified = map (planned file_path) (filter (is_modified remote) local) in
    let removed = map removal (filter (is_removed local) remote) in
    record {
      repo = repo;
      generated_at = generated_at;
      summary = summary wording repo (length added) (length modified) (length removed);
      added = added;
      modified = modified;
      removed = removed;
    }

unfoldable pub is_empty_diff : TrackingPlan → Bool
is_empty_diff plan =
    eqb (length plan.added) 0 && (eqb (length plan.modified) 0 && eqb (length plan.removed) 0)
