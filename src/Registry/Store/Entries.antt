-- ===== src/Registry/Store/Entries.antt =====
-- packages/registry-service/src/store.ts: the registry's entries and the application of tracking
-- plans. The order of the database, the digest of the entries and zod's date check are parameters.
pub mod Writes
pub mod Items
pub mod Effects
pub mod Plans
pub mod PutGet
pub mod Removals
pub mod Application
pub mod Acceptance
use toqar.Common.{
  first, ℕ, String, Bool, true, false, Option, none, some, List, [], ◌∷◌, ◌≡◌, ◌==◌, if◌then◌else◌,
  length, not,
}
use toqar.Common.Options.{all_some}
use toqar.Json.{Value, null}
use toqar.Registry.Schema.{
  Status, deprecated, RegistryEntry, parse_entry, entry_json, PlannedEvent, Removal, TrackingPlan,
  parse_plan,
}
use toqar.Registry.Table.{select, upsert}
use toqar.Registry.Store.{
  EntryRow, Db, Operation, put, add, modify, remove, Error, validation, conflict, Conflict,
  stale_fingerprint, added_exists, modified_missing, removed_missing, Tx, ok, err, ◌>>=◌, ◌>>◌,
  pure, throw, read, write, parsed, audit,
}

pub record Services : Type 0 where
  -- `ORDER BY event`.
  pub by_event : List EntryRow → List EntryRow
  -- `fp_` and the digits of the SHA-256 of the entries' JSON.
  pub digest : List RegistryEntry → String
  -- `z.string().datetime({ offset: true })`.
  pub is_datetime : String → Bool

pub record ApplyResult : Type 0 where
  pub added : ℕ
  pub modified : ℕ
  pub removed : ℕ

abbrev pub entry_or_null : Option RegistryEntry → Value
entry_or_null none = null
entry_or_null (some e) = entry_json e

abbrev pub parse_found : Option EntryRow → Tx (Option RegistryEntry)
parse_found none = pure none
parse_found (some r) = do e ← parsed (parse_entry r.entry); pure (some e)

unfoldable pub get_entry_via : String → String → Tx (Option RegistryEntry)
get_entry_via tenant event = do
  row ← read (λ db. first (select tenant (λ r. r.event == event) db.entries))
  parse_found row

unfoldable pub write_entry : String → RegistryEntry → Tx (Unit {0})
write_entry tenant entry = write (λ db. record db {
  entries =
      upsert tenant (λ r. r.event == entry.event)
        (record { event = entry.event; entry = entry_json entry })
        (λ r. record r { entry = entry_json entry }) db.entries;
})

unfoldable pub put_entry : String → Value → String → Tx RegistryEntry
put_entry tenant value actor = do
  entry ← parsed (parse_entry value)
  before ← get_entry_via tenant entry.event
  write_entry tenant entry
  audit tenant actor put entry.event (entry_or_null before) (entry_json entry)
  pure entry

abbrev pub expect_none : Error → Option RegistryEntry → Tx (Unit {0})
expect_none e none = pure tt
expect_none e (some found) = throw e

abbrev pub expect_some : Error → Option RegistryEntry → Tx RegistryEntry
expect_some e none = throw e
expect_some e (some found) = pure found

-- `for (const x of xs) …`.
unfoldable pub each : {A : Type 0} → (A → Tx (Unit {0})) → List A → Tx (Unit {0})
each f [] = pure tt
each f (x ∷ xs) = do f x; each f xs

module _ (tenant actor : String) where
  unfoldable pub apply_added : PlannedEvent → Tx (Unit {0})
  apply_added planned = do
    existing ← get_entry_via tenant planned.entry.event
    expect_none (conflict (added_exists planned.entry.event)) existing
    entry ← parsed (parse_entry (entry_json planned.entry))
    write_entry tenant entry
    audit tenant actor add entry.event null (entry_json entry)

  unfoldable pub apply_modified : PlannedEvent → Tx (Unit {0})
  apply_modified planned = do
    existing ← get_entry_via tenant planned.entry.event
    before ← expect_some (conflict (modified_missing planned.entry.event)) existing
    entry ← parsed (parse_entry (entry_json planned.entry))
    write_entry tenant entry
    audit tenant actor modify entry.event (entry_json before) (entry_json entry)

  unfoldable pub apply_removed : Removal → Tx (Unit {0})
  apply_removed removal = do
    existing ← get_entry_via tenant removal.event
    before ← expect_some (conflict (removed_missing removal.event)) existing
    write_entry tenant (record before { status = deprecated })
    audit tenant actor remove removal.event (entry_json before)
        (entry_json (record before { status = deprecated }))

abbrev pub expect_fresh : String → String → Tx (Unit {0})
expect_fresh planned current =
    if planned == current then pure tt else throw (conflict (stale_fingerprint planned current))

module _ (services : Services) where
  unfoldable pub list_entries_via : String → Tx (List RegistryEntry)
  list_entries_via tenant = do
    rows ← read (λ db. services.by_event (select tenant (λ r. true) db.entries))
    parsed (all_some (λ r. parse_entry r.entry) rows)

  unfoldable pub fingerprint_via : String → Tx String
  fingerprint_via tenant = do entries ← list_entries_via tenant; pure (services.digest entries)

  unfoldable pub apply_plan : String → Value → String → String → Tx ApplyResult
  apply_plan tenant plan_value fingerprint actor = do
    plan ← parsed (parse_plan services.is_datetime plan_value)
    current ← fingerprint_via tenant
    expect_fresh fingerprint current
    each (apply_added tenant actor) plan.added
    each (apply_modified tenant actor) plan.modified
    each (apply_removed tenant actor) plan.removed
    pure (record {
      added = length plan.added;
      modified = length plan.modified;
      removed = length plan.removed;
    })
