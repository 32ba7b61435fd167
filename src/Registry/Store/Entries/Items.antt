-- ===== src/Registry/Store/Entries/Items.antt =====
-- packages/registry-service/src/store.ts: each item of a tracking plan, on every branch.
use toqar.Common.{String, Option, none, some, ◌≡◌, ◌==◌, arith}
use toqar.Json.{Value, null}
use toqar.Registry.Schema.{
  deprecated, RegistryEntry, parse_entry, entry_json, PlannedEvent, Removal,
}
use toqar.Registry.Schema.RoundTrip.{IsEntry, parse_entry-entry_json}
use toqar.Registry.Table.{upsert, insert}
use toqar.Registry.Store.{
  Db, Operation, put, add, modify, remove, validation, conflict, added_exists, modified_missing,
  removed_missing, Result, ok, err, audit,
}
use toqar.Registry.Store.Entries.{
  get_entry_via, write_entry, put_entry, apply_added, apply_modified, apply_removed,
}
use toqar.Registry.Store.Entries.Writes.{stored}

-- The state after an entry was written and the write was audited.
unfoldable pub changed : String → String → Operation → String → Value → RegistryEntry → Db → Db
changed tenant actor operation event before entry db = record db {
  entries =
      upsert tenant (λ r. r.event == entry.event)
        (record { event = entry.event; entry = entry_json entry })
        (λ r. record r { entry = entry_json entry }) db.entries;
  audit_log =
      insert tenant
        (record {
          actor = actor;
          operation = operation;
          event = event;
          before = before;
          after = entry_json entry;
        })
        db.audit_log;
}

-- A read of what is stored: it changes nothing, and fails on what the schema refuses.
abbrev pub reading : Option Value → Db → Result (Option RegistryEntry)
reading none db = ok none db
reading (some v) db = elim (parse_entry v) [ none ↦ err validation | some e ↦ ok (some e) db ]

pub get_entry_via-reading :
    (t k : String) (db : Db) → get_entry_via t k db ≡ reading (stored t k db.entries) db
unfolding get_entry_via stored
get_entry_via-reading t k db = ground arith

-- The three items, over the JSON that is stored under their event.
abbrev pub adding : String → String → PlannedEvent → Option Value → Db → Result (Unit {0})
adding t a p none db = ok tt (changed t a add p.entry.event null p.entry db)
adding t a p (some v) db = elim (parse_entry v) [
  | none ↦ err validation
  | some e ↦ err (conflict (added_exists p.entry.event))
]

abbrev pub modifying : String → String → PlannedEvent → Option Value → Db → Result (Unit {0})
modifying t a p none db = err (conflict (modified_missing p.entry.event))
modifying t a p (some v) db = elim (parse_entry v) [
  | none ↦ err validation
  | some e ↦ ok tt (changed t a modify p.entry.event (entry_json e) p.entry db)
]

abbrev pub removing : String → String → Removal → Option Value → Db → Result (Unit {0})
removing t a r none db = err (conflict (removed_missing r.event))
removing t a r (some v) db = elim (parse_entry v) [
  | none ↦ err validation
  | some e ↦ ok tt (changed t a remove r.event (entry_json e) (record e { status = deprecated }) db)
]

pub apply_added-adding :
    (t a : String) (p : PlannedEvent) (db : Db)
    → IsEntry p.entry
    → apply_added t a p db ≡ adding t a p (stored t p.entry.event db.entries) db
unfolding apply_added changed write_entry audit
apply_added-adding t a p db v =
    ground (arith, get_entry_via-reading t p.entry.event db, parse_entry-entry_json p.entry v)

pub apply_modified-modifying :
    (t a : String) (p : PlannedEvent) (db : Db)
    → IsEntry p.entry
    → apply_modified t a p db ≡ modifying t a p (stored t p.entry.event db.entries) db
unfolding apply_modified changed write_entry audit
apply_modified-modifying t a p db v =
    ground (arith, get_entry_via-reading t p.entry.event db, parse_entry-entry_json p.entry v)

pub apply_removed-removing :
    (t a : String) (r : Removal) (db : Db)
    → apply_removed t a r db ≡ removing t a r (stored t r.event db.entries) db
unfolding apply_removed changed write_entry audit
apply_removed-removing t a r db = ground (arith, get_entry_via-reading t r.event db)

-- `putEntry`: the entry is validated, what was stored is read, and the write is audited with it.
abbrev pub putting : String → String → RegistryEntry → Option Value → Db → Result RegistryEntry
putting t a e none db = ok e (changed t a put e.event null e db)
putting t a e (some v) db = elim (parse_entry v) [
  | none ↦ err validation
  | some before ↦ ok e (changed t a put e.event (entry_json before) e db)
]

pub put_entry-putting :
    (t a : String) (value : Value) (e : RegistryEntry) (db : Db)
    → parse_entry value ≡ some e
    → put_entry t value a db ≡ putting t a e (stored t e.event db.entries) db
unfolding put_entry changed write_entry audit
put_entry-putting t a value e db h = ground (arith, get_entry_via-reading t e.event db)

pub put_entry_refused :
    (t a : String) (value : Value) (db : Db)
    → parse_entry value ≡ none
    → put_entry t value a db ≡ err validation
unfolding put_entry
put_entry_refused t a value db h = ground arith
