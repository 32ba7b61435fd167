-- ===== src/Registry/Store/Tests.antt =====
-- The registry at concrete inputs: two tenants with one event, and a plan of one item of each kind.
use toqar.Common.{
  ◌≡◌, ◌≢◌, ◌==◌, refl, String, none, some, List, [], ◌∷◌, ◌&&◌, if◌then◌else◌, arith,
}
use toqar.Json.{Value, str, obj, arr, item, nil, field, end, str_items}
use toqar.Registry.Schema.{RegistryEntry, active, entry_json, parse_entry, parse_plan, TrackingPlan}
use toqar.Registry.Store.{Db, Result, ok, err}
use toqar.Common.{Bool-cases, inl, inr, eq_iff, map_get}
use toqar.Common.Options.{all_some}
use toqar.Registry.Schema.{parse_planned, parse_removal}
use toqar.Registry.Table.{select, insert, upsert}
use toqar.Registry.Store.{audit}
use toqar.Registry.Store.Entries.Writes.{stored}
use toqar.Registry.Store.Entries.Plans.{with_planned}
use toqar.Registry.Store.Entries.{
  Services, ApplyResult, put_entry, get_entry_via, apply_plan, fingerprint_via, list_entries_via,
  each, apply_added, apply_modified, apply_removed, write_entry,
}
use toqar.Registry.Store.{empty_db}
use toqar.Registry.Store.Entries.Effects.{registered}
use toqar.Registry.Store.Entries.Plans.{IsClean}
use toqar.Registry.Store.Entries.PutGet.{in_state, get_entry_via-put_entry}
use toqar.Registry.Store.Entries.Application.{IsApplied, apply_plan-IsApplied}
use toqar.Registry.Store.Entries.Acceptance.{apply_plan-ok}

abbrev entry : String → RegistryEntry
entry event = record {
  event = event;
  description = "a message was sent";
  journey = "lead_outreach";
  owner_metric = "task_success_rate";
  hypothesis = none;
  status = active;
  since_version = "1.0";
}

abbrev db : Db
db = record empty_db {
  entries =
      ("t1", record { event = "sent"; entry = entry_json (entry "sent") })
      ∷ ("t2", record { event = "sent"; entry = entry_json (entry "sent") })
      ∷ [];
}

-- A digest that tells registries of different length apart.
abbrev digest_from : String → List RegistryEntry → String
digest_from seen [] = seen
digest_from seen (e ∷ es) = digest_from (if seen == "fp_0" then "fp_1" else "fp_2") es

abbrev services : Services
services = record {
  by_event = λ rows. rows;
  digest = digest_from "fp_0";
  is_datetime = λ s. s == "2026-01-01T00:00:00Z";
}

abbrev new_entry : String → RegistryEntry
new_entry event = record (entry event) { description = "a reply came"; since_version = "1.1" }

abbrev planned : String → Value
planned event = obj (
    field "event" (str event) (
      field "description" (str "a reply came") (
        field "journey" (str "lead_outreach") (
          field "owner_metric" (str "task_success_rate") (
            field "status" (str "active") (
              field "since_version" (str "1.1") (
                field "code_locations" (str_items ("src/a.ts:1" ∷ []))
                  (field "implementation_notes" (str "emit once") end))))))))

abbrev plan_value : Value
plan_value = obj (
    field "repo" (str "acme/app") (
      field "generated_at" (str "2026-01-01T00:00:00Z") (
        field "summary" (str "one of each") (
          field "added" (arr (item (planned "answered") nil)) (
            field "modified" (arr (item (planned "sent") nil)) (
              field "removed"
                (arr (
                  item (obj (field "event" (str "answered") (field "reason" (str "noise") end)))
                    nil))
                end))))))

abbrev state_after : {A : Type 0} → Result A → Db
state_after (ok r d) = d
state_after (err e) = empty_db

abbrev counts : ApplyResult
counts = record { added = 1; modified = 1; removed = 1 }

abbrev after : Db
after = state_after (apply_plan services "t1" plan_value "fp_1" "ada" db)

applied : apply_plan services "t1" plan_value "fp_1" "ada" db ≡ ok counts after
unfolding apply_plan fingerprint_via list_entries_via all_some parse_plan parse_planned
    parse_removal parse_entry entry_json map_get select each apply_added apply_modified
    apply_removed get_entry_via write_entry upsert audit insert
applied = refl

sent_parses : parse_entry (entry_json (entry "sent")) ≡ some (entry "sent")
unfolding parse_entry entry_json map_get
sent_parses = refl

db-IsClean : IsClean (registered "t1" db)
unfolding stored select
db-IsClean k v h = elim (Bool-cases ("sent" == k)) [
  | inl same ↦
      let found : entry_json (entry "sent") ≡ v = ground arith in
      (entry "sent", rw (← found) sent_parses, (eq_iff _ _).0 same)
  | inr other ↦ absurd (ground arith)
]

apply_plan-IsApplied_example : IsApplied services "t1" plan_value "fp_1" db after counts
apply_plan-IsApplied_example =
    apply_plan-IsApplied services "t1" plan_value "fp_1" "ada" db after counts db-IsClean applied

abbrev plan : TrackingPlan
plan = record {
  repo = "acme/app";
  generated_at = "2026-01-01T00:00:00Z";
  summary = "one of each";
  added =
      record {
        entry = new_entry "answered";
        code_locations = "src/a.ts:1" ∷ [];
        implementation_notes = "emit once";
      }
      ∷ [];
  modified =
      record {
        entry = new_entry "sent";
        code_locations = "src/a.ts:1" ∷ [];
        implementation_notes = "emit once";
      }
      ∷ [];
  removed = record { event = "answered"; reason = "noise" } ∷ [];
}

plan_parses : parse_plan services.is_datetime plan_value ≡ some plan
unfolding parse_plan parse_planned parse_removal parse_entry all_some map_get
plan_parses = refl

current : fingerprint_via services "t1" db ≡ ok "fp_1" db
unfolding fingerprint_via list_entries_via all_some parse_entry entry_json map_get select
current = refl

answered_free : registered "t1" db "answered" ≡ none
unfolding stored select
answered_free = refl

sent_taken : with_planned plan.added (registered "t1" db) "sent" ≢ none
unfolding stored select
sent_taken e = cc

answered_taken :
    with_planned plan.modified (with_planned plan.added (registered "t1" db)) "answered" ≢ none
answered_taken e = cc

apply_plan-ok_example :
    (r : ApplyResult) × (db' : Db) × (apply_plan services "t1" plan_value "fp_1" "ada" db
      ≡ ok r db')
apply_plan-ok_example =
    apply_plan-ok services "t1" plan_value "fp_1" "ada" plan db db-IsClean plan_parses current
      (answered_free, tt) (sent_taken, tt) (answered_taken, tt)

abbrev put_after : Db
put_after = state_after (put_entry "t1" (entry_json (entry "sent")) "ada" db)

put_done : put_entry "t1" (entry_json (entry "sent")) "ada" db ≡ ok (entry "sent") put_after
unfolding put_entry parse_entry entry_json map_get select get_entry_via write_entry upsert audit
    insert
put_done = refl

get_entry_via-put_entry_example : get_entry_via "t1" "sent" put_after ≡ (
    if ("t1" == "t1") && ("sent" == "sent")
    then ok (some (entry "sent")) put_after
    else in_state put_after (get_entry_via "t1" "sent" db))
get_entry_via-put_entry_example =
    get_entry_via-put_entry "t1" "ada" "t1" "sent" (entry_json (entry "sent")) (entry "sent") db
      put_after put_done
