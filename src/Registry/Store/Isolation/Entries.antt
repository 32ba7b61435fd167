-- ===== src/Registry/Store/Isolation/Entries.antt =====
-- packages/registry-service/src/store.ts: the methods on the registry's entries are scoped.
use toqar.Common.{
  String, Bool, true, false, List, [], ◌∷◌, Option, none, some, ◌==◌, if◌then◌else◌, first,
}
use toqar.Common.Options.{all_some}
use toqar.Json.{Value}
use toqar.Registry.Schema.{
  RegistryEntry, parse_entry, entry_json, PlannedEvent, Removal, parse_plan,
}
use toqar.Registry.Table.Local.{upsert-IsLocal}
use toqar.Registry.Store.{EntryRow, Error, Tx}
use toqar.Registry.Store.Entries.{
  Services, parse_found, get_entry_via, write_entry, put_entry, expect_none, expect_some, each,
  apply_added, apply_modified, apply_removed, list_entries_via, fingerprint_via, apply_plan,
}
use toqar.Registry.Store.Isolation.{
  IsScoped, pure-IsScoped, throw-IsScoped, parsed-IsScoped, bind-IsScoped, then-IsScoped,
  write-IsScoped, select-IsScoped,
}
use toqar.Registry.Store.Isolation.Tables.{entries_table, audit-IsScoped}

module _ (t : String) where
  parse_found-IsScoped : (found : Option EntryRow) → IsScoped t (parse_found found)
  parse_found-IsScoped none = pure-IsScoped t _
  parse_found-IsScoped (some r) =
      bind-IsScoped t _ _ (parsed-IsScoped t (parse_entry r.entry)) λ e. pure-IsScoped t _

  pub get_entry_via-IsScoped : (event : String) → IsScoped t (get_entry_via t event)
  unfolding get_entry_via
  get_entry_via-IsScoped event =
      bind-IsScoped t _ _ (select-IsScoped t entries_table _ first)
        λ found. parse_found-IsScoped found

  write_entry-IsScoped : (entry : RegistryEntry) → IsScoped t (write_entry t entry)
  unfolding write_entry
  write_entry-IsScoped entry = write-IsScoped t entries_table _ (upsert-IsLocal t _ _ _)

  pub put_entry-IsScoped : (value : Value) (actor : String) → IsScoped t (put_entry t value actor)
  unfolding put_entry
  put_entry-IsScoped value actor =
      bind-IsScoped t _ _ (parsed-IsScoped t (parse_entry value)) λ entry.
        bind-IsScoped t _ _ (get_entry_via-IsScoped entry.event) λ before.
          then-IsScoped t _ _ (write_entry-IsScoped entry)
            (then-IsScoped t _ _ (audit-IsScoped t actor _ _ _ _) (pure-IsScoped t _))

  expect_none-IsScoped :
      (e : Error) (found : Option RegistryEntry) → IsScoped t (expect_none e found)
  expect_none-IsScoped e none = pure-IsScoped t _
  expect_none-IsScoped e (some r) = throw-IsScoped t _ e

  expect_some-IsScoped :
      (e : Error) (found : Option RegistryEntry) → IsScoped t (expect_some e found)
  expect_some-IsScoped e none = throw-IsScoped t _ e
  expect_some-IsScoped e (some r) = pure-IsScoped t r

  each-IsScoped :
      {A : Type 0} (f : A → Tx (Unit {0}))
      → ((a : A) → IsScoped t (f a))
      → (xs : List A) → IsScoped t (each f xs)
  unfolding each
  each-IsScoped f h [] = pure-IsScoped t _
  each-IsScoped f h (x ∷ xs) = then-IsScoped t _ _ (h x) (each-IsScoped f h xs)

  module _ (actor : String) where
    apply_added-IsScoped : (planned : PlannedEvent) → IsScoped t (apply_added t actor planned)
    unfolding apply_added
    apply_added-IsScoped planned =
        bind-IsScoped t _ _ (get_entry_via-IsScoped planned.entry.event) λ existing.
          then-IsScoped t _ _ (expect_none-IsScoped _ existing) (
            bind-IsScoped t _ _ (parsed-IsScoped t (parse_entry (entry_json planned.entry)))
              λ entry.
                then-IsScoped t _ _ (write_entry-IsScoped entry) (audit-IsScoped t actor _ _ _ _))

    apply_modified-IsScoped : (planned : PlannedEvent) → IsScoped t (apply_modified t actor planned)
    unfolding apply_modified
    apply_modified-IsScoped planned =
        bind-IsScoped t _ _ (get_entry_via-IsScoped planned.entry.event) λ existing.
          bind-IsScoped t _ _ (expect_some-IsScoped _ existing) λ before.
            bind-IsScoped t _ _ (parsed-IsScoped t (parse_entry (entry_json planned.entry)))
              λ entry.
                then-IsScoped t _ _ (write_entry-IsScoped entry) (audit-IsScoped t actor _ _ _ _)

    apply_removed-IsScoped : (removal : Removal) → IsScoped t (apply_removed t actor removal)
    unfolding apply_removed
    apply_removed-IsScoped removal =
        bind-IsScoped t _ _ (get_entry_via-IsScoped removal.event) λ existing.
          bind-IsScoped t _ _ (expect_some-IsScoped _ existing)
            λ before. then-IsScoped t _ _ (write_entry-IsScoped _) (audit-IsScoped t actor _ _ _ _)

  if-IsScoped :
      {A : Type 0} (b : Bool) (m k : Tx A)
      → IsScoped t m
      → IsScoped t k
      → IsScoped t (if b then m else k)
  if-IsScoped true m k h j = h
  if-IsScoped false m k h j = j

  module _ (services : Services) where
    pub list_entries_via-IsScoped : IsScoped t (list_entries_via services t)
    unfolding list_entries_via
    list_entries_via-IsScoped =
        bind-IsScoped t _ _ (select-IsScoped t entries_table _ services.by_event)
          λ rows. parsed-IsScoped t (all_some (λ r. parse_entry r.entry) rows)

    pub fingerprint_via-IsScoped : IsScoped t (fingerprint_via services t)
    unfolding fingerprint_via
    fingerprint_via-IsScoped =
        bind-IsScoped t _ _ list_entries_via-IsScoped λ entries. pure-IsScoped t _

    pub apply_plan-IsScoped :
        (value : Value) (fingerprint actor : String)
        → IsScoped t (apply_plan services t value fingerprint actor)
    unfolding apply_plan
    apply_plan-IsScoped value fingerprint actor =
        bind-IsScoped t _ _ (parsed-IsScoped t (parse_plan services.is_datetime value)) λ plan.
          bind-IsScoped t _ _ fingerprint_via-IsScoped λ current.
            then-IsScoped t _ _
              (if-IsScoped (fingerprint == current) _ _ (pure-IsScoped t _) (throw-IsScoped t _ _))
              (then-IsScoped t _ _ (each-IsScoped _ (apply_added-IsScoped actor) plan.added) (
                then-IsScoped t _ _ (each-IsScoped _ (apply_modified-IsScoped actor) plan.modified)
                  (then-IsScoped t _ _ (each-IsScoped _ (apply_removed-IsScoped actor) plan.removed)
                    (pure-IsScoped t _))))
