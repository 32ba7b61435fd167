-- ===== src/Registry/Store/Entries/PutGet.antt =====
-- packages/registry-service/src/store.ts: `putEntry` against `getEntry`.
use toqar.Common.{
  String, Option, none, some, ◌≡◌, refl, ap, ◌∙◌, sym, ◌==◌, ◌&&◌, if◌then◌else◌, arith, inl, inr,
  Option-cases,
}
use mathlib.Core.Path.{subst}
use toqar.Json.{Value, null}
use toqar.Registry.Schema.{RegistryEntry, parse_entry, entry_json}
use toqar.Registry.Schema.RoundTrip.{parse_entry-entry_json, parse_entry-IsEntry}
use toqar.Registry.Store.{Db, Result, ok, err, put, ok-result, ok-state}
use toqar.Registry.Store.Entries.{put_entry, get_entry_via}
use toqar.Registry.Store.Entries.Writes.{stored, stored-upsert}
use toqar.Registry.Store.Entries.Items.{
  changed, reading, get_entry_via-reading, putting, put_entry-putting, put_entry_refused,
}

-- A read that does not touch the database, taken in another state.
abbrev pub in_state : {A : Type 0} → Db → Result A → Result A
in_state db (ok a d) = ok a db
in_state db (err e) = err e

reading-in_state : (o : Option Value) (db db' : Db) → reading o db' ≡ in_state db' (reading o db)
reading-in_state none db db' = refl
reading-in_state (some v) db db' = ground arith

-- What any read gives after the state `changed`.
get-changed :
    (t a u k ev : String) (b : Value) (e : RegistryEntry) (db : Db)
    → parse_entry (entry_json e) ≡ some e
    → get_entry_via u k (changed t a put ev b e db) ≡ (
        if (t == u) && (e.event == k)
        then ok (some e) (changed t a put ev b e db)
        else in_state (changed t a put ev b e db) (get_entry_via u k db))
unfolding changed
get-changed t a u k ev b e db h =
    get_entry_via-reading u k (changed t a put ev b e db)
    ∙ ap (λ o. reading o (changed t a put ev b e db))
        (stored-upsert t u e.event k (entry_json e) db.entries)
    ∙ ground (
      arith,
      get_entry_via-reading u k db,
      reading-in_state (stored u k db.entries) db (changed t a put ev b e db),
    )

putting-changed :
    (t a : String) (e₀ e : RegistryEntry) (o : Option Value) (db db' : Db)
    → putting t a e₀ o db ≡ ok e db'
    → (e₀ ≡ e) × (b : Value) × (changed t a put e₀.event b e₀ db ≡ db')
putting-changed t a e₀ e none db db' h = (ok-result h, null, ok-state h)
putting-changed t a e₀ e (some v) db db' h = elim (Option-cases (parse_entry v)) [
  | inl bad ↦ absurd (ground arith)
  | inr (before, good) ↦ (ground arith, entry_json before, ground arith)
]

put_entry-changed :
    (t a : String) (value : Value) (e : RegistryEntry) (db db' : Db)
    → put_entry t value a db ≡ ok e db'
    → (parse_entry value ≡ some e) × (b : Value) × (changed t a put e.event b e db ≡ db')
put_entry-changed t a value e db db' h = elim (Option-cases (parse_entry value)) [
  | inl bad ↦ absurd (ground (arith, put_entry_refused t a value db bad))
  | inr (e₀, good) ↦
      let (same, b, written) =
        putting-changed t a e₀ e _ db db' (sym (put_entry-putting t a value e₀ db good) ∙ h) in
      (
        good ∙ ap some same,
        b,
        subst (λ (x : RegistryEntry). changed t a put x.event b x db ≡ db') same written,
      )
]

-- After a put that succeeded, the tenant reads under the entry's event the entry itself; every
-- other event of the tenant, and every event of another tenant, reads as it did before.
pub get_entry_via-put_entry :
    (t a u k : String) (value : Value) (e : RegistryEntry) (db db' : Db)
    → put_entry t value a db ≡ ok e db'
    → get_entry_via u k db' ≡ (
        if (t == u) && (e.event == k) then ok (some e) db' else in_state db' (get_entry_via u k db))
get_entry_via-put_entry t a u k value e db db' h =
    let (good, b, written) = put_entry-changed t a value e db db' h in
    subst
      (λ d.
        get_entry_via u k d
        ≡ (if (t == u) && (e.event == k) then ok (some e) d else in_state d (get_entry_via u k db)))
      written
      (get-changed t a u k e.event b e db
        (parse_entry-entry_json e (parse_entry-IsEntry value e good)))
