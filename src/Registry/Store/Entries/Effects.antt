-- ===== src/Registry/Store/Entries/Effects.antt =====
-- packages/registry-service/src/store.ts: the effect of writes of entries, as one function on what
-- the tenant has stored under each event, with the growth of its audit trail.
use mathlib.Core.Path.{fun_ext}
use toqar.Common.{
  ℕ, ◌+◌, String, false, Option, none, some, [], ◌∷◌, ◌≡◌, refl, ap, ◌∙◌, ◌==◌, ◌&&◌, if◌then◌else◌,
  arith, eq_refl, length, length-append,
}
use toqar.Json.{Value}
use toqar.Registry.Schema.{deprecated, RegistryEntry, parse_entry, entry_json}
use toqar.Registry.Table.{view}
use toqar.Registry.Table.Views.{view-insert}
use toqar.Registry.Store.{Db, Operation}
use toqar.Registry.Store.Entries.Writes.{stored, stored-upsert}
use toqar.Registry.Store.Entries.Items.{changed}

-- What one tenant has under each event.
abbrev pub Registered : Type 0
Registered = String → Option Value

abbrev pub registered : String → Db → Registered
registered t db k = stored t k db.entries

abbrev pub set_at : String → Value → Registered → Registered
set_at k v reg j = if k == j then some v else reg j

abbrev pub deprecated_json : Option Value → Option Value
deprecated_json none = none
deprecated_json (some v) = elim (parse_entry v) [
  | none ↦ some v
  | some e ↦ some (entry_json (record e { status = deprecated }))
]

abbrev pub deprecate_at : String → Registered → Registered
deprecate_at k reg j = if k == j then deprecated_json (reg j) else reg j

-- The tenant's entries change by `f`, its audit trail grows by `n` records, and nothing of another
-- tenant or of another table changes.
pub record Effect (t : String) (n : ℕ) (f : Registered → Registered) (db db' : Db) : Type 0 where
  pub entries : registered t db' ≡ f (registered t db)
  pub audited : length (view t db'.audit_log) ≡ length (view t db.audit_log) + n
  pub apart :
      (u : String)
      → (t == u) ≡ false
      → (registered u db' ≡ registered u db) × (view u db'.audit_log ≡ view u db.audit_log)
  pub rest : db' ≡ record db { entries = db'.entries; audit_log = db'.audit_log }

pub Effect-refl : (t : String) (db : Db) → Effect t 0 (λ reg. reg) db db
Effect-refl t db = record {
  entries = refl;
  audited = omega arith;
  apart = λ u h. (refl, refl);
  rest = refl;
}

pub Effect-trans :
    (t : String) (n m k : ℕ) (f g : Registered → Registered) (db mid db' : Db)
    → n + m ≡ k
    → Effect t n f db mid
    → Effect t m g mid db'
    → Effect t k (λ reg. g (f reg)) db db'
Effect-trans t n m k f g db mid db' total x y = record {
  entries = y.entries ∙ ap g x.entries;
  audited = omega (arith, x.audited, y.audited);
  apart = λ u h. ((y.apart u h).0 ∙ (x.apart u h).0, (y.apart u h).1 ∙ (x.apart u h).1);
  rest =
      y.rest
      ∙ ap (λ (d : Db). record d { entries = db'.entries; audit_log = db'.audit_log }) x.rest;
}

stored-changed :
    (t a : String) (op : Operation) (ev : String) (b : Value) (e : RegistryEntry) (db : Db)
    (u k : String)
    → stored u k (changed t a op ev b e db).entries
      ≡ (if (t == u) && (e.event == k) then some (entry_json e) else stored u k db.entries)
unfolding changed
stored-changed t a op ev b e db u k = stored-upsert t u e.event k (entry_json e) db.entries

pub changed-Effect :
    (t a : String) (op : Operation) (ev : String) (b : Value) (e : RegistryEntry) (db : Db)
    → Effect t 1 (set_at e.event (entry_json e)) db (changed t a op ev b e db)
unfolding changed
changed-Effect t a op ev b e db = record {
  entries = fun_ext (λ k. stored-upsert t t e.event k (entry_json e) db.entries ∙ simp (eq_refl));
  audited = ground (
    arith,
    view-insert t t
        (record { actor = a; operation = op; event = ev; before = b; after = entry_json e })
        db.audit_log,
    eq_refl t,
    length-append (view t db.audit_log)
        (record { actor = a; operation = op; event = ev; before = b; after = entry_json e } ∷ []),
  );
  apart = λ u h. (
    fun_ext (λ k. stored-upsert t u e.event k (entry_json e) db.entries ∙ simp h),
    view-insert u t _ db.audit_log ∙ simp h,
  );
  rest = refl;
}
