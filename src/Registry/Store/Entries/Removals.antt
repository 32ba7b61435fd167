-- ===== src/Registry/Store/Entries/Removals.antt =====
-- packages/registry-service/src/store.ts: `applyPlan`: what its removals leave: an event that is
-- removed is marked deprecated, and none is deleted.
use mathlib.Core.Path.{subst}
use toqar.Common.{
  String, true, Option, none, some, List, [], ◌∷◌, ◌≡◌, ◌≢◌, refl, sym, ◌==◌, arith, inl, inr,
  eq_refl, Bool-cases, All,
}
use toqar.Json.{Value}
use toqar.Registry.Schema.{
  RegistryEntry, deprecated, parse_entry, entry_json, PlannedEvent, Removal, TrackingPlan,
}
use toqar.Registry.Schema.RoundTrip.{parse_entry-entry_json, parse_entry-IsEntry}
use toqar.Registry.Store.{Db, ok, bind-eq-ok}
use toqar.Registry.Store.Entries.{each, apply_removed}
use toqar.Registry.Store.Entries.Effects.{
  Registered, registered, set_at, deprecated_json, deprecate_at,
}
use toqar.Registry.Store.Entries.Plans.{
  IsClean, with_planned, with_removed, planned_registry, as_deprecated, as_deprecated-IsEntry,
  apply_removed-Effect, apply_removed-found, each_removed-Effect,
}

-- An event that is registered as deprecated.
pub record IsDeprecated (reg : Registered) (k : String) : Type 0 where
  pub value : Value
  pub entry : RegistryEntry
  pub found : reg k ≡ some value
  pub good : parse_entry value ≡ some entry
  pub marked : entry.status ≡ deprecated

deprecated_json-lem :
    (v : Value) (e : RegistryEntry)
    → parse_entry v ≡ some e
    → (deprecated_json (some v) ≡ some (entry_json (as_deprecated e)))
      × (parse_entry (entry_json (as_deprecated e)) ≡ some (as_deprecated e))
deprecated_json-lem v e h =
    (ground arith, parse_entry-entry_json _ (as_deprecated-IsEntry e (parse_entry-IsEntry v e h)))

deprecate_at-IsDeprecated :
    (reg : Registered) (j k : String) (v : Value) (e : RegistryEntry)
    → reg k ≡ some v
    → parse_entry v ≡ some e
    → (j == k) ≡ true
    → IsDeprecated (deprecate_at j reg) k
deprecate_at-IsDeprecated reg j k v e f g same =
    let (is, back) = deprecated_json-lem v e g in
    record {
      value = entry_json (as_deprecated e);
      entry = as_deprecated e;
      found = rw same (rw f is);
      good = back;
      marked = refl;
    }

deprecate_at-keeps :
    (reg : Registered) (j k : String) → IsDeprecated reg k → IsDeprecated (deprecate_at j reg) k
deprecate_at-keeps reg j k d = elim (Bool-cases (j == k)) [
  | inl same ↦ deprecate_at-IsDeprecated reg j k d.value d.entry d.found d.good same
  | inr other ↦ record {
    value = d.value;
    entry = d.entry;
    found = rw other d.found;
    good = d.good;
    marked = d.marked;
  }
]

with_removed-keeps :
    (rs : List Removal) (reg : Registered) (k : String)
    → IsDeprecated reg k
    → IsDeprecated (with_removed rs reg) k
with_removed-keeps [] reg k d = d
with_removed-keeps (r ∷ rs) reg k d =
    with_removed-keeps rs (deprecate_at r.event reg) k (deprecate_at-keeps reg r.event k d)

apply_removed-IsDeprecated :
    (t a : String) (r : Removal) (db mid : Db)
    → IsClean (registered t db)
    → apply_removed t a r db ≡ ok tt mid
    → IsDeprecated (registered t mid) r.event
apply_removed-IsDeprecated t a r db mid c h =
    let (v, found) = apply_removed-found t a r db mid h in
    let (e, good, _) = c r.event v found in
    let (effect, _) = apply_removed-Effect t a r db mid c h in
    subst (λ reg. IsDeprecated reg r.event) (sym effect.entries)
      (deprecate_at-IsDeprecated (registered t db) r.event r.event v e found good (eq_refl r.event))

pub each_removed-IsDeprecated :
    (t a : String) (rs : List Removal) (db db' : Db)
    → IsClean (registered t db)
    → each (apply_removed t a) rs db ≡ ok tt db'
    → All (λ r. IsDeprecated (registered t db') r.event) rs
unfolding each
each_removed-IsDeprecated t a [] db db' c h = tt
each_removed-IsDeprecated t a (r ∷ rs) db db' c h =
    let (_, mid, e₁, e₂) =
      bind-eq-ok (apply_removed t a r) (λ _. each (apply_removed t a) rs) db h in
    let (_, c₁) = apply_removed-Effect t a r db mid c e₁ in
    let (rest, _) = each_removed-Effect t a rs mid db' c₁ e₂ in
    (
      subst (λ reg. IsDeprecated reg r.event) (sym rest.entries)
          (with_removed-keeps rs (registered t mid) r.event
            (apply_removed-IsDeprecated t a r db mid c e₁)),
      each_removed-IsDeprecated t a rs mid db' c₁ e₂,
    )

-- No event that was registered is lost.
pub set_at-ne-none :
    (j k : String) (v : Value) (reg : Registered) → reg k ≢ none → set_at j v reg k ≢ none
set_at-ne-none j k v reg h e = elim (Bool-cases (j == k)) [
  | inl same ↦ ground arith
  | inr other ↦ h (ground arith)
]

deprecated_json-ne-none : (o : Option Value) → o ≢ none → deprecated_json o ≢ none
deprecated_json-ne-none none h e = h e
deprecated_json-ne-none (some v) h e = ground arith

pub deprecate_at-ne-none :
    (j k : String) (reg : Registered) → reg k ≢ none → deprecate_at j reg k ≢ none
deprecate_at-ne-none j k reg h e = elim (Bool-cases (j == k)) [
  | inl same ↦ deprecated_json-ne-none (reg k) h (ground arith)
  | inr other ↦ h (ground arith)
]

with_planned-ne-none :
    (ps : List PlannedEvent) (reg : Registered) (k : String)
    → reg k ≢ none
    → with_planned ps reg k ≢ none
with_planned-ne-none [] reg k h = h
with_planned-ne-none (p ∷ ps) reg k h =
    with_planned-ne-none ps (set_at p.entry.event (entry_json p.entry) reg) k
      (set_at-ne-none p.entry.event k (entry_json p.entry) reg h)

with_removed-ne-none :
    (rs : List Removal) (reg : Registered) (k : String)
    → reg k ≢ none
    → with_removed rs reg k ≢ none
with_removed-ne-none [] reg k h = h
with_removed-ne-none (r ∷ rs) reg k h =
    with_removed-ne-none rs (deprecate_at r.event reg) k (deprecate_at-ne-none r.event k reg h)

pub planned_registry-ne-none :
    (plan : TrackingPlan) (reg : Registered) (k : String)
    → reg k ≢ none
    → planned_registry plan reg k ≢ none
planned_registry-ne-none plan reg k h =
    with_removed-ne-none plan.removed _ k
      (with_planned-ne-none plan.modified _ k (with_planned-ne-none plan.added reg k h))
