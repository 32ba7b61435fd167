-- ===== src/Registry/Store/Entries/Plans.antt =====
-- packages/registry-service/src/store.ts: what a tracking plan that is applied does to the registry.
use mathlib.Core.Option.{some-injective}
use mathlib.Core.Path.{fun_ext, subst}
use toqar.Common.{
  suc, String, Option, none, some, List, [], ◌∷◌, ◌≡◌, ◌≢◌, refl, ap, ◌∙◌, sym, ◌==◌, arith, inl,
  inr, eq_iff, length, Bool-cases, Option-cases, All,
}
use toqar.Json.{Value, null}
use toqar.Registry.Schema.{
  deprecated, RegistryEntry, parse_entry, entry_json, PlannedEvent, Removal, TrackingPlan,
}
use toqar.Registry.Schema.RoundTrip.{IsEntry, parse_entry-entry_json, parse_entry-IsEntry}
use toqar.Registry.Store.{Db, add, modify, remove, Tx, ok, bind-eq-ok}
use toqar.Registry.Store.Entries.{each, apply_added, apply_modified, apply_removed}
use toqar.Registry.Store.Entries.Items.{
  changed, adding, modifying, removing, apply_added-adding, apply_modified-modifying,
  apply_removed-removing,
}
use toqar.Registry.Store.Entries.Effects.{
  Registered, registered, set_at, deprecate_at, Effect, Effect-refl, Effect-trans, changed-Effect,
}

-- Each stored entry passes the schema, and stands under its own event.
abbrev pub IsClean : Registered → Type 0
IsClean reg =
    (k : String) (v : Value)
    → reg k ≡ some v
    → (e : RegistryEntry) × (parse_entry v ≡ some e) × (e.event ≡ k)

-- A plan as a function on what is registered.
abbrev pub with_planned : List PlannedEvent → Registered → Registered
with_planned [] reg = reg
with_planned (p ∷ ps) reg = with_planned ps (set_at p.entry.event (entry_json p.entry) reg)

abbrev pub with_removed : List Removal → Registered → Registered
with_removed [] reg = reg
with_removed (r ∷ rs) reg = with_removed rs (deprecate_at r.event reg)

abbrev pub planned_registry : TrackingPlan → Registered → Registered
planned_registry plan reg =
    with_removed plan.removed (with_planned plan.modified (with_planned plan.added reg))

abbrev pub AllEntries : List PlannedEvent → Type 0
AllEntries = All (λ p. IsEntry p.entry)

adding-changed :
    (t a : String) (p : PlannedEvent) (o : Option Value) (db db' : Db)
    → adding t a p o db ≡ ok tt db'
    → (o ≡ none) × (changed t a add p.entry.event null p.entry db ≡ db')
adding-changed t a p none db db' e = ground arith
adding-changed t a p (some v) db db' e = absurd (ground arith)

modifying-changed :
    (t a : String) (p : PlannedEvent) (o : Option Value) (db db' : Db)
    → modifying t a p o db ≡ ok tt db'
    → (b : Value) × (o ≢ none) × (changed t a modify p.entry.event b p.entry db ≡ db')
modifying-changed t a p none db db' e = absurd (ground arith)
modifying-changed t a p (some v) db db' e = elim (Option-cases (parse_entry v)) [
  | inl bad ↦ absurd (ground arith)
  | inr (e', good) ↦ (entry_json e', cc, ground arith)
]

removing-changed :
    (t a : String) (r : Removal) (o : Option Value) (db db' : Db)
    → removing t a r o db ≡ ok tt db'
    → (e : RegistryEntry) × (v : Value) × (o ≡ some v)
      × (parse_entry v ≡ some e)
      × (changed t a remove r.event (entry_json e) (record e { status = deprecated }) db ≡ db')
removing-changed t a r none db db' e = absurd (ground arith)
removing-changed t a r (some v) db db' e = elim (Option-cases (parse_entry v)) [
  | inl bad ↦ absurd (ground arith)
  | inr (e', good) ↦ (e', v, refl, good, ground arith)
]

pub apply_added-Effect :
    (t a : String) (p : PlannedEvent) (db db' : Db)
    → IsEntry p.entry
    → apply_added t a p db ≡ ok tt db'
    → Effect t 1 (set_at p.entry.event (entry_json p.entry)) db db'
apply_added-Effect t a p db db' v e =
    subst (λ d. Effect t 1 (set_at p.entry.event (entry_json p.entry)) db d)
      (adding-changed t a p _ db db' (sym (apply_added-adding t a p db v) ∙ e)).1
      (changed-Effect t a add p.entry.event null p.entry db)

pub apply_modified-Effect :
    (t a : String) (p : PlannedEvent) (db db' : Db)
    → IsEntry p.entry
    → apply_modified t a p db ≡ ok tt db'
    → Effect t 1 (set_at p.entry.event (entry_json p.entry)) db db'
apply_modified-Effect t a p db db' v e =
    let (b, _, same) =
      modifying-changed t a p _ db db' (sym (apply_modified-modifying t a p db v) ∙ e) in
    subst (λ d. Effect t 1 (set_at p.entry.event (entry_json p.entry)) db d) same
      (changed-Effect t a modify p.entry.event b p.entry db)

pub each-Effect :
    (t : String) (step : PlannedEvent → Tx (Unit {0}))
    → ((p : PlannedEvent) (db db' : Db)
        → IsEntry p.entry
        → step p db ≡ ok tt db'
        → Effect t 1 (set_at p.entry.event (entry_json p.entry)) db db')
    → (ps : List PlannedEvent) (db db' : Db) → AllEntries ps
    → each step ps db ≡ ok tt db'
    → Effect t (length ps) (with_planned ps) db db'
unfolding each
each-Effect t step single [] db db' v e =
    subst (Effect t 0 (λ reg. reg) db) (ground arith) (Effect-refl t db)
each-Effect t step single (p ∷ ps) db db' (v, vs) e =
    let (_, mid, e₁, e₂) = bind-eq-ok (step p) (λ _. each step ps) db e in
    Effect-trans t 1 (length ps) (suc (length ps)) (set_at p.entry.event (entry_json p.entry))
      (with_planned ps) db mid db' (omega arith) (single p db mid v e₁)
      (each-Effect t step single ps mid db' vs e₂)

pub set_at-IsClean :
    (e : RegistryEntry) (reg : Registered)
    → IsEntry e
    → IsClean reg
    → IsClean (set_at e.event (entry_json e) reg)
set_at-IsClean e reg v c k w h = elim (Bool-cases (e.event == k)) [
  | inl same ↦
      let w-json : entry_json e ≡ w = ground arith in
      (e, rw (← w-json) (parse_entry-entry_json e v), (eq_iff _ _).0 same)
  | inr other ↦ c k w (ground arith)
]

pub with_planned-IsClean :
    (ps : List PlannedEvent) (reg : Registered)
    → AllEntries ps
    → IsClean reg
    → IsClean (with_planned ps reg)
with_planned-IsClean [] reg v c = c
with_planned-IsClean (p ∷ ps) reg (v, vs) c =
    with_planned-IsClean ps (set_at p.entry.event (entry_json p.entry) reg) vs
      (set_at-IsClean p.entry reg v c)

abbrev pub as_deprecated : RegistryEntry → RegistryEntry
as_deprecated e = record e { status = deprecated }

pub as_deprecated-IsEntry : (e : RegistryEntry) → IsEntry e → IsEntry (as_deprecated e)
as_deprecated-IsEntry e v = record {
  event = v.event;
  description = v.description;
  journey = v.journey;
  owner_metric = v.owner_metric;
  hypothesis = v.hypothesis;
  since_version = v.since_version;
}

-- To deprecate what is stored is to write the entry with another status.
deprecate_at-set_at :
    (k : String) (v : Value) (e : RegistryEntry) (reg : Registered)
    → reg k ≡ some v
    → parse_entry v ≡ some e
    → e.event ≡ k
    → set_at e.event (entry_json (as_deprecated e)) reg ≡ deprecate_at k reg
deprecate_at-set_at k v e reg h p same = fun_ext λ j. elim (Bool-cases (k == j)) [
  | inl here ↦ let there : k ≡ j = (eq_iff k j).0 here in ground arith
  | inr other ↦ ground arith
]

pub apply_removed-found :
    (t a : String) (r : Removal) (db db' : Db)
    → apply_removed t a r db ≡ ok tt db'
    → (v : Value) × (registered t db r.event ≡ some v)
apply_removed-found t a r db db' h =
    let (e, v, found, _, _) =
      removing-changed t a r _ db db' (sym (apply_removed-removing t a r db) ∙ h) in
    (v, found)

pub apply_removed-Effect :
    (t a : String) (r : Removal) (db db' : Db)
    → IsClean (registered t db)
    → apply_removed t a r db ≡ ok tt db'
    → Effect t 1 (deprecate_at r.event) db db' × IsClean (registered t db')
apply_removed-Effect t a r db db' c h =
    let (e, v, found, good, same) =
      removing-changed t a r _ db db' (sym (apply_removed-removing t a r db) ∙ h) in
    let (e', good', here) = c r.event v found in
    let one : e ≡ e' = some-injective _ _ (sym good ∙ good') in
    let there : e.event ≡ r.event = ap (λ (x : RegistryEntry). x.event) one ∙ here in
    let written =
      subst (λ d. Effect t 1 (set_at e.event (entry_json (as_deprecated e))) db d) same
        (changed-Effect t a remove r.event (entry_json e) (as_deprecated e) db) in
    let filled = as_deprecated-IsEntry e (parse_entry-IsEntry v e good) in
    (
      record {
        entries =
            written.entries ∙ deprecate_at-set_at r.event v e (registered t db) found good there;
        audited = written.audited;
        apart = written.apart;
        rest = written.rest;
      },
      subst IsClean (sym written.entries)
          (set_at-IsClean (as_deprecated e) (registered t db) filled c),
    )

pub each_removed-Effect :
    (t a : String) (rs : List Removal) (db db' : Db)
    → IsClean (registered t db)
    → each (apply_removed t a) rs db ≡ ok tt db'
    → Effect t (length rs) (with_removed rs) db db' × IsClean (registered t db')
unfolding each
each_removed-Effect t a [] db db' c e =
    let same : db ≡ db' = ground arith in
    (
      subst (Effect t 0 (λ reg. reg) db) same (Effect-refl t db),
      subst (λ d. IsClean (registered t d)) same c,
    )
each_removed-Effect t a (r ∷ rs) db db' c e =
    let (_, mid, e₁, e₂) =
      bind-eq-ok (apply_removed t a r) (λ _. each (apply_removed t a) rs) db e in
    let (x, c₁) = apply_removed-Effect t a r db mid c e₁ in
    let (y, c₂) = each_removed-Effect t a rs mid db' c₁ e₂ in
    (
      Effect-trans t 1 (length rs) (suc (length rs)) (deprecate_at r.event) (with_removed rs) db mid
          db' (omega arith) x y,
      c₂,
    )
