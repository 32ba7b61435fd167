-- ===== src/Registry/Store/Entries/Acceptance.antt =====
-- packages/registry-service/src/store.ts: `applyPlan`: which plans are applied, and the refusals.
use mathlib.Core.Path.{subst}
use toqar.Common.{
  String, false, none, some, List, [], ◌∷◌, ◌≡◌, ◌≢◌, refl, ap, ◌∙◌, sym, ◌==◌, arith, inl, inr,
  eq_refl, length, Option-cases,
}
use toqar.Json.{Value, null}
use toqar.Registry.Schema.{
  RegistryEntry, deprecated, parse_entry, entry_json, PlannedEvent, Removal, TrackingPlan,
  parse_plan,
}
use toqar.Registry.Schema.RoundTrip.{IsEntry}
use toqar.Registry.Schema.Plans.{parse_plan-IsEntry}
use toqar.Registry.Store.{
  Db, Tx, ok, err, conflict, stale_fingerprint, bind-ok, bind-err, parsed, add, modify, remove,
}
use toqar.Registry.Store.Entries.{
  each, apply_added, apply_modified, apply_removed, apply_plan, Services, ApplyResult,
  fingerprint_via, expect_fresh,
}
use toqar.Registry.Store.Entries.Items.{
  changed, apply_added-adding, apply_modified-modifying, apply_removed-removing,
}
use toqar.Registry.Store.Entries.Effects.{
  Registered, registered, set_at, deprecate_at, changed-Effect,
}
use toqar.Registry.Store.Entries.Plans.{
  IsClean, with_planned, AllEntries, apply_added-Effect, apply_modified-Effect, each-Effect,
  apply_removed-Effect, set_at-IsClean, with_planned-IsClean,
}

-- The items that can be applied one after the other: an event to add is not registered yet, one to
-- modify or to remove is.
abbrev pub CanAdd : List PlannedEvent → Registered → Type 0
CanAdd [] reg = Unit {0}
CanAdd (p ∷ ps) reg =
    (reg p.entry.event ≡ none) × CanAdd ps (set_at p.entry.event (entry_json p.entry) reg)

abbrev pub CanModify : List PlannedEvent → Registered → Type 0
CanModify [] reg = Unit {0}
CanModify (p ∷ ps) reg =
    (reg p.entry.event ≢ none) × CanModify ps (set_at p.entry.event (entry_json p.entry) reg)

abbrev pub CanRemove : List Removal → Registered → Type 0
CanRemove [] reg = Unit {0}
CanRemove (r ∷ rs) reg = (reg r.event ≢ none) × CanRemove rs (deprecate_at r.event reg)

each-step :
    {A : Type 0} (f : A → Tx (Unit {0})) (x : A) (xs : List A) (db mid db' : Db)
    → f x db ≡ ok tt mid
    → each f xs mid ≡ ok tt db'
    → each f (x ∷ xs) db ≡ ok tt db'
unfolding each
each-step f x xs db mid db' h k = bind-ok (f x) (λ _. each f xs) db tt mid h ∙ k

added-step :
    (t a : String) (p : PlannedEvent) (db : Db)
    → IsEntry p.entry
    → registered t db p.entry.event ≡ none
    → apply_added t a p db ≡ ok tt (changed t a add p.entry.event null p.entry db)
added-step t a p db v h = apply_added-adding t a p db v ∙ rw h

modified-step :
    (t a : String) (p : PlannedEvent) (db : Db) (e : RegistryEntry) (w : Value)
    → IsEntry p.entry
    → registered t db p.entry.event ≡ some w
    → parse_entry w ≡ some e
    → apply_modified t a p db ≡ ok tt (changed t a modify p.entry.event (entry_json e) p.entry db)
modified-step t a p db e w v h k = apply_modified-modifying t a p db v ∙ ground (arith, h, k)

removed-step :
    (t a : String) (r : Removal) (db : Db) (e : RegistryEntry) (w : Value)
    → registered t db r.event ≡ some w
    → parse_entry w ≡ some e
    → apply_removed t a r db
      ≡ ok tt (changed t a remove r.event (entry_json e) (record e { status = deprecated }) db)
removed-step t a r db e w h k = apply_removed-removing t a r db ∙ ground (arith, h, k)

-- What stands under an event that is registered.
found_entry :
    (reg : Registered) (k : String)
    → IsClean reg
    → reg k ≢ none
    → (w : Value) × (e : RegistryEntry) × (reg k ≡ some w) × (parse_entry w ≡ some e)
found_entry reg k c h = elim (Option-cases (reg k)) [
  | inl none' ↦ absurd (h none')
  | inr (w, is) ↦ let (e, good, _) = c k w is in (w, e, is, good)
]

each_added-ok :
    (t a : String) (ps : List PlannedEvent) (db : Db)
    → AllEntries ps
    → CanAdd ps (registered t db)
    → (db' : Db) × (each (apply_added t a) ps db ≡ ok tt db')
unfolding each
each_added-ok t a [] db v h = (db, refl)
each_added-ok t a (p ∷ ps) db (v, vs) (h, hs) =
    let mid = changed t a add p.entry.event null p.entry db in
    let effect = changed-Effect t a add p.entry.event null p.entry db in
    let (db', rest) = each_added-ok t a ps mid vs (subst (CanAdd ps) (sym effect.entries) hs) in
    (db', each-step (apply_added t a) p ps db mid db' (added-step t a p db v h) rest)

each_modified-ok :
    (t a : String) (ps : List PlannedEvent) (db : Db)
    → AllEntries ps
    → IsClean (registered t db)
    → CanModify ps (registered t db)
    → (db' : Db) × (each (apply_modified t a) ps db ≡ ok tt db')
unfolding each
each_modified-ok t a [] db v c h = (db, refl)
each_modified-ok t a (p ∷ ps) db (v, vs) c (h, hs) =
    let (w, e, found, good) = found_entry (registered t db) p.entry.event c h in
    let mid = changed t a modify p.entry.event (entry_json e) p.entry db in
    let effect = changed-Effect t a modify p.entry.event (entry_json e) p.entry db in
    let (db', rest) =
      each_modified-ok t a ps mid vs
        (subst IsClean (sym effect.entries) (set_at-IsClean p.entry (registered t db) v c))
        (subst (CanModify ps) (sym effect.entries) hs) in
    (
      db',
      each-step (apply_modified t a) p ps db mid db' (modified-step t a p db e w v found good) rest,
    )

each_removed-ok :
    (t a : String) (rs : List Removal) (db : Db)
    → IsClean (registered t db)
    → CanRemove rs (registered t db)
    → (db' : Db) × (each (apply_removed t a) rs db ≡ ok tt db')
unfolding each
each_removed-ok t a [] db c h = (db, refl)
each_removed-ok t a (r ∷ rs) db c (h, hs) =
    let (w, e, found, good) = found_entry (registered t db) r.event c h in
    let mid = changed t a remove r.event (entry_json e) (record e { status = deprecated }) db in
    let step = removed-step t a r db e w found good in
    let (effect, c') = apply_removed-Effect t a r db mid c step in
    let (db', rest) =
      each_removed-ok t a rs mid c' (subst (CanRemove rs) (sym effect.entries) hs) in
    (db', each-step (apply_removed t a) r rs db mid db' step rest)

-- The parts of an application, put together.
apply_plan-parts :
    (services : Services) (t : String) (value : Value) (fp a : String) (plan : TrackingPlan)
    (db d₁ d₂ d₃ : Db)
    → parse_plan services.is_datetime value ≡ some plan
    → fingerprint_via services t db ≡ ok fp db
    → each (apply_added t a) plan.added db ≡ ok tt d₁
    → each (apply_modified t a) plan.modified d₁ ≡ ok tt d₂
    → each (apply_removed t a) plan.removed d₂ ≡ ok tt d₃
    → apply_plan services t value fp a db
      ≡ ok
          (record {
            added = length plan.added;
            modified = length plan.modified;
            removed = length plan.removed;
          })
          d₃
unfolding apply_plan
apply_plan-parts services t value fp a plan db d₁ d₂ d₃ p f h₁ h₂ h₃ =
    bind-ok (parsed (parse_plan services.is_datetime value)) _ db plan db (rw (p, parsed))
    ∙ bind-ok (fingerprint_via services t) _ db fp db f
    ∙ bind-ok (expect_fresh fp fp) _ db tt db (rw (eq_refl fp, expect_fresh))
    ∙ bind-ok (each (apply_added t a) plan.added) _ db tt d₁ h₁
    ∙ bind-ok (each (apply_modified t a) plan.modified) _ d₁ tt d₂ h₂
    ∙ bind-ok (each (apply_removed t a) plan.removed) _ d₂ tt d₃ h₃

-- Where a tenant's stored entries pass the schema, a valid plan with the current fingerprint is
-- applied if its items can be: each event to add is not registered when its turn comes, and each
-- event to modify or to remove is.
pub apply_plan-ok :
    (services : Services) (t : String) (value : Value) (fp a : String) (plan : TrackingPlan)
    (db : Db)
    → IsClean (registered t db)
    → parse_plan services.is_datetime value ≡ some plan
    → fingerprint_via services t db ≡ ok fp db
    → CanAdd plan.added (registered t db)
    → CanModify plan.modified (with_planned plan.added (registered t db))
    → CanRemove plan.removed
        (with_planned plan.modified (with_planned plan.added (registered t db)))
    → (r : ApplyResult) × (db' : Db) × (apply_plan services t value fp a db ≡ ok r db')
apply_plan-ok services t value fp a plan db c p f ha hm hr =
    let (v, w) = parse_plan-IsEntry services.is_datetime value plan p in
    let (d₁, e₁) = each_added-ok t a plan.added db v ha in
    let x = each-Effect t (apply_added t a) (apply_added-Effect t a) plan.added db d₁ v e₁ in
    let c₁ =
      subst IsClean (sym x.entries) (with_planned-IsClean plan.added (registered t db) v c) in
    let (d₂, e₂) =
      each_modified-ok t a plan.modified d₁ w c₁
        (subst (CanModify plan.modified) (sym x.entries) hm) in
    let y =
      each-Effect t (apply_modified t a) (apply_modified-Effect t a) plan.modified d₁ d₂ w e₂ in
    let c₂ =
      subst IsClean (sym y.entries) (with_planned-IsClean plan.modified (registered t d₁) w c₁) in
    let whole = y.entries ∙ ap (with_planned plan.modified) x.entries in
    let (d₃, e₃) =
      each_removed-ok t a plan.removed d₂ c₂ (subst (CanRemove plan.removed) (sym whole) hr) in
    (_, d₃, apply_plan-parts services t value fp a plan db d₁ d₂ d₃ p f e₁ e₂ e₃)

-- A valid plan that was computed against another fingerprint than the registry's is refused with the
-- conflict that names both fingerprints, whatever its items are.
pub apply_plan-stale :
    (services : Services) (t : String) (value : Value) (fp current a : String) (plan : TrackingPlan)
    (db : Db)
    → parse_plan services.is_datetime value ≡ some plan
    → fingerprint_via services t db ≡ ok current db
    → (fp == current) ≡ false
    → apply_plan services t value fp a db ≡ err (conflict (stale_fingerprint fp current))
unfolding apply_plan
apply_plan-stale services t value fp current a plan db p f h =
    bind-ok (parsed (parse_plan services.is_datetime value)) _ db plan db (rw (p, parsed))
    ∙ bind-ok (fingerprint_via services t) _ db current db f
    ∙ bind-err (expect_fresh fp current) _ db (conflict (stale_fingerprint fp current))
        (ground arith)
