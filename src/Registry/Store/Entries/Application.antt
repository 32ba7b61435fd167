-- ===== src/Registry/Store/Entries/Application.antt =====
-- packages/registry-service/src/store.ts: `applyPlan` as a whole: what a plan that is applied has
-- done, which plans are applied, and the stale fingerprint.
use mathlib.Core.Path.{subst}
use toqar.Common.{
  ◌+◌, String, Option, none, some, ◌≡◌, ◌≢◌, refl, ap, ◌∙◌, sym, ◌==◌, arith, inl, inr, eq_iff,
  length, Bool-cases, All,
}
use toqar.Json.{Value}
use toqar.Registry.Schema.{TrackingPlan, parse_plan}
use toqar.Registry.Schema.Plans.{parse_plan-IsEntry}
use toqar.Registry.Store.{Db, ok, bind-eq-ok, ok-result, ok-state, parsed}
use toqar.Registry.Store.Entries.{
  each, apply_added, apply_modified, apply_removed, apply_plan, Services, ApplyResult,
  fingerprint_via, list_entries_via, expect_fresh,
}
use toqar.Registry.Store.Entries.Effects.{Registered, registered, Effect, Effect-trans}
use toqar.Registry.Store.Entries.Plans.{
  IsClean, with_planned, with_removed, planned_registry, AllEntries, apply_added-Effect,
  apply_modified-Effect, each-Effect, each_removed-Effect, with_planned-IsClean,
}
use toqar.Registry.Store.Entries.Removals.{
  IsDeprecated, each_removed-IsDeprecated, planned_registry-ne-none,
}

fingerprint_via_state :
    (services : Services) (t : String) (db mid : Db) (fp : String)
    → fingerprint_via services t db ≡ ok fp mid
    → db ≡ mid
unfolding fingerprint_via list_entries_via
fingerprint_via_state services t db mid fp e = ground arith

parsed-ok :
    {A : Type 0} (o : Option A) (db mid : Db) (a : A)
    → parsed o db ≡ ok a mid
    → (o ≡ some a) × (db ≡ mid)
parsed-ok none db mid a e = cc
parsed-ok (some b) db mid a e = ground arith

expect_fresh-ok :
    (planned current : String) (db mid : Db)
    → expect_fresh planned current db ≡ ok tt mid
    → (planned ≡ current) × (db ≡ mid)
expect_fresh-ok planned current db mid e = elim (Bool-cases (planned == current)) [
  | inl same ↦ ((eq_iff _ _).0 same, ground arith)
  | inr other ↦ absurd (ground arith)
]

-- A plan that was applied: the schema accepted it, the fingerprint was that of the registry, the
-- tenant's registry has become what the plan says, one audit record was written for each item, no
-- other tenant and no other table changed, the result counts the items, every stored entry still
-- passes the schema, no registered event was lost, and each removed event is marked deprecated.
pub record IsApplied (services : Services) (t : String) (value : Value) (fp : String) (db db' : Db)
    (r : ApplyResult) : Type 0 where
  pub plan : TrackingPlan
  pub accepted : parse_plan services.is_datetime value ≡ some plan
  pub fresh : fingerprint_via services t db ≡ ok fp db
  pub effect : Effect t (r.added + r.modified + r.removed) (planned_registry plan) db db'
  pub clean : IsClean (registered t db')
  pub counted :
      (r.added ≡ length plan.added)
      × (r.modified ≡ length plan.modified)
      × (r.removed ≡ length plan.removed)
  pub kept : (k : String) → registered t db k ≢ none → registered t db' k ≢ none
  pub deprecated : All (λ q. IsDeprecated (registered t db') q.event) plan.removed

loops_Effect :
    (t a : String) (plan : TrackingPlan) (db mid₁ mid₂ db' : Db)
    → AllEntries plan.added × AllEntries plan.modified
    → IsClean (registered t db)
    → each (apply_added t a) plan.added db ≡ ok tt mid₁
    → each (apply_modified t a) plan.modified mid₁ ≡ ok tt mid₂
    → each (apply_removed t a) plan.removed mid₂ ≡ ok tt db'
    → Effect t
        (length plan.added + length plan.modified + length plan.removed)
        (planned_registry plan)
        db
        db'
      × IsClean (registered t db')
      × IsClean (registered t mid₂)
loops_Effect t a plan db mid₁ mid₂ db' (v, w) c e₁ e₂ e₃ =
    let x = each-Effect t (apply_added t a) (apply_added-Effect t a) plan.added db mid₁ v e₁ in
    let c₁ =
      subst IsClean (sym x.entries) (with_planned-IsClean plan.added (registered t db) v c) in
    let y =
      each-Effect t (apply_modified t a) (apply_modified-Effect t a) plan.modified mid₁ mid₂ w e₂ in
    let c₂ =
      subst IsClean (sym y.entries) (with_planned-IsClean plan.modified (registered t mid₁) w c₁) in
    let (z, c₃) = each_removed-Effect t a plan.removed mid₂ db' c₂ e₃ in
    (
      Effect-trans t (length plan.added + length plan.modified) (length plan.removed)
          (length plan.added + length plan.modified + length plan.removed)
          (λ reg. with_planned plan.modified (with_planned plan.added reg))
          (with_removed plan.removed) db mid₂ db' refl
          (Effect-trans t (length plan.added) (length plan.modified)
            (length plan.added + length plan.modified) (with_planned plan.added)
            (with_planned plan.modified) db mid₁ mid₂ refl x y)
          z,
      c₃,
      c₂,
    )

-- The parts of an application that went through.
record Passed (services : Services) (t : String) (value : Value) (fp a : String) (db db' : Db)
    (r : ApplyResult) : Type 0 where
  pub plan : TrackingPlan
  pub accepted : parse_plan services.is_datetime value ≡ some plan
  pub fresh : fingerprint_via services t db ≡ ok fp db
  pub after_added : Db
  pub after_modified : Db
  pub added : each (apply_added t a) plan.added db ≡ ok tt after_added
  pub modified : each (apply_modified t a) plan.modified after_added ≡ ok tt after_modified
  pub removed : each (apply_removed t a) plan.removed after_modified ≡ ok tt db'
  pub counts : r ≡ record {
    added = length plan.added;
    modified = length plan.modified;
    removed = length plan.removed;
  }

apply_plan-Passed :
    (services : Services) (t : String) (value : Value) (fp a : String) (db db' : Db)
    (r : ApplyResult)
    → apply_plan services t value fp a db ≡ ok r db'
    → Passed services t value fp a db db' r
unfolding apply_plan
apply_plan-Passed services t value fp a db db' r e =
    let (plan, s₁, p₁, k₁) = bind-eq-ok (parsed (parse_plan services.is_datetime value)) _ db e in
    let (accepted, same₁) = parsed-ok _ db s₁ plan p₁ in
    let (current, s₂, p₂, k₂) = bind-eq-ok (fingerprint_via services t) _ s₁ k₁ in
    let same₂ = fingerprint_via_state services t s₁ s₂ current p₂ in
    let (_, s₃, p₃, k₃) = bind-eq-ok (expect_fresh fp current) _ s₂ k₂ in
    let (agreed, same₃) = expect_fresh-ok fp current s₂ s₃ p₃ in
    let (_, s₄, p₄, k₄) = bind-eq-ok (each (apply_added t a) plan.added) _ s₃ k₃ in
    let (_, s₅, p₅, k₅) = bind-eq-ok (each (apply_modified t a) plan.modified) _ s₄ k₄ in
    let (_, s₆, p₆, k₆) = bind-eq-ok (each (apply_removed t a) plan.removed) _ s₅ k₅ in
    record {
      plan = plan;
      accepted = accepted;
      fresh =
          subst (λ d. fingerprint_via services t d ≡ ok fp d) (sym same₁)
            (p₂ ∙ ap (λ (x : String). ok x s₂) (sym agreed) ∙ ap (λ (d : Db). ok fp d) (sym same₂));
      after_added = s₄;
      after_modified = s₅;
      added =
          subst (λ d. each (apply_added t a) plan.added d ≡ ok tt s₄) (sym (same₁ ∙ same₂ ∙ same₃))
            p₄;
      modified = p₅;
      removed = p₆ ∙ ap (λ (d : Db). ok tt d) (ok-state k₆);
      counts = sym (ok-result k₆);
    }

-- From a tenant whose stored entries pass the schema, each under its own event, a plan that
-- `applyPlan` reports as applied has been applied in full: it was valid and computed against the
-- registry's present fingerprint; the tenant's entries are those that the plan makes of the old
-- ones, with one audit record for each item and the right counts; nothing of another tenant or
-- another table changed; the stored entries pass the schema again; no event that was registered is
-- gone, and the events that the plan removes are marked deprecated.
pub apply_plan-IsApplied :
    (services : Services) (t : String) (value : Value) (fp a : String) (db db' : Db)
    (r : ApplyResult)
    → IsClean (registered t db)
    → apply_plan services t value fp a db ≡ ok r db'
    → IsApplied services t value fp db db' r
apply_plan-IsApplied services t value fp a db db' r c e =
    let run = apply_plan-Passed services t value fp a db db' r e in
    let (x, clean, before) =
      loops_Effect t a run.plan db run.after_added run.after_modified db'
        (parse_plan-IsEntry services.is_datetime value run.plan run.accepted) c run.added
        run.modified run.removed in
    record {
      plan = run.plan;
      accepted = run.accepted;
      fresh = run.fresh;
      effect =
          subst
            (λ (q : ApplyResult).
              Effect t (q.added + q.modified + q.removed) (planned_registry run.plan) db db')
            (sym run.counts) x;
      clean = clean;
      counted = (
        ap (λ (q : ApplyResult). q.added) run.counts,
        ap (λ (q : ApplyResult). q.modified) run.counts,
        ap (λ (q : ApplyResult). q.removed) run.counts,
      );
      kept = λ k h.
          subst (λ (reg : Registered). reg k ≢ none) (sym x.entries)
            (planned_registry-ne-none run.plan (registered t db) k h);
      deprecated =
          each_removed-IsDeprecated t a run.plan.removed run.after_modified db' before run.removed;
    }
