-- ===== src/Cli/Diff/Convergence.antt =====
-- packages/cli/src/diff.ts against packages/registry-service/src/store.ts: a difference that is
-- computed against the registry can be applied, and leads to the registry file.
use mathlib.Core.Path.{subst, fun_ext}
use toqar.Common.{
  ℕ, String, Bool, true, Option, none, some, List, ◌≡◌, ◌≢◌, ap, ◌∙◌, sym, arith, inl, inr,
  Bool-cases, Option-cases, filter, map,
}
use toqar.Json.{Value}
use toqar.Registry.Schema.{RegistryEntry, TrackingPlan}
use toqar.Registry.Store.Entries.Effects.{Registered}
use toqar.Registry.Store.Entries.Plans.{with_planned, planned_registry}
use toqar.Registry.Store.Entries.Acceptance.{CanAdd, CanModify, CanRemove}
use toqar.Cli.Diff.{by_event, planned, is_added, is_modified, is_removed, compute_diff}
use toqar.Cli.Diff.Lookup.{Distinct, by_event-event, by_event-filter}
use toqar.Cli.Diff.Steps.{
  or_else, with_planned-map, deprecated_if, with_removed-map, can_add, can_modify, can_remove, Each,
}
use toqar.Cli.Diff.Merging.{json_of, Mirrors, synced, filter-Distinct, filtered, merged-synced}

-- A difference that can be applied, and makes of the registry what the file says.
pub record Syncs (plan : TrackingPlan) (local remote : List RegistryEntry) (reg : Registered)
    : Type 0 where
  pub result : planned_registry plan reg ≡ synced local remote
  pub adds : CanAdd plan.added reg
  pub modifies : CanModify plan.modified (with_planned plan.added reg)
  pub removes : CanRemove plan.removed (with_planned plan.modified (with_planned plan.added reg))

found_in :
    (p : RegistryEntry → Bool) (es : List RegistryEntry) (k : String) (e : RegistryEntry)
    → Distinct es
    → by_event (filter p es) k ≡ some e
    → (by_event es k ≡ some e) × (p e ≡ true) × (e.event ≡ k)
found_in p es k e d h =
    let found = sym (by_event-filter p es k d) ∙ h in
    elim (Option-cases (by_event es k)) [
      | inl missing ↦ absurd (ground arith)
      | inr (x, there) ↦ elim (Bool-cases (p x)) [
        | inl passes ↦
            let same : x ≡ e = ground arith in
            (
              there ∙ ap some same,
              subst (λ y. p y ≡ true) same passes,
              by_event-event es k e (there ∙ ap some same),
            )
        | inr fails ↦ absurd (ground arith)
      ]
    ]

module _ (local remote : List RegistryEntry) (reg : Registered) (mirrors : Mirrors remote reg) where
  at : (k : String) → reg k ≡ json_of (by_event remote k)
  at k = ap (λ (f : Registered). f k) mirrors.entries

  added_free : Distinct local → Each (λ k. reg k ≡ none) (filter (is_added remote) local)
  added_free d k e h =
      let (_, free, here) = found_in (is_added remote) local k e d h in
      let missing : by_event remote k ≡ none =
        subst (λ x. by_event remote x ≡ none) here (ground arith) in
      at k ∙ ap json_of missing

  or_else-ne-none : (o : Option RegistryEntry) (v : Option Value) → v ≢ none → or_else o v ≢ none
  or_else-ne-none none v h e' = h e'
  or_else-ne-none (some e) v h e' = cc

  taken : (k : String) (r : RegistryEntry) → by_event remote k ≡ some r → reg k ≢ none
  taken k r h e = let there = sym (at k) ∙ e in ground arith

  modified_taken :
      (f : String)
      → Distinct local
      → Each
          (λ k. with_planned (map (planned f) (filter (is_added remote) local)) reg k ≢ none)
          (filter (is_modified remote) local)
  modified_taken f d k e h =
      let (_, changed, here) = found_in (is_modified remote) local k e d h in
      let (r, found) = modified_found e changed in
      subst (λ (v : Option Value). v ≢ none)
        (sym (with_planned-map f (filter (is_added remote) local) reg k))
        (or_else-ne-none (by_event (filter (is_added remote) local) k) (reg k)
          (taken k r (subst (λ x. by_event remote x ≡ some r) here found)))
    where
      modified_found :
          (e : RegistryEntry)
          → is_modified remote e ≡ true
          → (r : RegistryEntry) × (by_event remote e.event ≡ some r)
      modified_found e changed = elim (Option-cases (by_event remote e.event)) [
        | inl missing ↦ absurd (ground arith)
        | inr there ↦ there
      ]

  removed_taken :
      (f : String)
      → Each
          (λ k.
            with_planned
              (map (planned f) (filter (is_modified remote) local))
              (with_planned (map (planned f) (filter (is_added remote) local)) reg)
              k
            ≢ none)
          (filter (is_removed local) remote)
  removed_taken f k e h =
      let (there, _, _) = found_in (is_removed local) remote k e mirrors.distinct h in
      subst (λ (v : Option Value). v ≢ none)
        (sym (
          with_planned-map f (filter (is_modified remote) local)
            (with_planned (map (planned f) (filter (is_added remote) local)) reg) k
          ∙ ap (or_else (by_event (filter (is_modified remote) local) k))
              (with_planned-map f (filter (is_added remote) local) reg k)))
        (or_else-ne-none (by_event (filter (is_modified remote) local) k) _
          (or_else-ne-none (by_event (filter (is_added remote) local) k) (reg k) (taken k e there)))

-- Against a registry that the remote entries mirror, the difference of a file with distinct events
-- can be applied item by item, and then the registry holds the file's entries, with the active
-- entries that the file does not name deprecated and all others left as they were.
pub compute_diff-Syncs :
    (wording : String → ℕ → ℕ → ℕ → String) (local remote : List RegistryEntry)
    (repo file_path generated_at : String) (reg : Registered)
    → Distinct local
    → Mirrors remote reg
    → Syncs (compute_diff wording local remote repo file_path generated_at) local remote reg
unfolding compute_diff
compute_diff-Syncs wording local remote repo file_path generated_at reg d mirrors = record {
  result = fun_ext (λ k.
      with_removed-map (filter (is_removed local) remote) _ k
        (filter-Distinct (is_removed local) remote mirrors.distinct)
      ∙ ap (deprecated_if (by_event (filter (is_removed local) remote) k)) (
          with_planned-map file_path (filter (is_modified remote) local) _ k
          ∙ ap (or_else (by_event (filter (is_modified remote) local) k)) (
              with_planned-map file_path (filter (is_added remote) local) reg k
              ∙ ap (or_else (by_event (filter (is_added remote) local) k))
                  (at local remote reg mirrors k)))
      ∙ rw (filtered (is_removed local) remote k mirrors.distinct)
          (rw (filtered (is_modified remote) local k d) (rw (filtered (is_added remote) local k d)))
      ∙ merged-synced local remote k (mirrors.valid k));
  adds =
      can_add file_path (filter (is_added remote) local) reg
        (filter-Distinct (is_added remote) local d) (added_free local remote reg mirrors d);
  modifies =
      can_modify file_path (filter (is_modified remote) local) _
        (modified_taken local remote reg mirrors file_path d);
  removes =
      can_remove (filter (is_removed local) remote) _
        (removed_taken local remote reg mirrors file_path);
}
