-- ===== src/Cli/Diff/Settled.antt =====
-- packages/cli/src/diff.ts: after a sync the difference is empty.
use mathlib.Core.Path.{subst}
use mathlib.Core.Option.{some-injective}
use toqar.Common.{
  ℕ, String, Bool, true, false, Option, none, some, List, [], ◌∷◌, ◌≡◌, refl, ap, ◌∙◌, sym, ◌==◌,
  if◌then◌else◌, arith, inl, inr, eq_refl, Bool-cases, Option-cases, filter,
}
use toqar.Json.{Value}
use toqar.Registry.Schema.{RegistryEntry, parse_entry, entry_json, status_text}
use toqar.Registry.Schema.RoundTrip.{IsEntry, parse_entry-entry_json}
use toqar.Registry.Store.Entries.Plans.{as_deprecated, as_deprecated-IsEntry}
use toqar.Cli.Diff.{by_event, is_added, is_modified, is_removed, compute_diff, is_empty_diff}
use toqar.Cli.Diff.Lookup.{Distinct, by_event-event, same_entry_refl}
use toqar.Cli.Diff.Steps.{tail_found}
use toqar.Cli.Diff.Merging.{json_of, Mirrors, synced}

alone :
    (e : RegistryEntry) (es : List RegistryEntry)
    → by_event es e.event ≡ none
    → by_event (e ∷ es) e.event ≡ some e
unfolding by_event
alone e es apart = ground (arith, eq_refl e.event)

pub filter-nil :
    (p : RegistryEntry → Bool) (es : List RegistryEntry)
    → Distinct es
    → ((k : String) (e : RegistryEntry) → by_event es k ≡ some e → p e ≡ false)
    → filter p es ≡ []
filter-nil p [] d h = refl
filter-nil p (e ∷ es) (apart, d) h =
    let rest = filter-nil p es d (λ k x found. h k x (tail_found e es k x found)) in
    let off = h e.event e (alone e es apart) in rw off rest

entry_json-injective :
    (a b : RegistryEntry) → IsEntry a → IsEntry b → entry_json a ≡ entry_json b → a ≡ b
entry_json-injective a b v w h =
    some-injective _ _
      (sym (parse_entry-entry_json a v) ∙ ap parse_entry h ∙ parse_entry-entry_json b w)

-- The file's entries pass the schema.
abbrev pub IsValidFile : List RegistryEntry → Type 0
IsValidFile es = (k : String) (e : RegistryEntry) → by_event es k ≡ some e → IsEntry e

module _ (local remote after : List RegistryEntry) (before_valid : IsValidFile remote)
    (local_valid : IsValidFile local) (mirrors : Mirrors after (synced local remote)) where
  at : (k : String) → synced local remote k ≡ json_of (by_event after k)
  at k = ap (λ (f : String → Option Value). f k) mirrors.entries

  held : (k : String) (e : RegistryEntry) → by_event local k ≡ some e → by_event after k ≡ some e
  held k e h = elim (Option-cases (by_event after k)) [
    | inl missing ↦ let there = at k in absurd (ground arith)
    | inr (x, found) ↦
        let there = at k in
        let json : entry_json e ≡ entry_json x = ground arith in
        found
        ∙ ap some
            (sym (entry_json-injective e x (local_valid k e h) (mirrors.valid k x found) json))
  ]

  none_added :
      (k : String) (e : RegistryEntry) → by_event local k ≡ some e → is_added after e ≡ false
  none_added k e h =
      let found = held k e h in
      let there : by_event after e.event ≡ some e =
        subst (λ x. by_event after x ≡ some e) (sym (by_event-event local k e h)) found in
      ground arith

  none_modified :
      (k : String) (e : RegistryEntry) → by_event local k ≡ some e → is_modified after e ≡ false
  none_modified k e h =
      let there : by_event after e.event ≡ some e =
        subst (λ x. by_event after x ≡ some e) (sym (by_event-event local k e h)) (held k e h) in
      ground (arith, same_entry_refl e)

  abbrev settled : RegistryEntry → RegistryEntry
  settled e = if status_text e.status == "active" then as_deprecated e else e

  settled-IsEntry : (e : RegistryEntry) → IsEntry e → IsEntry (settled e)
  settled-IsEntry e v = elim (Bool-cases (status_text e.status == "active")) [
    | inl live ↦ rw live (as_deprecated-IsEntry e v)
    | inr other ↦ rw other v
  ]

  settled_inactive : (e : RegistryEntry) → (status_text (settled e).status == "active") ≡ false
  settled_inactive e = elim (Bool-cases (status_text e.status == "active")) [
    | inl live ↦ rw live refl
    | inr other ↦ rw other other
  ]

  none_removed :
      (k : String) (e : RegistryEntry) → by_event after k ≡ some e → is_removed local e ≡ false
  none_removed k e h =
      let here = by_event-event after k e h in
      elim (Option-cases (by_event local k)) [
        | inl absent ↦ elim (Option-cases (by_event remote k)) [
          | inl missing ↦ let there = at k in absurd (ground arith)
          | inr (r, found) ↦
              let there = at k in
              let json : entry_json (settled r) ≡ entry_json e = ground arith in
              let same : settled r ≡ e =
                entry_json-injective (settled r) e (settled-IsEntry r (before_valid k r found))
                  (mirrors.valid k e h) json in
              let off : (status_text e.status == "active") ≡ false =
                subst (λ (x : RegistryEntry). (status_text x.status == "active") ≡ false) same
                  (settled_inactive r) in
              rw off
        ]
        | inr (x, there) ↦
            let named : by_event local e.event ≡ some x =
              subst (λ y. by_event local y ≡ some x) (sym here) there in
            ground arith
      ]

-- Once the registry holds what a sync leaves, and the backend returns it, the difference of the same
-- file is empty: a sync that is repeated has nothing to do.
pub is_empty_diff-compute_diff :
    (wording : String → ℕ → ℕ → ℕ → String) (local remote after : List RegistryEntry)
    (repo file_path generated_at : String)
    → Distinct local
    → IsValidFile local
    → IsValidFile remote
    → Mirrors after (synced local remote)
    → is_empty_diff (compute_diff wording local after repo file_path generated_at) ≡ true
unfolding is_empty_diff compute_diff
is_empty_diff-compute_diff wording local remote after repo file_path generated_at d v w mirrors =
    rw (filter-nil (is_added after) local d (none_added local remote after w v mirrors)) (
      rw (filter-nil (is_modified after) local d (none_modified local remote after w v mirrors)) (
        rw (
          filter-nil (is_removed local) after mirrors.distinct
            (none_removed local remote after w v mirrors))))
