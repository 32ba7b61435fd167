-- ===== src/Cli/Diff/Merging.antt =====
-- packages/cli/src/diff.ts: what the three lists of a difference make of one event of the registry.
use mathlib.Core.Path.{subst}
use toqar.Common.{
  String, Bool, Option, none, some, List, [], ◌∷◌, ◌≡◌, refl, ◌∙◌, sym, ◌==◌, if◌then◌else◌, arith,
  inl, inr, Bool-cases, Option-cases, filter,
}
use toqar.Json.{Value}
use toqar.Registry.Schema.{RegistryEntry, parse_entry, entry_json, status_text}
use toqar.Registry.Schema.RoundTrip.{IsEntry, parse_entry-entry_json}
use toqar.Registry.Store.Entries.Effects.{Registered}
use toqar.Registry.Store.Entries.Plans.{as_deprecated}
use toqar.Cli.Diff.{by_event, is_added, is_modified, is_removed}
use toqar.Cli.Diff.Lookup.{Distinct, by_event-event, by_event-filter, same_entry-eq}
use toqar.Cli.Diff.Steps.{or_else, deprecated_if}

abbrev pub json_of : Option RegistryEntry → Option Value
json_of none = none
json_of (some e) = some (entry_json e)

-- The entries are what the registry holds.
pub record Mirrors (es : List RegistryEntry) (reg : Registered) : Type 0 where
  pub entries : reg ≡ λ k. json_of (by_event es k)
  pub distinct : Distinct es
  pub valid : (k : String) (e : RegistryEntry) → by_event es k ≡ some e → IsEntry e

-- What a file turns the registry into: the file's entries, and the others with the active ones
-- deprecated.
abbrev pub retired : Option RegistryEntry → Option Value
retired none = none
retired (some e) =
    some (entry_json (if status_text e.status == "active" then as_deprecated e else e))

abbrev pub synced : List RegistryEntry → List RegistryEntry → Registered
synced local remote k = elim (by_event local k) [
  | none ↦ retired (by_event remote k)
  | some e ↦ some (entry_json e)
]

pub filter-Distinct :
    (p : RegistryEntry → Bool) (es : List RegistryEntry) → Distinct es → Distinct (filter p es)
filter-Distinct p [] d = tt
filter-Distinct p (e ∷ es) (h, d) = elim (Bool-cases (p e)) [
  | inl kept ↦ rw kept (ground (arith, by_event-filter p es e.event d), filter-Distinct p es d)
  | inr dropped ↦ rw dropped (filter-Distinct p es d)
]

abbrev pub kept_if : (RegistryEntry → Bool) → Option RegistryEntry → Option RegistryEntry
kept_if p none = none
kept_if p (some e) = if p e then some e else none

pub filtered :
    (p : RegistryEntry → Bool) (es : List RegistryEntry) (k : String)
    → Distinct es
    → by_event (filter p es) k ≡ kept_if p (by_event es k)
filtered p es k d = by_event-filter p es k d ∙ kept_if-elim (by_event es k)
  where
    kept_if-elim :
        (o : Option RegistryEntry)
        → elim o [ none ↦ none | some e ↦ if p e then some e else none ] ≡ kept_if p o
    kept_if-elim none = refl
    kept_if-elim (some e) = refl

-- What the three lists make of one event.
abbrev pub merged : List RegistryEntry → List RegistryEntry → String → Option Value
merged local remote k = deprecated_if (kept_if (is_removed local) (by_event remote k)) (
    or_else (kept_if (is_modified remote) (by_event local k))
      (or_else (kept_if (is_added remote) (by_event local k)) (json_of (by_event remote k))))

retired_lem :
    (local : List RegistryEntry) (e : RegistryEntry) (k : String)
    → e.event ≡ k
    → by_event local k ≡ none
    → parse_entry (entry_json e) ≡ some e
    → deprecated_if (kept_if (is_removed local) (some e)) (some (entry_json e)) ≡ retired (some e)
retired_lem local e k here absent back =
    let gone : by_event local e.event ≡ none =
      subst (λ x. by_event local x ≡ none) (sym here) absent in
    elim (Bool-cases (status_text e.status == "active")) [
      | inl live ↦ ground arith
      | inr other ↦ ground arith
    ]

pub merged-synced :
    (local remote : List RegistryEntry) (k : String)
    → ((e : RegistryEntry) → by_event remote k ≡ some e → IsEntry e)
    → merged local remote k ≡ synced local remote k
merged-synced local remote k valid = elim (Option-cases (by_event local k)) [
  | inl absent ↦ elim (Option-cases (by_event remote k)) [
    | inl missing ↦ ground arith
    | inr (r, found) ↦
        let retire =
          retired_lem local r k (by_event-event remote k r found) absent
            (parse_entry-entry_json r (valid r found)) in
        ground arith
  ]
  | inr (e, present) ↦
      let here = by_event-event local k e present in
      elim (Option-cases (by_event remote k)) [
        | inl missing ↦
            let free : by_event remote e.event ≡ none =
              subst (λ x. by_event remote x ≡ none) (sym here) missing in
            ground arith
        | inr (r, found) ↦
            let taken : by_event remote e.event ≡ some r =
              subst (λ x. by_event remote x ≡ some r) (sym here) found in
            let held : by_event local r.event ≡ some e =
              subst (λ x. by_event local x ≡ some e) (sym (by_event-event remote k r found))
                present in
            ground (arith, same_entry-eq r e)
      ]
]
