-- ===== src/Cli/Diff/Lookup.antt =====
-- packages/cli/src/diff.ts: entries found by their event.
use mathlib.Core.Path.{subst}
use toqar.Common.{
  String, Bool, true, Option, none, some, List, [], ◌∷◌, ◌≡◌, refl, ap, ◌==◌, if◌then◌else◌, arith,
  inl, inr, eq_iff, eq_refl, Bool-cases, filter,
}
use toqar.Registry.Schema.{Status, proposed, active, deprecated, status_text, RegistryEntry}
use toqar.Cli.Diff.{by_event, same_optional, same_entry}

-- No two entries are for one event.
abbrev pub Distinct : List RegistryEntry → Type 0
Distinct [] = Unit {0}
Distinct (e ∷ es) = (by_event es e.event ≡ none) × Distinct es

pub by_event-event :
    (es : List RegistryEntry) (k : String) (e : RegistryEntry)
    → by_event es k ≡ some e
    → e.event ≡ k
unfolding by_event
by_event-event [] k e h = cc
by_event-event (x ∷ xs) k e h = ground (arith, by_event-event xs k e, eq_iff x.event k)

same_status : (a b : Status) → (status_text a == status_text b) ≡ true → a ≡ b
same_status proposed proposed h = refl
same_status proposed active h = cc
same_status proposed deprecated h = cc
same_status active proposed h = cc
same_status active active h = refl
same_status active deprecated h = cc
same_status deprecated proposed h = cc
same_status deprecated active h = cc
same_status deprecated deprecated h = refl

same_optional-eq : (a b : Option String) → same_optional a b ≡ true → a ≡ b
same_optional-eq none none h = refl
same_optional-eq none (some t) h = cc
same_optional-eq (some s) none h = cc
same_optional-eq (some s) (some t) h = ap some ((eq_iff s t).0 h)

pub same_entry-eq : (a b : RegistryEntry) → same_entry a b ≡ true → a ≡ b
unfolding same_entry
same_entry-eq a b h = ground (
  arith,
  eq_iff a.event b.event,
  eq_iff a.description b.description,
  eq_iff a.journey b.journey,
  eq_iff a.owner_metric b.owner_metric,
  same_optional-eq a.hypothesis b.hypothesis,
  same_status a.status b.status,
  eq_iff a.since_version b.since_version,
)

same_optional_refl : (a : Option String) → same_optional a a ≡ true
same_optional_refl none = refl
same_optional_refl (some s) = eq_refl s

pub same_entry_refl : (a : RegistryEntry) → same_entry a a ≡ true
unfolding same_entry
same_entry_refl a = ground (
  arith,
  eq_refl a.event,
  eq_refl a.description,
  eq_refl a.journey,
  eq_refl a.owner_metric,
  same_optional_refl a.hypothesis,
  eq_refl (status_text a.status),
  eq_refl a.since_version,
)

-- In a list with distinct events, the entry found in a filtered list is the entry found in the list,
-- if it passes.
pub by_event-filter :
    (p : RegistryEntry → Bool) (es : List RegistryEntry) (k : String)
    → Distinct es
    → by_event (filter p es) k
      ≡ elim (by_event es k) [ none ↦ none | some e ↦ if p e then some e else none ]
unfolding by_event
by_event-filter p [] k d = refl
by_event-filter p (e ∷ es) k (h, d) = elim (Bool-cases (e.event == k)) [
  | inl same ↦
      let here : e.event ≡ k = (eq_iff e.event k).0 same in
      let gone : by_event es k ≡ none = subst (λ x. by_event es x ≡ none) here h in
      ground (arith, by_event-filter p es k d)
  | inr other ↦ ground (arith, by_event-filter p es k d)
]
