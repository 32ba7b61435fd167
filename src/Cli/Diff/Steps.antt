-- ===== src/Cli/Diff/Steps.antt =====
-- packages/cli/src/diff.ts: what the three lists of a difference do to the registry.
use mathlib.Core.Path.{subst}
use toqar.Common.{
  String, Option, none, some, List, [], ◌∷◌, ◌≡◌, ◌≢◌, refl, ◌==◌, arith, inl, inr, eq_iff, eq_refl,
  Bool-cases, Option-cases, map,
}
use toqar.Json.{Value}
use toqar.Registry.Schema.{RegistryEntry, entry_json}
use toqar.Registry.Store.Entries.Effects.{Registered, set_at, deprecated_json, deprecate_at}
use toqar.Registry.Store.Entries.Plans.{with_planned, with_removed}
use toqar.Registry.Store.Entries.Acceptance.{CanAdd, CanModify, CanRemove}
use toqar.Registry.Store.Entries.Removals.{set_at-ne-none, deprecate_at-ne-none}
use toqar.Cli.Diff.{by_event, planned, removal}
use toqar.Cli.Diff.Lookup.{Distinct}

abbrev pub or_else : Option RegistryEntry → Option Value → Option Value
or_else none v = v
or_else (some e) v = some (entry_json e)

pub with_planned-map :
    (f : String) (es : List RegistryEntry) (reg : Registered) (k : String)
    → with_planned (map (planned f) es) reg k ≡ or_else (by_event es k) (reg k)
unfolding by_event
with_planned-map f [] reg k = refl
with_planned-map f (e ∷ es) reg k =
    ground (arith, with_planned-map f es (set_at e.event (entry_json e) reg) k)

abbrev pub deprecated_if : Option RegistryEntry → Option Value → Option Value
deprecated_if none v = v
deprecated_if (some e) v = deprecated_json v

pub with_removed-map :
    (es : List RegistryEntry) (reg : Registered) (k : String)
    → Distinct es
    → with_removed (map removal es) reg k ≡ deprecated_if (by_event es k) (reg k)
unfolding by_event
with_removed-map [] reg k d = refl
with_removed-map (e ∷ es) reg k (h, d) = elim (Bool-cases (e.event == k)) [
  | inl same ↦
      let here : e.event ≡ k = (eq_iff e.event k).0 same in
      let gone : by_event es k ≡ none = subst (λ x. by_event es x ≡ none) here h in
      ground (arith, with_removed-map es (deprecate_at e.event reg) k d)
  | inr other ↦ ground (arith, with_removed-map es (deprecate_at e.event reg) k d)
]

pub absurd_found :
    (es : List RegistryEntry) (k : String) (x : RegistryEntry)
    → by_event es k ≡ none
    → by_event es k ≡ some x
    → ⊥
absurd_found es k x h h' = cc

-- What holds of the events of a list.
abbrev pub Each : (String → Type 0) → List RegistryEntry → Type 0
Each P es = (k : String) (e : RegistryEntry) → by_event es k ≡ some e → P k

head_found :
    (e : RegistryEntry) (es : List RegistryEntry)
    → (x : RegistryEntry) × (by_event (e ∷ es) e.event ≡ some x)
unfolding by_event
head_found e es = elim (Option-cases (by_event es e.event)) [
  | inl h ↦ (e, ground (arith, eq_refl e.event))
  | inr (x, h) ↦ (x, ground arith)
]

pub tail_found :
    (e : RegistryEntry) (es : List RegistryEntry) (k : String) (x : RegistryEntry)
    → by_event es k ≡ some x
    → by_event (e ∷ es) k ≡ some x
unfolding by_event
tail_found e es k x h = ground arith

head :
    {P : String → Type 0} (e : RegistryEntry) (es : List RegistryEntry)
    → Each P (e ∷ es)
    → P e.event
head e es h = let (x, found) = head_found e es in h e.event x found

-- A list of distinct events can be added where they are free, any list can be modified or removed
-- where its events are taken.
pub can_add :
    (f : String) (es : List RegistryEntry) (reg : Registered)
    → Distinct es
    → Each (λ k. reg k ≡ none) es
    → CanAdd (map (planned f) es) reg
can_add f [] reg d h = tt
can_add f (e ∷ es) reg (apart, d) h = (
  head {P = λ k. reg k ≡ none} e es h,
  can_add f es (set_at e.event (entry_json e) reg) d (λ k x found.
      elim (Bool-cases (e.event == k)) [
        | inl same ↦
            let here : e.event ≡ k = (eq_iff e.event k).0 same in
            absurd (absurd_found es k x (subst (λ y. by_event es y ≡ none) here apart) found)
        | inr other ↦ let free = h k x (tail_found e es k x found) in ground arith
      ]),
)

pub can_modify :
    (f : String) (es : List RegistryEntry) (reg : Registered)
    → Each (λ k. reg k ≢ none) es
    → CanModify (map (planned f) es) reg
can_modify f [] reg h = tt
can_modify f (e ∷ es) reg h = (
  head {P = λ k. reg k ≢ none} e es h,
  can_modify f es (set_at e.event (entry_json e) reg) (λ k x found.
      set_at-ne-none e.event k (entry_json e) reg (h k x (tail_found e es k x found))),
)

pub can_remove :
    (es : List RegistryEntry) (reg : Registered)
    → Each (λ k. reg k ≢ none) es
    → CanRemove (map removal es) reg
can_remove [] reg h = tt
can_remove (e ∷ es) reg h = (
  head {P = λ k. reg k ≢ none} e es h,
  can_remove es (deprecate_at e.event reg)
      (λ k x found. deprecate_at-ne-none e.event k reg (h k x (tail_found e es k x found))),
)
