-- ===== src/Registry/Schema/Plans.antt =====
-- packages/registry/src/tracking-plan.ts: the entries of a plan that the schema accepts.
use toqar.Common.{String, Bool, Option, some, List, [], ◌∷◌, ◌≡◌, All}
use mathlib.Core.Option.{some-injective}
use mathlib.Core.Path.{subst}
use toqar.Common.Options.{bind-eq-some, guard, all_some}
use toqar.Json.{Value, prop, as_str, as_items, text}
use toqar.Registry.Schema.{
  PlannedEvent, TrackingPlan, parse_entry, parse_planned, parse_removal, parse_plan, items_at,
  text_item, at_least_one,
}
use toqar.Registry.Schema.RoundTrip.{IsEntry, parse_entry-IsEntry}

all_some-All :
    {A B : Type 0} (f : A → Option B) (P : B → Type 0)
    → ((x : A) (y : B) → f x ≡ some y → P y)
    → (xs : List A) (ys : List B) → all_some f xs ≡ some ys
    → All P ys
unfolding all_some
all_some-All f P sound [] [] e = tt
all_some-All f P sound [] (y ∷ ys) e = cc
all_some-All f P sound (x ∷ xs) ys e =
    let (y, e₁, k₁) = bind-eq-some (f x) _ e in
    let (rest, e₂, k₂) = bind-eq-some (all_some f xs) _ k₁ in
    subst (All P) (some-injective _ _ k₂) (sound x y e₁, all_some-All f P sound xs rest e₂)

items_at-All :
    {B : Type 0} (f : Value → Option B) (P : B → Type 0) (k : String) (v : Value) (ys : List B)
    → ((x : Value) (y : B) → f x ≡ some y → P y)
    → items_at f k v ≡ some ys
    → All P ys
items_at-All f P k v ys sound e =
    let (found, _, k₁) = bind-eq-some (prop k v) _ e in
    let (values, _, k₂) = bind-eq-some (as_items found) _ k₁ in all_some-All f P sound values ys k₂

parse_planned-IsEntry : (v : Value) (p : PlannedEvent) → parse_planned v ≡ some p → IsEntry p.entry
unfolding parse_planned
parse_planned-IsEntry v p e =
    let (entry, e₁, k₁) = bind-eq-some (parse_entry v) _ e in
    let (listed, _, k₂) = bind-eq-some (prop "code_locations" v) _ k₁ in
    let (values, _, k₃) = bind-eq-some (as_items listed) _ k₂ in
    let (locations, _, k₄) = bind-eq-some (all_some text_item values) _ k₃ in
    let (some_locations, _, k₅) = bind-eq-some (at_least_one locations) _ k₄ in
    let (notes, _, k₆) = bind-eq-some (text "implementation_notes" v) _ k₅ in
    subst (λ (q : PlannedEvent). IsEntry q.entry) (some-injective _ _ k₆)
      (parse_entry-IsEntry v entry e₁)

-- Each planned event of an accepted plan is a valid entry.
pub parse_plan-IsEntry :
    (is_datetime : String → Bool) (v : Value) (plan : TrackingPlan)
    → parse_plan is_datetime v ≡ some plan
    → All (λ p. IsEntry p.entry) plan.added × All (λ p. IsEntry p.entry) plan.modified
unfolding parse_plan
parse_plan-IsEntry is_datetime v plan e =
    let (repo, _, k₁) = bind-eq-some (text "repo" v) _ e in
    let (stamp, _, k₂) = bind-eq-some (prop "generated_at" v) _ k₁ in
    let (generated_at, _, k₃) = bind-eq-some (as_str stamp) _ k₂ in
    let (_, _, k₄) = bind-eq-some (guard (is_datetime generated_at)) _ k₃ in
    let (summary, _, k₅) = bind-eq-some (text "summary" v) _ k₄ in
    let (added, e₆, k₆) = bind-eq-some (items_at parse_planned "added" v) _ k₅ in
    let (modified, e₇, k₇) = bind-eq-some (items_at parse_planned "modified" v) _ k₆ in
    let (removed, _, k₈) = bind-eq-some (items_at parse_removal "removed" v) _ k₇ in
    subst
      (λ (q : TrackingPlan).
        All (λ p. IsEntry p.entry) q.added × All (λ p. IsEntry p.entry) q.modified)
      (some-injective _ _ k₈)
      (
        items_at-All parse_planned (λ p. IsEntry p.entry) "added" v added parse_planned-IsEntry e₆,
        items_at-All parse_planned (λ p. IsEntry p.entry) "modified" v modified
            parse_planned-IsEntry e₇,
      )
