-- ===== src/Registry/SeamMap/RoundTrip.antt =====
-- packages/registry/src/seam-map.ts: a seam map reads back as it was written.
use mathlib.Core.Option.{some-injective}
use mathlib.Core.Path.{subst}
use toqar.Common.{
  String, Bool, true, false, Option, none, some, List, [], ◌∷◌, ◌≡◌, ◌≢◌, refl, ap, ◌∙◌, arith,
  eq_iff, ◌==◌, map_get, map, includes, All,
}
use toqar.Common.Options.{bind-eq-some, all_some, all_some-map, guard}
use toqar.Json.{Value, str, items, items_of, text, prop, as_str, as_items, optional_text}
use toqar.Registry.Schema.{text_item, at_least_one, items_at}
use toqar.Registry.Schema.RoundTrip.{text_filled, optional_text_of_filled, eq-false_of_ne}
use toqar.Registry.SeamMap.{
  Seam, SeamMap, seam_kinds, kind_field, parse_seam, frameworks_field, stamp_field, parse_seam_map,
  seam_json, seam_map_json,
}

items-items_of : (vs : List Value) → items (items_of vs) ≡ vs
items-items_of [] = refl
items-items_of (v ∷ vs) = ap (λ xs. v ∷ xs) (items-items_of vs)

-- A list of which each item was parsed is parsed again from what is printed.
module _ {A : Type 0} (f : Value → Option A) (g : A → Value)
    (law : (v : Value) (a : A) → f v ≡ some a → f (g a) ≡ some a) where
  all_some-back :
      (vs : List Value) (xs : List A) → all_some f vs ≡ some xs → All (λ x. f (g x) ≡ some x) xs
  unfolding all_some
  all_some-back [] xs e = subst (All (λ x. f (g x) ≡ some x)) (some-injective _ _ e) tt
  all_some-back (v ∷ vs) xs e =
      let (y, h, k) = bind-eq-some (f v) _ e in
      let (ys, h', k') = bind-eq-some (all_some f vs) _ k in
      subst (All (λ x. f (g x) ≡ some x)) (some-injective _ _ k')
        (law v y h, all_some-back vs ys h')

  items_at-back :
      (k : String) (v : Value) (xs : List A)
      → items_at f k v ≡ some xs
      → all_some f (items (items_of (map g xs))) ≡ some xs
  items_at-back k v xs e =
      let (found, _, k₁) = bind-eq-some (prop k v) _ e in
      let (vs, _, k₂) = bind-eq-some (as_items found) _ k₁ in
      ap (all_some f) (items-items_of (map g xs)) ∙ all_some-map f g xs (all_some-back vs xs k₂)

text_item-str : (v : Value) (s : String) → text_item v ≡ some s → text_item (str s) ≡ some s
text_item-str (str s) t e = ground (arith, eq_iff s "")
text_item-str v t e = cc

kind_field-known :
    (v : Value) (kind : String) → kind_field v ≡ some kind → includes seam_kinds kind ≡ true
kind_field-known v kind e =
    let (found, _, k₁) = bind-eq-some (prop "kind" v) _ e in
    let (s, _, k₂) = bind-eq-some (as_str found) _ k₁ in
    let (_, known, k₃) = bind-eq-some (guard (includes seam_kinds s)) _ k₂ in
    subst (λ x. includes seam_kinds x ≡ true) (some-injective _ _ k₃) (guarded _ known)
  where
    guarded : (b : Bool) {u : Unit {0}} → guard b ≡ some u → b ≡ true
    guarded true e = refl
    guarded false e = cc

seam_read :
    (kind location : String) (note : Option String)
    → includes seam_kinds kind ≡ true
    → (location == "") ≡ false
    → note ≢ some ""
    → parse_seam (seam_json (record { kind = kind; location = location; note = note }))
      ≡ some (record { kind = kind; location = location; note = note })
unfolding parse_seam seam_json map_get
seam_read kind location none h k l = rw h (rw k)
seam_read kind location (some n) h k l = rw h (rw k (rw (eq-false_of_ne n "" (λ e. l (ap some e)))))

parse_seam-seam_json :
    (v : Value) (s : Seam) → parse_seam v ≡ some s → parse_seam (seam_json s) ≡ some s
unfolding parse_seam
parse_seam-seam_json v s e =
    let (kind, h₁, k₁) = bind-eq-some (kind_field v) _ e in
    let (location, h₂, k₂) = bind-eq-some (text "location" v) _ k₁ in
    let (note, h₃, k₃) = bind-eq-some (optional_text "note" v) _ k₂ in
    subst (λ x. parse_seam (seam_json x) ≡ some x) (some-injective _ _ k₃)
      (seam_read kind location note (kind_field-known v kind h₁)
        (eq-false_of_ne _ _ (text_filled "location" v location h₂))
        (optional_text_of_filled (prop "note" v) note h₃))

frameworks_back :
    (v : Value) (xs : List String)
    → frameworks_field v ≡ some xs
    → (all_some text_item (items (items_of (map str xs))) ≡ some xs) × (at_least_one xs ≡ some xs)
frameworks_back v xs e =
    let (ys, h, k) = bind-eq-some (items_at text_item "frameworks" v) _ e in
    let same = at_least_one-same ys xs k in
    (
      subst (λ zs. all_some text_item (items (items_of (map str zs))) ≡ some zs) same
          (items_at-back text_item str text_item-str "frameworks" v ys h),
      subst (λ zs. at_least_one zs ≡ some xs) same k,
    )
  where
    at_least_one-same : (ys xs : List String) → at_least_one ys ≡ some xs → ys ≡ xs
    at_least_one-same [] xs e = cc
    at_least_one-same (y ∷ ys) xs e = some-injective _ _ e

stamp_back :
    (is_datetime : String → Bool) (v : Value) (s : String)
    → stamp_field is_datetime v ≡ some s
    → guard (is_datetime s) ≡ some tt
stamp_back is_datetime v s e =
    let (found, _, k₁) = bind-eq-some (prop "produced_at" v) _ e in
    let (stamp, _, k₂) = bind-eq-some (as_str found) _ k₁ in
    let (_, good, k₃) = bind-eq-some (guard (is_datetime stamp)) _ k₂ in
    subst (λ x. guard (is_datetime x) ≡ some tt) (some-injective _ _ k₃) good

seam_map_read :
    (is_datetime : String → Bool) (m : SeamMap)
    → (m.repo == "") ≡ false
    → all_some text_item (items (items_of (map str m.frameworks))) ≡ some m.frameworks
    → at_least_one m.frameworks ≡ some m.frameworks
    → all_some parse_seam (items (items_of (map seam_json m.seams))) ≡ some m.seams
    → all_some text_item (items (items_of (map str m.task_taxonomy))) ≡ some m.task_taxonomy
    → (m.agent_version == "") ≡ false
    → guard (is_datetime m.produced_at) ≡ some tt
    → parse_seam_map is_datetime (seam_map_json m) ≡ some m
unfolding parse_seam_map seam_map_json map_get
seam_map_read is_datetime m h₁ h₂ h₃ h₄ h₅ h₆ h₇ =
    rw h₁ (rw h₂ (rw h₃ (rw h₄ (rw h₅ (rw h₆ (rw h₇))))))

-- A seam map that the schema accepted is stored as JSON and read back unchanged.
pub parse_seam_map-seam_map_json :
    (is_datetime : String → Bool) (v : Value) (m : SeamMap)
    → parse_seam_map is_datetime v ≡ some m
    → parse_seam_map is_datetime (seam_map_json m) ≡ some m
unfolding parse_seam_map
parse_seam_map-seam_map_json is_datetime v m e =
    let (repo, h₁, k₁) = bind-eq-some (text "repo" v) _ e in
    let (frameworks, h₂, k₂) = bind-eq-some (frameworks_field v) _ k₁ in
    let (seams, h₃, k₃) = bind-eq-some (items_at parse_seam "seams" v) _ k₂ in
    let (tasks, h₄, k₄) = bind-eq-some (items_at text_item "task_taxonomy" v) _ k₃ in
    let (version, h₅, k₅) = bind-eq-some (text "agent_version" v) _ k₄ in
    let (stamp, h₆, k₆) = bind-eq-some (stamp_field is_datetime v) _ k₅ in
    subst (λ x. parse_seam_map is_datetime (seam_map_json x) ≡ some x) (some-injective _ _ k₆)
      (seam_map_read is_datetime _ (eq-false_of_ne _ _ (text_filled "repo" v repo h₁))
        (frameworks_back v frameworks h₂).0 (frameworks_back v frameworks h₂).1
        (items_at-back parse_seam seam_json parse_seam-seam_json "seams" v seams h₃)
        (items_at-back text_item str text_item-str "task_taxonomy" v tasks h₄)
        (eq-false_of_ne _ _ (text_filled "agent_version" v version h₅))
        (stamp_back is_datetime v stamp h₆))
