-- ===== src/Collector/Redact/Shape.antt =====
-- packages/collector/src/redact.ts: `redactEvent` against a description that has no state: what it
-- leaves alone, what it makes of each text, and what it counts.
use toqar.Common.{
  ℕ, ◌+◌, String, Option, none, some, List, [], ◌∷◌, ◌++◌, ◌≡◌, refl, sym, ap, if◌then◌else◌, map,
  arith, map_get, map_set, Bool-cases, inl, inr,
}
use toqar.Json.{
  Value, null, bool, num, decimal, str, arr, obj, Items, nil, item, Fields, end, field,
}
use toqar.Collector.Redact.{
  Piece, Counts, counted, is_structural, merged, total, redact_text, walk, walk_items, walk_fields,
  redact_event,
}

-- A value with its texts blanked, but those under a structural key.
unfoldable mutual
  pub outline : Option String → Value → Value
  outline key null = null
  outline key (bool b) = bool b
  outline key (num n) = num n
  outline key (decimal t) = decimal t
  outline key (str s) = if is_structural key then str s else str ""
  outline key (arr vs) = arr (outline_items key vs)
  outline key (obj fs) = obj (outline_fields fs)

  pub outline_items : Option String → Items → Items
  outline_items key nil = nil
  outline_items key (item v vs) = item (outline key v) (outline_items key vs)

  pub outline_fields : Fields → Fields
  outline_fields end = end
  outline_fields (field k v fs) = field k (outline (some k) v) (outline_fields fs)

-- The texts that `outline` blanks, in order.
unfoldable mutual
  pub texts : Option String → Value → List String
  texts key null = []
  texts key (bool b) = []
  texts key (num n) = []
  texts key (decimal t) = []
  texts key (str s) = if is_structural key then [] else s ∷ []
  texts key (arr vs) = texts_items key vs
  texts key (obj fs) = texts_fields fs

  pub texts_items : Option String → Items → List String
  texts_items key nil = []
  texts_items key (item v vs) = texts key v ++ texts_items key vs

  pub texts_fields : Fields → List String
  texts_fields end = []
  texts_fields (field k v fs) = texts (some k) v ++ texts_fields fs

pub total-counted :
    (kind : String) (n : ℕ) (counts : Counts) → total (counted kind n counts) ≡ total counts + n
unfolding map_get map_set
total-counted kind n [] = omega arith
total-counted kind n ((k, m) ∷ counts) = ground (arith, total-counted kind n counts)

total-merged : (more counts : Counts) → total (merged more counts) ≡ total counts + total more
total-merged [] counts = omega arith
total-merged ((kind, n) ∷ more) counts =
    omega (arith, total-merged more (counted kind n counts), total-counted kind n counts)

module _ (cut : String → String → List Piece) where
  -- The number of replacements in a list of texts.
  abbrev pub replacements : List String → ℕ
  replacements [] = 0
  replacements (s ∷ ss) = total (redact_text cut s).1 + replacements ss

  abbrev pub redacted : String → String
  redacted s = (redact_text cut s).0

  replacements-append :
      (xs ys : List String) → replacements (xs ++ ys) ≡ replacements xs + replacements ys
  replacements-append [] ys = omega arith
  replacements-append (x ∷ xs) ys = omega (arith, replacements-append xs ys)

  map-redacted-append :
      (xs ys : List String) → map redacted (xs ++ ys) ≡ map redacted xs ++ map redacted ys
  map-redacted-append [] ys = refl
  map-redacted-append (x ∷ xs) ys = ap (λ t. redacted x ∷ t) (map-redacted-append xs ys)

  mutual
    unfolding walk outline texts

    outline-walk :
        (key : Option String) (v : Value) (counts : Counts)
        → outline key (walk cut key v counts).0 ≡ outline key v
    outline-walk key null counts = refl
    outline-walk key (bool b) counts = refl
    outline-walk key (num n) counts = refl
    outline-walk key (decimal t) counts = refl
    outline-walk key (str s) counts = ground arith
    outline-walk key (arr vs) counts = ap arr (outline-walk_items key vs counts)
    outline-walk key (obj fs) counts = ap obj (outline-walk_fields fs counts)

    outline-walk_items :
        (key : Option String) (vs : Items) (counts : Counts)
        → outline_items key (walk_items cut key vs counts).0 ≡ outline_items key vs
    outline-walk_items key nil counts = refl
    outline-walk_items key (item v vs) counts =
        cc (outline-walk key v counts, outline-walk_items key vs (walk cut key v counts).1)

    outline-walk_fields :
        (fs : Fields) (counts : Counts)
        → outline_fields (walk_fields cut fs counts).0 ≡ outline_fields fs
    outline-walk_fields end counts = refl
    outline-walk_fields (field k v fs) counts =
        cc (outline-walk (some k) v counts, outline-walk_fields fs (walk cut (some k) v counts).1)

  -- What `walk` does to the texts and to the counts, for the texts of one value.
  abbrev Redacts : List String → List String → Counts → Counts → Type 0
  Redacts before after counts counts' =
      (after ≡ map redacted before) × (total counts' ≡ total counts + replacements before)

  Redacts-append :
      (xs ys xs' ys' : List String) (c c' c'' : Counts)
      → Redacts xs xs' c c'
      → Redacts ys ys' c' c''
      → Redacts (xs ++ ys) (xs' ++ ys') c c''
  Redacts-append xs ys xs' ys' c c' c'' (e, n) (f, m) =
      (rw e (rw f (sym (map-redacted-append xs ys))), omega (arith, replacements-append xs ys))

  mutual
    unfolding walk outline texts

    walk-Redacts :
        (key : Option String) (v : Value) (counts : Counts)
        → Redacts
            (texts key v)
            (texts key (walk cut key v counts).0)
            counts
            (walk cut key v counts).1
    walk-Redacts key null counts = (refl, omega arith)
    walk-Redacts key (bool b) counts = (refl, omega arith)
    walk-Redacts key (num n) counts = (refl, omega arith)
    walk-Redacts key (decimal t) counts = (refl, omega arith)
    walk-Redacts key (str s) counts = elim (Bool-cases (is_structural key)) [
      | inl fixed ↦ rw fixed (rw fixed (refl, omega arith))
      | inr free ↦
          rw free (rw free (refl, omega (arith, total-merged (redact_text cut s).1 counts)))
    ]
    walk-Redacts key (arr vs) counts = walk_items-Redacts key vs counts
    walk-Redacts key (obj fs) counts = walk_fields-Redacts fs counts

    walk_items-Redacts :
        (key : Option String) (vs : Items) (counts : Counts)
        → Redacts
            (texts_items key vs)
            (texts_items key (walk_items cut key vs counts).0)
            counts
            (walk_items cut key vs counts).1
    walk_items-Redacts key nil counts = (refl, omega arith)
    walk_items-Redacts key (item v vs) counts =
        Redacts-append (texts key v) (texts_items key vs) _ _ counts (walk cut key v counts).1 _
          (walk-Redacts key v counts) (walk_items-Redacts key vs (walk cut key v counts).1)

    walk_fields-Redacts :
        (fs : Fields) (counts : Counts)
        → Redacts
            (texts_fields fs)
            (texts_fields (walk_fields cut fs counts).0)
            counts
            (walk_fields cut fs counts).1
    walk_fields-Redacts end counts = (refl, omega arith)
    walk_fields-Redacts (field k v fs) counts =
        Redacts-append (texts (some k) v) (texts_fields fs) _ _ counts
          (walk cut (some k) v counts).1 _ (walk-Redacts (some k) v counts)
          (walk_fields-Redacts fs (walk cut (some k) v counts).1)

-- Redaction keeps every value, key and order of an event but its texts that stand under no structural
-- key; each of these becomes what `redactText` makes of it; and the counts add up to the number of
-- replacements in them.
pub redact_event-Redacts :
    (cut : String → String → List Piece) (event : Value)
    → (outline none (redact_event cut event).0 ≡ outline none event)
      × (texts none (redact_event cut event).0 ≡ map (redacted cut) (texts none event))
      × (total (redact_event cut event).1 ≡ replacements cut (texts none event))
unfolding redact_event
redact_event-Redacts cut event =
    let (after, count) = walk-Redacts cut none event [] in
    (outline-walk cut none event [], after, omega (arith, count))
