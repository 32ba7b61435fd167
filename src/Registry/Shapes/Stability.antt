-- ===== src/Registry/Shapes/Stability.antt =====
-- What a schema returns conforms to the schema and has no further key, so it is returned unchanged
-- when it is parsed again.
use toqar.Common.{
  ◌∙◌, String, Bool, true, false, not, ◌&&◌, Option, none, some, List, [], ◌∷◌, ◌++◌, ◌≡◌, refl, ap,
  ◌==◌, if◌then◌else◌, includes, map_get, arith, eq_iff, Bool-cases, inl, inr,
}
use toqar.Json.{prop, Value, obj, Fields, fields}
use toqar.Registry.Shapes.{
  Presence, required, optional, Check, object, Shape, done, member, Formats, keys, kept, on_member,
  cleaned, cleaned_fields, issues, field_issues,
}

-- No object of the schema names a key twice.
unfoldable mutual
  pub is_proper : Check → Bool
  is_proper (object s) = is_proper_shape s
  is_proper c = true

  pub is_proper_shape : Shape → Bool
  is_proper_shape done = true
  is_proper_shape (member p k c s) = not (includes (keys s) k) && is_proper c && is_proper_shape s

proper_parts : (a b c : Bool) → (not a && b && c) ≡ true → (a ≡ false) × (b ≡ true) × (c ≡ true)
proper_parts a b c h = ground arith

both_empty : {A : Type 0} (xs ys : List A) → xs ++ ys ≡ [] → (xs ≡ []) × (ys ≡ [])
both_empty [] ys h = (refl, h)
both_empty (x ∷ xs) ys h = cc

abbrev pub image : (Value → Value) → Option Value → Option Value
image f none = none
image f (some v) = some (f v)

-- `G` holds, under every key of the shape, what the shape makes of the member of `fs`.
abbrev Agrees : Shape → Fields → Fields → Type 0
Agrees done fs G = Unit
Agrees (member p k c s) fs G =
    (map_get (fields G) k ≡ image (cleaned c) (map_get (fields fs) k)) × Agrees s fs G

map_get-kept :
    (k j : String) (f : Value → Value) (o : Option Value) (G : Fields)
    → (k == j) ≡ false
    → map_get (fields (kept k f o G)) j ≡ map_get (fields G) j
unfolding map_get
map_get-kept k j f none G h = refl
map_get-kept k j f (some v) G h = ground arith

Agrees-kept :
    (s : Shape) (k : String) (f : Value → Value) (o : Option Value) (fs G : Fields)
    → includes (keys s) k ≡ false
    → Agrees s fs G
    → Agrees s fs (kept k f o G)
Agrees-kept done k f o fs G h a = tt
Agrees-kept (member p j c s) k f o fs G h (e, a) = (
  map_get-kept k j f o G (ground (arith, eq_iff k j, eq_iff j k)) ∙ e,
  Agrees-kept s k f o fs G (ground arith) a,
)

map_get-kept_self :
    (k : String) (f : Value → Value) (o : Option Value) (G : Fields)
    → map_get (fields G) k ≡ none
    → map_get (fields (kept k f o G)) k ≡ image f o
unfolding map_get
map_get-kept_self k f none G h = h
map_get-kept_self k f (some v) G h = ground (arith, eq_iff k k)

map_get-cleaned_fields :
    (s : Shape) (fs : Fields) (k : String)
    → includes (keys s) k ≡ false
    → map_get (fields (cleaned_fields s fs)) k ≡ none
unfolding map_get cleaned
map_get-cleaned_fields done fs k h = refl
map_get-cleaned_fields (member p j c s) fs k h =
    map_get-kept j k (cleaned c) (map_get (fields fs) j) (cleaned_fields s fs) (ground arith)
    ∙ map_get-cleaned_fields s fs k (ground arith)

Agrees-cleaned_fields :
    (s : Shape) (fs : Fields) → is_proper_shape s ≡ true → Agrees s fs (cleaned_fields s fs)
unfolding cleaned is_proper
Agrees-cleaned_fields done fs h = tt
Agrees-cleaned_fields (member p k c s) fs h =
    let (fresh, inner, rest) =
      proper_parts (includes (keys s) k) (is_proper c) (is_proper_shape s) h in
    (
      map_get-kept_self k (cleaned c) (map_get (fields fs) k) (cleaned_fields s fs)
          (map_get-cleaned_fields s fs k fresh),
      Agrees-kept s k (cleaned c) (map_get (fields fs) k) fs (cleaned_fields s fs) fresh
          (Agrees-cleaned_fields s fs rest),
    )

-- The check of the first member with a key.
unfoldable pub find_member : Shape → String → Option Check
find_member done key = none
find_member (member p k c s) key = if k == key then some c else find_member s key

Agrees-find_member :
    (s : Shape) (fs G : Fields) (key : String) (c : Check)
    → Agrees s fs G
    → find_member s key ≡ some c
    → map_get (fields G) key ≡ image (cleaned c) (map_get (fields fs) key)
unfolding find_member
Agrees-find_member done fs G key c a h = cc
Agrees-find_member (member p k d s) fs G key c (same, a) h = elim (Bool-cases (k == key)) [
  | inl here ↦ let e : d ≡ c = cc (rw here at h) in rw (← (eq_iff k key).0 here) (rw (← e) same)
  | inr there ↦ Agrees-find_member s fs G key c a (rw there at h)
]

pub map_get-cleaned :
    (s : Shape) (fs : Fields) (key : String) (c : Check)
    → is_proper (object s) ≡ true
    → find_member s key ≡ some c
    → prop key (cleaned (object s) (obj fs)) ≡ image (cleaned c) (map_get (fields fs) key)
unfolding cleaned is_proper
map_get-cleaned s fs key c h e =
    Agrees-find_member s fs (cleaned_fields s fs) key c (Agrees-cleaned_fields s fs h) e

module _ (formats : Formats) where
  -- What a parse with this check gives back, where the parse of `v` has no issue.
  abbrev IsStable : Check → Value → Type 0
  IsStable c v =
      (path : List String)
      → issues formats c path v ≡ []
      → (issues formats c path (cleaned c v) ≡ []) × (cleaned c (cleaned c v) ≡ cleaned c v)

  on_member-image :
      (p : Presence) (c : Check) (path : List String) (o : Option Value)
      → ((v : Value) → IsStable c v)
      → on_member p (issues formats c path) path o ≡ []
      → (on_member p (issues formats c path) path (image (cleaned c) o) ≡ [])
        × (image (cleaned c) (image (cleaned c) o) ≡ image (cleaned c) o)
  on_member-image required c path none stable h = (h, refl)
  on_member-image optional c path none stable h = (h, refl)
  on_member-image required c path (some v) stable h =
      let (clean, same) = stable v path h in (clean, ap some same)
  on_member-image optional c path (some v) stable h =
      let (clean, same) = stable v path h in (clean, ap some same)

  kept-image :
      (k : String) (f : Value → Value) (o : Option Value) (rest rest' : Fields)
      → image f (image f o) ≡ image f o
      → rest ≡ rest'
      → kept k f (image f o) rest ≡ kept k f o rest'
  kept-image k f none rest rest' h e = e
  kept-image k f (some v) rest rest' h e = cc

  mutual
    unfolding issues cleaned is_proper

    cleaned-IsStable : (c : Check) (v : Value) → is_proper c ≡ true → IsStable c v
    cleaned-IsStable (object s) (obj fs) h path e =
        let (clean, same) =
          Agrees-stable s fs (cleaned_fields s fs) path h (Agrees-cleaned_fields s fs h) e in
        (clean, ap obj same)
    cleaned-IsStable (object s) v h path e = (e, refl)
    cleaned-IsStable c v h path e = (e, refl)

    Agrees-stable :
        (s : Shape) (fs G : Fields) (path : List String)
        → is_proper_shape s ≡ true
        → Agrees s fs G
        → field_issues formats s path fs ≡ []
        → (field_issues formats s path G ≡ []) × (cleaned_fields s G ≡ cleaned_fields s fs)
    Agrees-stable done fs G path h a e = (refl, refl)
    Agrees-stable (member p k c s) fs G path h (same, a) e =
        let (fresh, inner, rest) =
          proper_parts (includes (keys s) k) (is_proper c) (is_proper_shape s) h in
        let (here, later) =
          both_empty
            (on_member p (issues formats c (path ++ k ∷ [])) (path ++ k ∷ [])
              (map_get (fields fs) k))
            (field_issues formats s path fs) e in
        let (clean, stays) =
          on_member-image p c (path ++ k ∷ []) (map_get (fields fs) k)
            (λ v. cleaned-IsStable c v inner) here in
        let (clean', stays') = Agrees-stable s fs G path rest a later in
        (
          rw same (rw clean clean'),
          rw same (
              kept-image k (cleaned c) (map_get (fields fs) k) (cleaned_fields s G)
                (cleaned_fields s fs) stays stays'),
        )

  pub cleaned-issues :
      (c : Check) (v : Value) (path : List String)
      → is_proper c ≡ true
      → issues formats c path v ≡ []
      → (issues formats c path (cleaned c v) ≡ []) × (cleaned c (cleaned c v) ≡ cleaned c v)
  cleaned-issues c v path h e = cleaned-IsStable c v h path e
