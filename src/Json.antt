-- ===== src/Json.antt =====
-- JSON values, as the services receive, store and compare them. A number that is not a natural
-- number (negative or fractional) is kept by its text. The keys of an object stand in order.
use toqar.Common.{
  ℕ, String, Bool, Option, none, some, List, [], ◌∷◌, map, ◌==◌, if◌then◌else◌, map_get,
}
use toqar.Common.Options.{◌>>=◌}

mutual
  pub data Value : Type 0 where
    null : Value
    bool : Bool → Value
    num : ℕ → Value
    decimal : String → Value
    str : String → Value
    arr : Items → Value
    obj : Fields → Value

  pub data Items : Type 0 where
    nil : Items
    item : Value → Items → Items

  pub data Fields : Type 0 where
    end : Fields
    field : String → Value → Fields → Fields

abbrev pub items : Items → List Value
items nil = []
items (item v vs) = v ∷ items vs

abbrev pub items_of : List Value → Items
items_of [] = nil
items_of (v ∷ vs) = item v (items_of vs)

abbrev pub fields : Fields → List (String × Value)
fields end = []
fields (field k v fs) = (k, v) ∷ fields fs

abbrev pub fields_of : List (String × Value) → Fields
fields_of [] = end
fields_of ((k, v) ∷ fs) = field k v (fields_of fs)

-- The value of a key; `none` is `undefined`.
abbrev pub prop : String → Value → Option Value
prop k (obj fs) = map_get (fields fs) k
prop k v = none

abbrev pub as_str : Value → Option String
as_str (str s) = some s
as_str v = none

abbrev pub as_items : Value → Option (List Value)
as_items (arr vs) = some (items vs)
as_items v = none

abbrev pub as_num : Value → Option ℕ
as_num (num n) = some n
as_num v = none

abbrev pub as_bool : Value → Option Bool
as_bool (bool b) = some b
as_bool v = none

-- `z.string().min(1)`.
abbrev pub non_empty : String → Option String
non_empty s = if s == "" then none else some s

abbrev pub text : String → Value → Option String
text k v = do found ← prop k v; s ← as_str found; non_empty s

-- `z.string().min(1).optional()`: an absent key is fine, a value of another kind is not.
abbrev pub optional_text_of : Option Value → Option (Option String)
optional_text_of none = some none
optional_text_of (some v) = do s ← as_str v; t ← non_empty s; some (some t)

abbrev pub optional_text : String → Value → Option (Option String)
optional_text k v = optional_text_of (prop k v)

-- `z.string().optional()`, which takes the empty text too.
abbrev pub string_if_given : Option Value → Option (Option String)
string_if_given none = some none
string_if_given (some v) = do s ← as_str v; some (some s)

abbrev pub str_items : List String → Value
str_items xs = arr (items_of (map str xs))
