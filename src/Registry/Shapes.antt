-- ===== src/Registry/Shapes.antt =====
-- The schemas of packages/registry/src/envelope.ts and events.ts are zod objects whose members are
-- texts, numbers, Booleans and such objects again. Here they are data: `issues` are the paths that
-- `safeParse` complains of, and `cleaned` is the value that it returns where there are none, which has
-- the schema's keys only. What zod takes for a UUID, a date or a number's sign is a parameter.
pub mod Stability
use toqar.Common.{
  ℕ, String, Bool, true, false, Option, none, some, List, [], ◌∷◌, ◌++◌, ◌==◌, if◌then◌else◌,
  includes, map_get,
}
use toqar.Json.{Value, null, bool, num, decimal, str, arr, obj, Fields, end, field, fields}

pub data Presence : Type 0 where
  required optional : Presence

mutual
  pub data Check : Type 0 where
    -- `z.string().min(1)`, `z.string()`, `.uuid()`, `.datetime({ offset: true })`, `.regex(…)`.
    text any_text uuid datetime snake_case : Check
    literal : String → Check
    one_of : List String → Check
    -- `z.boolean()`, `z.number()`, `.nonnegative()`, `.int().nonnegative()`.
    boolean number non_negative count : Check
    object : Shape → Check

  pub data Shape : Type 0 where
    done : Shape
    member : Presence → String → Check → Shape → Shape

pub data Code : Type 0 where
  missing wrong_type too_small not_integer bad_format bad_literal bad_option bad_event : Code

pub record Issue : Type 0 where
  pub path : List String
  pub code : Code

pub record Formats : Type 0 where
  pub is_uuid : String → Bool
  pub is_datetime : String → Bool
  pub is_snake_case : String → Bool
  -- On the text of a number that is not natural.
  pub is_integer : String → Bool
  pub is_non_negative : String → Bool

abbrev pub complain : List String → Code → List Issue
complain path code = record { path = path; code = code } ∷ []

abbrev pub expect : Bool → List String → Code → List Issue
expect holds path code = if holds then [] else complain path code

abbrev pub on_text : (String → List Issue) → List String → Value → List Issue
on_text f path (str s) = f s
on_text f path v = complain path wrong_type

abbrev pub on_boolean : List String → Value → List Issue
on_boolean path (bool b) = []
on_boolean path v = complain path wrong_type

-- A natural number has no issue.
abbrev pub on_number : (String → List Issue) → List String → Value → List Issue
on_number f path (num n) = []
on_number f path (decimal t) = f t
on_number f path v = complain path wrong_type

abbrev pub on_object : (Fields → List Issue) → List String → Value → List Issue
on_object f path (obj fs) = f fs
on_object f path v = complain path wrong_type

abbrev pub on_member : Presence → (Value → List Issue) → List String → Option Value → List Issue
on_member required f path none = complain path missing
on_member optional f path none = []
on_member p f path (some v) = f v

abbrev pub within : (Fields → Fields) → Value → Value
within f (obj fs) = obj (f fs)
within f v = v

abbrev pub kept : String → (Value → Value) → Option Value → Fields → Fields
kept k f none rest = rest
kept k f (some v) rest = field k (f v) rest

abbrev pub keys : Shape → List String
keys done = []
keys (member p k c s) = k ∷ keys s

unfoldable mutual
  pub cleaned : Check → Value → Value
  cleaned (object s) v = within (cleaned_fields s) v
  cleaned c v = v

  pub cleaned_fields : Shape → Fields → Fields
  cleaned_fields done fs = end
  cleaned_fields (member p k c s) fs =
      kept k (cleaned c) (map_get (fields fs) k) (cleaned_fields s fs)

module _ (formats : Formats) where
  open formats use {is_uuid, is_datetime, is_snake_case, is_integer, is_non_negative}

  unfoldable mutual
    pub issues : Check → List String → Value → List Issue
    issues text path v = on_text (λ s. if s == "" then complain path too_small else []) path v
    issues any_text path v = on_text (λ s. []) path v
    issues uuid path v = on_text (λ s. expect (is_uuid s) path bad_format) path v
    issues datetime path v = on_text (λ s. expect (is_datetime s) path bad_format) path v
    issues snake_case path v = on_text (λ s. expect (is_snake_case s) path bad_format) path v
    issues (literal name) path v = on_text (λ s. expect (s == name) path bad_literal) path v
    issues (one_of names) path v = on_text (λ s. expect (includes names s) path bad_option) path v
    issues boolean path v = on_boolean path v
    issues number path v = on_number (λ t. []) path v
    issues non_negative path v = on_number (λ t. expect (is_non_negative t) path too_small) path v
    issues count path v =
        on_number
          (λ t. expect (is_integer t) path not_integer ++ expect (is_non_negative t) path too_small)
          path v
    issues (object s) path v = on_object (field_issues s path) path v

    pub field_issues : Shape → List String → Fields → List Issue
    field_issues done path fs = []
    field_issues (member p k c s) path fs =
        on_member p (issues c (path ++ k ∷ [])) (path ++ k ∷ []) (map_get (fields fs) k)
        ++ field_issues s path fs
