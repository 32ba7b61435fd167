-- ===== src/Collector/Redact.antt =====
-- packages/collector/src/redact.ts: redaction at ingest. How a recognizer's regular expression cuts a
-- text into what it matches and what lies between is a parameter; the recognizers, their order, the
-- counts and the walk through an event are the code's.
pub mod Shape
pub mod Luhn
mod Tests
use Prim.Native.String.{◌++◌}
use toqar.Common.Texts.{codes}
use toqar.Common.{
  ℕ, zero, suc, ◌+◌, ◌-◌, ◌*◌, ◌%◌, String, Bool, true, false, not, ◌&&◌, ◌||◌, Option, none, some,
  List, [], ◌∷◌, if◌then◌else◌, leb, ltb, eqb, length, filter, all, includes, map_get, map_set,
}
use toqar.Json.{
  Value, null, bool, num, decimal, str, arr, obj, Items, nil, item, Fields, end, field,
}

abbrev pub is_digit : ℕ → Bool
is_digit c = leb b'0' c && leb c b'9'

-- `[\s-]`, of a text in ASCII.
abbrev pub is_separator : ℕ → Bool
is_separator c = eqb c b'-' || eqb c b' ' || (leb 9 c && leb c 13)

abbrev pub doubled : ℕ → ℕ
doubled d = if ltb 9 (d * 2) then d * 2 - 9 else d * 2

-- The loop over the digits, the last one first.
unfoldable pub luhn_sum : Bool → List ℕ → ℕ → ℕ
luhn_sum alt [] sum = sum
luhn_sum alt (d ∷ ds) sum = luhn_sum (not alt) ds (sum + (if alt then doubled d else d))

abbrev reversed : List ℕ → List ℕ → List ℕ
reversed [] out = out
reversed (d ∷ ds) out = reversed ds (d ∷ out)

abbrev digit_of : ℕ → ℕ
digit_of c = c - b'0'

abbrev pub digits_of : List ℕ → List ℕ
digits_of [] = []
digits_of (c ∷ cs) = digit_of c ∷ digits_of cs

-- The test on the digits. Of a character that is no digit `Number` makes `NaN`, and so of the sum.
unfoldable pub luhn_digits : List ℕ → Bool
luhn_digits cs =
    if ltb (length cs) 13 || ltb 19 (length cs)
    then false
    else all is_digit cs && eqb (luhn_sum false (reversed (digits_of cs) []) 0 % 10) 0

unfoldable pub luhn : String → Bool
luhn raw = luhn_digits (filter (λ c. not (is_separator c)) (codes raw))

pub data Piece : Type 0 where
  between : String → Piece
  match : String → Piece

pub record Recognizer : Type 0 where
  pub kind : String
  pub placeholder : String
  pub verify : Option (String → Bool)

abbrev plain : String → String → Recognizer
plain kind placeholder = record { kind = kind; placeholder = placeholder; verify = none }

unfoldable pub secret_recognizers : List Recognizer
secret_recognizers =
    plain "aws_access_key" "[REDACTED:aws_access_key]"
    ∷ plain "github_token" "[REDACTED:github_token]"
    ∷ plain "anthropic_key" "[REDACTED:anthropic_key]"
    ∷ plain "openai_key" "[REDACTED:openai_key]"
    ∷ plain "slack_token" "[REDACTED:slack_token]"
    ∷ plain "private_key_block" "[REDACTED:private_key]"
    ∷ plain "bearer_token" "[REDACTED:bearer_token]"
    ∷ []

unfoldable pub pii_recognizers : List Recognizer
pii_recognizers =
    plain "email" "[REDACTED:email]"
    ∷ plain "ssn" "[REDACTED:ssn]"
    ∷ record { kind = "credit_card"; placeholder = "[REDACTED:credit_card]"; verify = some luhn }
    ∷ plain "phone" "[REDACTED:phone]"
    ∷ plain "ipv4" "[REDACTED:ip]"
    ∷ []

-- A `Map` from kinds to counts.
abbrev pub Counts : Type 0
Counts = List (String × ℕ)

abbrev pub or_zero : Option ℕ → ℕ
or_zero none = 0
or_zero (some n) = n

abbrev pub counted : String → ℕ → Counts → Counts
counted kind n counts = map_set counts kind (or_zero (map_get counts kind) + n)

abbrev pub is_verified : Option (String → Bool) → String → Bool
is_verified none found = true
is_verified (some verify) found = verify found

-- The text with the matches of one recognizer replaced.
unfoldable pub replaced : Recognizer → List Piece → Counts → String × Counts
replaced r [] counts = ("", counts)
replaced r (between s ∷ pieces) counts =
    let (rest, counts') = replaced r pieces counts in (s ++ rest, counts')
replaced r (match s ∷ pieces) counts =
    let verified = is_verified r.verify s in
    let (rest, counts') =
      replaced r pieces (if verified then counted r.kind 1 counts else counts) in
    ((if verified then r.placeholder else s) ++ rest, counts')

unfoldable pub structural_keys : List String
structural_keys =
    "event" ∷ "event_id" ∷ "schema_version" ∷ "timestamp" ∷ "task_id" ∷ "run_id" ∷ "session_id"
    ∷ "task_type" ∷ "tenant_id" ∷ "step_id" ∷ "step_index" ∷ "step_type" ∷ "handoff_id"
    ∷ "tool_name" ∷ "model" ∷ "status" ∷ "verification" ∷ "initiator" ∷ "retry_of_step_id"
    ∷ "channel" ∷ "source" ∷ "kind" ∷ "unit" ∷ "abandoned_by" ∷ "reason" ∷ "blocking" ∷ "retryable"
    ∷ "verifier" ∷ "name" ∷ "version" ∷ []

-- The key under which a value stands, `none` at the top.
unfoldable pub is_structural : Option String → Bool
is_structural none = false
is_structural (some key) = includes structural_keys key

abbrev pub merged : Counts → Counts → Counts
merged [] all_counts = all_counts
merged ((kind, n) ∷ more) all_counts = merged more (counted kind n all_counts)

abbrev pub total : Counts → ℕ
total [] = 0
total ((kind, n) ∷ counts) = n + total counts

-- The pieces of a text for the recognizer of a kind.
module _ (cut : String → String → List Piece) where
  unfoldable pub replace_all : List Recognizer → String → Counts → String × Counts
  replace_all [] text counts = (text, counts)
  replace_all (r ∷ rs) text counts =
      let (text', counts') = replaced r (cut r.kind text) counts in replace_all rs text' counts'

  unfoldable pub redact_text : String → String × Counts
  redact_text text =
      let (text', counts) = replace_all secret_recognizers text [] in
      replace_all pii_recognizers text' counts

  unfoldable mutual
    pub walk : Option String → Value → Counts → Value × Counts
    walk key null counts = (null, counts)
    walk key (bool b) counts = (bool b, counts)
    walk key (num n) counts = (num n, counts)
    walk key (decimal t) counts = (decimal t, counts)
    walk key (str s) counts =
        if is_structural key
        then (str s, counts)
        else (str (redact_text s).0, merged (redact_text s).1 counts)
    walk key (arr vs) counts = let (vs', counts') = walk_items key vs counts in (arr vs', counts')
    walk key (obj fs) counts = let (fs', counts') = walk_fields fs counts in (obj fs', counts')

    pub walk_items : Option String → Items → Counts → Items × Counts
    walk_items key nil counts = (nil, counts)
    walk_items key (item v vs) counts =
        let (v', counts') = walk key v counts in
        let (vs', counts'') = walk_items key vs counts' in (item v' vs', counts'')

    pub walk_fields : Fields → Counts → Fields × Counts
    walk_fields end counts = (end, counts)
    walk_fields (field k v fs) counts =
        let (v', counts') = walk (some k) v counts in
        let (fs', counts'') = walk_fields fs counts' in (field k v' fs', counts'')

  unfoldable pub redact_event : Value → Value × Counts
  redact_event event = walk none event []
