-- ===== src/Registry/Inputs.antt =====
-- packages/registry-service/src/store.ts: the schemas of the store's smaller requests.
use toqar.Common.{ℕ, String, Bool, Option, some, ◌&&◌, includes, List, [], ◌∷◌, leb}
use toqar.Common.Options.{◌>>=◌, ◌>>◌, guard}
use toqar.Json.{Value, prop, text, optional_text, as_str, as_num, as_bool}

-- `z.enum`.
abbrev pub one_of : List String → String → Value → Option String
one_of allowed k v = do found ← prop k v; s ← as_str found; guard (includes allowed s); some s

-- `tokenScopeSchema`.
unfoldable pub parse_scope : Value → Option String
parse_scope v = one_of ("events:write" ∷ "api:full" ∷ []) "scope" v

-- `runOutcomeSchema`.
unfoldable pub parse_outcome : Value → Option String
parse_outcome v = do
  s ← as_str v
  guard (includes ("delivered" ∷ "merged" ∷ "edited_then_merged" ∷ "rejected" ∷ []) s)
  some s

pub record Grant : Type 0 where
  pub level : ℕ
  pub granted_by : String

-- `autonomyGrantSchema`.
unfoldable pub parse_grant : Value → Option Grant
parse_grant v = do
  found ← prop "level" v
  level ← as_num found
  guard (leb level 3)
  granted_by ← text "granted_by" v
  some (record { level = level; granted_by = granted_by })

pub record StatusChange : Type 0 where
  pub status : String
  pub variant_pr_url : Option String

-- `experimentStatusSchema`.
unfoldable pub parse_status : Value → Option StatusChange
parse_status v = do
  status ← one_of ("created" ∷ "running" ∷ "concluded" ∷ "stopped" ∷ []) "status" v
  variant_pr_url ← optional_text "variant_pr_url" v
  some (record { status = status; variant_pr_url = variant_pr_url })

-- The schemas of the tenant's settings.
unfoldable pub parse_residency : Value → Option String
parse_residency v = one_of ("us" ∷ "eu" ∷ []) "residency" v

unfoldable pub parse_flag : String → Value → Option Bool
parse_flag k v = do found ← prop k v; as_bool found

unfoldable pub parse_retention : Value → Option ℕ
parse_retention v = do
  found ← prop "retention_days" v
  days ← as_num found
  guard (leb 1 days && leb days 3650)
  some days
