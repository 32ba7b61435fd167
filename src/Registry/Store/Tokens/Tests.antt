-- ===== src/Registry/Store/Tokens/Tests.antt =====
-- Tenants and tokens at concrete inputs; the digest of a text is the text itself.
use toqar.Common.{
  ◌≡◌, refl, ◌==◌, if◌then◌else◌, String, Bool, true, false, none, some, [], ◌∷◌, map_get,
}
use toqar.Json.{Value, str, obj, field, end}
use toqar.Registry.Inputs.{parse_scope}
use toqar.Registry.Table.{select}
use toqar.Registry.Store.{Db, TokenRow, ok, empty_db, committed}
use toqar.Registry.Store.Entries.Writes.{stored}
use toqar.Registry.Store.Tokens.{
  Uuids, live_token, resolve_token, default_tenant, issue_token, revoke_token, create_tenant,
}
use toqar.Registry.Store.Tokens.Resolution.{
  withdrawn, resolve_token-issue_token, resolve_token-revoke_token,
}
use toqar.Registry.Store.Tokens.Seeding.{IsCreated, IsNew, create_tenant-IsCreated}

abbrev row : String → String → Bool → TokenRow
row token_id hash revoked = record {
  token_id = token_id;
  token_hash = hash;
  prefix = "tok_";
  scope = "events:write";
  revoked = revoked;
}

abbrev db : Db
db = record empty_db {
  tenants = ("t1", default_tenant "globex") ∷ [];
  tokens =
      ("t1", row "tk_1" "tok_a" false)
      ∷ ("t2", row "tk_2" "tok_b" false)
      ∷ ("t1", row "tk_3" "tok_c" true)
      ∷ [];
}

abbrev uuids : Uuids
uuids = record { of_secret = "d"; of_id = "4" }

abbrev request : Value
request = obj (field "scope" (str "api:full") end)

abbrev same_text : String → String
same_text s = s

scope_parses : parse_scope request ≡ some "api:full"
unfolding parse_scope map_get
scope_parses = refl

unissued : live_token "tok_d" db.tokens ≡ none
unfolding live_token
unissued = refl

resolve_token-issue_token_example :
    resolve_token same_text "tok_d" (committed (issue_token same_text "t2" request "ada" uuids) db)
    ≡ (if "tok_d" == "tok_d" then some ("t2", "api:full") else resolve_token same_text "tok_d" db)
resolve_token-issue_token_example =
    resolve_token-issue_token same_text "t2" request "ada" uuids "api:full" db "tok_d" scope_parses
      unissued

resolve_token-revoke_token_example :
    resolve_token same_text "tok_a" (committed (revoke_token "t1" "tk_1" "ada") db)
    ≡ withdrawn "t1" "tk_1" (live_token "tok_a" db.tokens)
resolve_token-revoke_token_example =
    resolve_token-revoke_token same_text "t1" "tk_1" "ada" db "tok_a"
      ((refl, (refl, tt)), ((refl, tt), (tt, tt)))

revocation_tests :
    (withdrawn "t1" "tk_1" (live_token "tok_a" db.tokens) ≡ none)
    × (withdrawn "t2" "tk_1" (live_token "tok_a" db.tokens) ≡ some ("t1", "events:write"))
    × (withdrawn "t1" "tk_1" (live_token "tok_b" db.tokens) ≡ some ("t2", "events:write"))
    × (withdrawn "t1" "tk_1" (live_token "tok_c" db.tokens) ≡ none)
unfolding live_token
revocation_tests = (refl, refl, refl, refl)

no_entries : (k : String) → stored "t_9" k db.entries ≡ none
unfolding stored select
no_entries k = refl

tenant-IsNew : IsNew "t_9" "tk_4" "tok_d" db
tenant-IsNew = record {
  tenant = (refl, tt);
  token = ((refl, refl), ((refl, refl), ((refl, refl), tt)));
}

create_tenant-IsCreated_example :
    (db' : Db) × (create_tenant same_text "9" "acme" uuids db ≡ ok ("t_9", "tok_d") db')
    × IsCreated same_text "t_9" "acme" "tok_d" db db'
create_tenant-IsCreated_example =
    create_tenant-IsCreated same_text "9" "acme" uuids db tenant-IsNew no_entries
