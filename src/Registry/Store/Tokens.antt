-- ===== src/Registry/Store/Tokens.antt =====
-- packages/registry-service/src/store.ts: tenants and their API tokens. The SHA-256 of a token is a
-- parameter; the random part of each new identifier is an argument.
pub mod Resolution
pub mod Seeding
mod Tests
use Prim.Native.String.{◌++◌}
use toqar.Common.{
  first, ℕ, zero, suc, String, Bool, true, false, Option, none, some, List, [], ◌∷◌, ◌==◌, ◌&&◌,
  not, if◌then◌else◌,
}
use toqar.Common.Texts.{slice_to}
use toqar.Json.{Value, null, str, obj, field, end}
use toqar.Registry.Schema.{RegistryEntry, entry_json}
use toqar.Registry.Taxonomy.{default_taxonomy}
use toqar.Registry.Inputs.{parse_scope}
use toqar.Registry.Table.{Rows, select, insert, update}
use toqar.Registry.Store.{
  TenantRow, TokenRow, Db, Operation, Tx, ◌>>=◌, ◌>>◌, pure, read, write, parsed, audit,
}
use toqar.Registry.Store.Entries.{each, write_entry}

pub record NewToken : Type 0 where
  pub token_id : String
  pub secret : String
  pub prefix : String

-- `randomUUID`, twice.
pub record Uuids : Type 0 where
  pub of_secret : String
  pub of_id : String

abbrev pub new_token : Uuids → NewToken
new_token uuids = record {
  token_id = "tk_" ++ uuids.of_id;
  secret = "tok_" ++ uuids.of_secret;
  prefix = slice_to 12 ("tok_" ++ uuids.of_secret);
}

-- The owner's query by hash, over the tokens of every tenant.
unfoldable pub live_token : String → Rows TokenRow → Option (String × TokenRow)
live_token hash [] = none
live_token hash ((u, r) ∷ rows) =
    if r.token_hash == hash && not r.revoked then some (u, r) else live_token hash rows

abbrev scope_of : Option (String × TokenRow) → Option (String × String)
scope_of none = none
scope_of (some (u, r)) = some (u, r.scope)

abbrev tenant_of : Option (String × String) → Option String
tenant_of none = none
tenant_of (some (u, scope)) = some u

unfoldable pub default_tenant : String → TenantRow
default_tenant name = record {
  name = name;
  retention_days = 365;
  redaction_optout = false;
  residency = "us";
}

abbrev pub seed_entry : String → RegistryEntry → Tx (Unit {0})
seed_entry tenant entry = do
  write_entry tenant entry
  audit tenant "system" Operation.seed entry.event null (entry_json entry)

unfoldable pub write_tenant : String → String → Tx (Unit {0})
write_tenant tenant name =
    write (λ db. record db { tenants = insert tenant (default_tenant name) db.tenants })

module _ (hash : String → String) where
  unfoldable pub resolve_token : String → Db → Option (String × String)
  resolve_token presented db = scope_of (live_token (hash presented) db.tokens)

  unfoldable pub find_tenant_by_token : String → Db → Option String
  find_tenant_by_token presented db = tenant_of (resolve_token presented db)

  unfoldable pub write_token : String → NewToken → String → Tx (Unit {0})
  write_token tenant made scope = write (λ db. record db {
    tokens =
        insert tenant
          (record {
            token_id = made.token_id;
            token_hash = hash made.secret;
            prefix = made.prefix;
            scope = scope;
            revoked = false;
          })
          db.tokens;
  })

  unfoldable pub issue_token : String → Value → String → Uuids → Tx NewToken
  issue_token tenant value actor uuids = do
    scope ← parsed (parse_scope value)
    write_token tenant (new_token uuids) scope
    audit tenant actor Operation.token (new_token uuids).prefix null (
        obj (
          field "token_id" (str (new_token uuids).token_id)
            (field "scope" (str scope) (field "action" (str "issued") end))))
    pure (new_token uuids)

  unfoldable pub create_tenant : String → String → Uuids → Tx (String × String)
  create_tenant uuid name uuids = do
    write_tenant ("t_" ++ uuid) name
    write_token ("t_" ++ uuid) (new_token uuids) "api:full"
    each (seed_entry ("t_" ++ uuid)) default_taxonomy
    pure ("t_" ++ uuid, (new_token uuids).secret)

unfoldable pub list_tokens : String → Db → List TokenRow
list_tokens tenant db = select tenant (λ r. true) db.tokens

abbrev pub revoked_row : TokenRow → TokenRow
revoked_row r = record r { revoked = true }

abbrev pub revoke_found : String → String → String → Option TokenRow → Tx Bool
revoke_found tenant token_id actor none = pure false
revoke_found tenant token_id actor (some r) = do
  write (λ db. record db {
    tokens = update tenant (λ q. q.token_id == token_id) revoked_row db.tokens;
  })
  audit tenant actor Operation.token r.prefix null
      (obj (field "token_id" (str token_id) (field "action" (str "revoked") end)))
  pure true

unfoldable pub revoke_token : String → String → String → Tx Bool
revoke_token tenant token_id actor = do
  found ←
      read (λ db. first (select tenant (λ r. r.token_id == token_id && not r.revoked) db.tokens))
  revoke_found tenant token_id actor found
