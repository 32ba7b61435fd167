-- ===== src/Registry/Store/Isolation/Tenants.antt =====
-- packages/registry-service/src/store.ts: the methods on a tenant's tokens, autonomy and settings are
-- scoped.
use toqar.Common.{ℕ, String, Option, none, some, first}
use toqar.Json.{Value}
use toqar.Registry.Inputs.{parse_scope, parse_grant, parse_residency, parse_flag, parse_retention}
use toqar.Registry.Table.Local.{insert-IsLocal, update-IsLocal}
use toqar.Registry.Table.{newest_first}
use toqar.Registry.Store.{TenantRow, TokenRow, read}
use toqar.Registry.Store.Tokens.{
  NewToken, Uuids, new_token, write_token, issue_token, list_tokens, revoke_found, revoke_token,
}
use toqar.Registry.Store.Settings.{
  any_row, dial, get_autonomy, grant_autonomy, settings_of, get_ingest_settings, get_retention_days,
  update_tenant, set_residency, set_redaction_optout, set_days, set_retention_days,
}
use toqar.Registry.Store.Isolation.{
  IsScoped, pure-IsScoped, parsed-IsScoped, bind-IsScoped, then-IsScoped, write-IsScoped,
  select-IsScoped,
}
use toqar.Registry.Store.Isolation.Tables.{
  tenants_table, tokens_table, grants_table, audit-IsScoped,
}

module _ (t : String) where
  module _ (hash : String → String) where
    write_token-IsScoped :
        (made : NewToken) (scope : String) → IsScoped t (write_token hash t made scope)
    unfolding write_token
    write_token-IsScoped made scope = write-IsScoped t tokens_table _ (insert-IsLocal t _)

    pub issue_token-IsScoped :
        (value : Value) (actor : String) (uuids : Uuids)
        → IsScoped t (issue_token hash t value actor uuids)
    unfolding issue_token
    issue_token-IsScoped value actor uuids =
        bind-IsScoped t _ _ (parsed-IsScoped t (parse_scope value)) λ scope.
          then-IsScoped t _ _ (write_token-IsScoped (new_token uuids) scope)
            (then-IsScoped t _ _ (audit-IsScoped t actor _ _ _ _) (pure-IsScoped t _))

  pub list_tokens-IsScoped : IsScoped t (read (list_tokens t))
  unfolding list_tokens
  list_tokens-IsScoped = select-IsScoped t tokens_table _ λ rows. rows

  revoke_found-IsScoped :
      (token_id actor : String) (found : Option TokenRow)
      → IsScoped t (revoke_found t token_id actor found)
  revoke_found-IsScoped token_id actor none = pure-IsScoped t _
  revoke_found-IsScoped token_id actor (some r) =
      then-IsScoped t _ _ (write-IsScoped t tokens_table _ (update-IsLocal t _ _))
        (then-IsScoped t _ _ (audit-IsScoped t actor _ _ _ _) (pure-IsScoped t _))

  pub revoke_token-IsScoped : (token_id actor : String) → IsScoped t (revoke_token t token_id actor)
  unfolding revoke_token
  revoke_token-IsScoped token_id actor =
      bind-IsScoped t _ _ (select-IsScoped t tokens_table _ first)
        λ found. revoke_found-IsScoped token_id actor found

  pub get_autonomy-IsScoped : IsScoped t (read (get_autonomy t))
  unfolding get_autonomy
  get_autonomy-IsScoped = select-IsScoped t grants_table _ λ rows. dial (newest_first rows)

  pub grant_autonomy-IsScoped :
      (show : ℕ → String) (value : Value) (actor : String)
      → IsScoped t (grant_autonomy show t value actor)
  unfolding grant_autonomy
  grant_autonomy-IsScoped show value actor =
      bind-IsScoped t _ _ (parsed-IsScoped t (parse_grant value)) λ grant.
        then-IsScoped t _ _ (write-IsScoped t grants_table _ (insert-IsLocal t _))
          (then-IsScoped t _ _ (audit-IsScoped t actor _ _ _ _) (pure-IsScoped t _))

  pub get_ingest_settings-IsScoped : IsScoped t (read (get_ingest_settings t))
  unfolding get_ingest_settings
  get_ingest_settings-IsScoped = select-IsScoped t tenants_table _ λ rows. settings_of (first rows)

  pub get_retention_days-IsScoped : IsScoped t (read (get_retention_days t))
  unfolding get_retention_days get_ingest_settings
  get_retention_days-IsScoped =
      select-IsScoped t tenants_table _ λ rows. (settings_of (first rows)).retention_days

  update_tenant-IsScoped : (f : TenantRow → TenantRow) → IsScoped t (update_tenant t f)
  update_tenant-IsScoped f = write-IsScoped t tenants_table _ (update-IsLocal t any_row f)

  pub set_residency-IsScoped :
      (value : Value) (actor : String) → IsScoped t (set_residency t value actor)
  unfolding set_residency
  set_residency-IsScoped value actor =
      bind-IsScoped t _ _ (parsed-IsScoped t (parse_residency value))
        λ residency. then-IsScoped t _ _ (update_tenant-IsScoped _) (audit-IsScoped t actor _ _ _ _)

  pub set_redaction_optout-IsScoped :
      (value : Value) (actor : String) → IsScoped t (set_redaction_optout t value actor)
  unfolding set_redaction_optout
  set_redaction_optout-IsScoped value actor =
      bind-IsScoped t _ _ (parsed-IsScoped t (parse_flag "redaction_optout" value))
        λ optout. then-IsScoped t _ _ (update_tenant-IsScoped _) (audit-IsScoped t actor _ _ _ _)

  set_days-IsScoped :
      (show : ℕ → String) (days : ℕ) (actor : String) (before : Option TenantRow)
      → IsScoped t (set_days show t days actor before)
  set_days-IsScoped show days actor before =
      then-IsScoped t _ _ (update_tenant-IsScoped _) (audit-IsScoped t actor _ _ _ _)

  pub set_retention_days-IsScoped :
      (show : ℕ → String) (value : Value) (actor : String)
      → IsScoped t (set_retention_days show t value actor)
  unfolding set_retention_days
  set_retention_days-IsScoped show value actor =
      bind-IsScoped t _ _ (parsed-IsScoped t (parse_retention value)) λ days.
        bind-IsScoped t _ _ (select-IsScoped t tenants_table _ first)
          λ before. set_days-IsScoped show days actor before
