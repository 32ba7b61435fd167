-- ===== src/Registry/Store/Settings.antt =====
-- packages/registry-service/src/store.ts: the autonomy dial and the tenant's ingest settings. `show`
-- is how a template writes a number.
pub mod Reading
mod Tests
use Prim.Native.String.{◌++◌}
use toqar.Common.{
  first, ℕ, String, Bool, true, false, not, Option, none, some, List, [], ◌∷◌, if◌then◌else◌,
}
use toqar.Json.{Value, null, num, bool, str, obj, field, end}
use toqar.Registry.Inputs.{Grant, parse_grant, parse_residency, parse_flag, parse_retention}
use toqar.Registry.Table.{Rows, select, insert, update, newest_first}
use toqar.Registry.Store.{
  GrantRow, TenantRow, Db, Operation, Tx, ◌>>=◌, ◌>>◌, pure, read, write, parsed, audit,
}

abbrev pub any_row : {A : Type 0} → A → Bool
any_row a = true

abbrev pub level_of : Option GrantRow → ℕ
level_of none = 0
level_of (some r) = r.level

pub record Autonomy : Type 0 where
  pub level : ℕ
  pub history : List GrantRow

abbrev pub dial : List GrantRow → Autonomy
dial rows = record { level = level_of (first rows); history = rows }

unfoldable pub get_autonomy : String → Db → Autonomy
get_autonomy tenant db = dial (newest_first (select tenant any_row db.grants))

unfoldable pub grant_autonomy : (ℕ → String) → String → Value → String → Tx ℕ
grant_autonomy show tenant value actor = do
  grant ← parsed (parse_grant value)
  write (λ db. record db {
    grants =
        insert tenant (record { level = grant.level; granted_by = grant.granted_by }) db.grants;
  })
  audit tenant actor Operation.autonomy ("level_" ++ show grant.level) null
      (obj (field "level" (num grant.level) (field "granted_by" (str grant.granted_by) end)))
  pure grant.level

pub record IngestSettings : Type 0 where
  pub retention_days : ℕ
  pub redact : Bool
  pub residency : String

abbrev pub settings_of : Option TenantRow → IngestSettings
settings_of none = record { retention_days = 365; redact = true; residency = "us" }
settings_of (some r) = record {
  retention_days = r.retention_days;
  redact = not r.redaction_optout;
  residency = r.residency;
}

unfoldable pub get_ingest_settings : String → Db → IngestSettings
get_ingest_settings tenant db = settings_of (first (select tenant any_row db.tenants))

unfoldable pub get_retention_days : String → Db → ℕ
get_retention_days tenant db = (get_ingest_settings tenant db).retention_days

abbrev pub update_tenant : String → (TenantRow → TenantRow) → Tx (Unit {0})
update_tenant tenant f = write (λ db. record db { tenants = update tenant any_row f db.tenants })

unfoldable pub set_residency : String → Value → String → Tx (Unit {0})
set_residency tenant value actor = do
  residency ← parsed (parse_residency value)
  update_tenant tenant (λ r. record r { residency = residency })
  audit tenant actor Operation.retention ("residency_" ++ residency) null
      (obj (field "residency" (str residency) end))

unfoldable pub set_redaction_optout : String → Value → String → Tx (Unit {0})
set_redaction_optout tenant value actor = do
  optout ← parsed (parse_flag "redaction_optout" value)
  update_tenant tenant (λ r. record r { redaction_optout = optout })
  audit tenant actor Operation.retention (if optout then "redaction_optout" else "redaction_on")
      null (obj (field "redaction_optout" (bool optout) end))

abbrev pub days_before : Option TenantRow → Value
days_before none = obj (field "retention_days" null end)
days_before (some r) = obj (field "retention_days" (num r.retention_days) end)

abbrev pub set_days : (ℕ → String) → String → ℕ → String → Option TenantRow → Tx (Unit {0})
set_days show tenant days actor before = do
  update_tenant tenant (λ r. record r { retention_days = days })
  audit tenant actor Operation.retention (show days ++ "d") (days_before before)
      (obj (field "retention_days" (num days) end))

unfoldable pub set_retention_days : (ℕ → String) → String → Value → String → Tx (Unit {0})
set_retention_days show tenant value actor = do
  days ← parsed (parse_retention value)
  before ← read (λ db. first (select tenant any_row db.tenants))
  set_days show tenant days actor before
