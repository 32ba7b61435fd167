-- ===== src/Registry/Store/Settings/Tests.antt =====
-- Settings and the autonomy dial at concrete inputs.
use toqar.Common.{
  ℕ, ◌≡◌, refl, ◌==◌, not, String, true, none, some, [], ◌∷◌, if◌then◌else◌, map_get,
}
use toqar.Json.{Value, num, bool, str, obj, field, end}
use toqar.Registry.Inputs.{Grant, parse_grant, parse_residency, parse_flag, parse_retention}
use toqar.Registry.Table.{select}
use toqar.Registry.Store.{Db, empty_db, committed}
use toqar.Registry.Store.Settings.{
  get_autonomy, grant_autonomy, get_ingest_settings, set_residency, set_redaction_optout,
  set_retention_days,
}
use toqar.Registry.Store.Settings.Reading.{
  get_autonomy-grant_autonomy, turned, exists, get_ingest_settings-set,
}
use toqar.Registry.Store.Tokens.{default_tenant}

abbrev db : Db
db = record empty_db {
  tenants = ("t1", default_tenant "acme") ∷ ("t2", default_tenant "globex") ∷ [];
  grants = ("t1", record { level = 3; granted_by = "ada" }) ∷ [];
}

abbrev show : ℕ → String
show n = "n"

abbrev grant_value : Value
grant_value = obj (field "level" (num 1) (field "granted_by" (str "ada") end))

abbrev grant : Grant
grant = record { level = 1; granted_by = "ada" }

grant_parses : parse_grant grant_value ≡ some grant
unfolding parse_grant map_get
grant_parses = refl

too_high : parse_grant (obj (field "level" (num 4) (field "granted_by" (str "ada") end))) ≡ none
unfolding parse_grant map_get
too_high = refl

-- A lower level takes effect at once, and the grant before it stays in the history.
get_autonomy-grant_autonomy_example :
    get_autonomy "t1" (committed (grant_autonomy show "t1" grant_value "ada") db)
    ≡ turned (record { level = 1; granted_by = "ada" }) (get_autonomy "t1" db)
get_autonomy-grant_autonomy_example =
    get_autonomy-grant_autonomy show "t1" "t1" grant_value "ada" grant db grant_parses

abbrev place : Value
place = obj (field "residency" (str "eu") end)

abbrev optout : Value
optout = obj (field "redaction_optout" (bool true) end)

abbrev days : Value
days = obj (field "retention_days" (num 30) end)

place_parses : parse_residency place ≡ some "eu"
unfolding parse_residency map_get
place_parses = refl

optout_parses : parse_flag "redaction_optout" optout ≡ some true
unfolding parse_flag map_get
optout_parses = refl

days_parses : parse_retention days ≡ some 30
unfolding parse_retention map_get
days_parses = refl

acme-exists : exists "t1" db ≡ true
unfolding select
acme-exists = refl

get_ingest_settings-set_example :
    get_ingest_settings "t1" (
      committed (set_retention_days show "t1" days "ada") (
        committed
          (set_redaction_optout "t1" optout "ada")
          (committed (set_residency "t1" place "ada") db)))
    ≡ (if "t1" == "t1"
        then record { retention_days = 30; redact = not true; residency = "eu" }
        else get_ingest_settings "t1" db)
get_ingest_settings-set_example =
    get_ingest_settings-set show "t1" "t1" "ada" place optout days "eu" true 30 db place_parses
      optout_parses days_parses acme-exists
