-- ===== src/Registry/Store/Accounts.antt =====
-- packages/registry-service/src/store.ts: onboarding milestones, the billing account, the benchmark
-- opt-in, the rollout policy and the audit log. How a stored time is written, and the time between
-- two of them, are parameters.
use toqar.Common.{
  suc, first, ℕ, String, Bool, true, false, Option, none, some, List, [], ◌∷◌, take, if◌then◌else◌,
  map_get, map_set,
}
use toqar.Json.{Value, null, bool, obj, field, end}
use toqar.Registry.Inputs.{parse_flag}
use toqar.Registry.Requests.{
  Account, parse_account, Invoice, parse_invoice, parse_milestone, RolloutPolicy, parse_policy,
  policy_json,
}
use toqar.Registry.Table.{Rows, select, insert, upsert, newest_first}
use toqar.Registry.Store.{
  AuditRow, Timeline, Operation, Tx, ◌>>=◌, ◌>>◌, pure, read, write, parsed, audit,
}

abbrev pub any_row : {A : Type 0} → A → Bool
any_row a = true

module _ (is_datetime : String → Bool) where
  abbrev pub write_milestone : String → String × String → Tx (Unit {0})
  write_milestone tenant (milestone, at) = write (λ db. record db {
    timelines =
        upsert tenant any_row ((milestone, at) ∷ []) (λ t. map_set t milestone at) db.timelines;
  })

  unfoldable pub record_milestone : String → Value → Tx (Unit {0})
  record_milestone tenant value = do
    reached ← parsed (parse_milestone is_datetime value)
    write_milestone tenant reached

  unfoldable pub record_invoice : String → Value → Tx (Unit {0})
  record_invoice tenant value = do
    invoice ← parsed (parse_invoice is_datetime value)
    write (λ db. record db { invoices = insert tenant invoice db.invoices })

pub record Onboarding : Type 0 where
  pub connected_at : Option String
  pub plan_proposed_at : Option String
  pub plan_approved_at : Option String
  pub first_event_at : Option String
  pub first_finding_at : Option String
  pub current_step : String
  pub time_to_first_finding_ms : Option Value

abbrev pub is_reached : Option String → Bool
is_reached none = false
is_reached (some s) = true

abbrev pub or_no_timeline : Option Timeline → Timeline
or_no_timeline none = []
or_no_timeline (some t) = t

unfoldable pub current_step : Timeline → String
current_step t =
    if is_reached (map_get t "first_finding")
    then "active"
    else if is_reached (map_get t "first_event")
    then "awaiting_first_finding"
    else if is_reached (map_get t "plan_approved")
    then "awaiting_data"
    else if is_reached (map_get t "plan_proposed")
    then "review_plan"
    else if is_reached (map_get t "connected")
    then "awaiting_plan"
    else "connect_repo"

module _ (iso : String → String) (elapsed : (from to : String) → Value) where
  abbrev iso_of : Option String → Option String
  iso_of none = none
  iso_of (some s) = some (iso s)

  abbrev between : Option String → Option String → Option Value
  between (some from) (some to) = some (elapsed from to)
  between from to = none

  unfoldable pub onboarding_of : Timeline → Onboarding
  onboarding_of t = record {
    connected_at = iso_of (map_get t "connected");
    plan_proposed_at = iso_of (map_get t "plan_proposed");
    plan_approved_at = iso_of (map_get t "plan_approved");
    first_event_at = iso_of (map_get t "first_event");
    first_finding_at = iso_of (map_get t "first_finding");
    current_step = current_step t;
    time_to_first_finding_ms =
        between (iso_of (map_get t "connected")) (iso_of (map_get t "first_finding"));
  }

  unfoldable pub get_onboarding : String → Tx Onboarding
  get_onboarding tenant = do
    found ← read (λ db. first (select tenant any_row db.timelines))
    pure (onboarding_of (or_no_timeline found))

abbrev pub or_free : Option Account → Account
or_free none = record { tier = "free"; customer_id = none; subscription_id = none }
or_free (some a) = a

unfoldable pub get_billing : String → Tx Account
get_billing tenant = do
  found ← read (λ db. first (select tenant any_row db.accounts))
  pure (or_free found)

unfoldable pub set_billing : String → Value → Tx (Unit {0})
set_billing tenant value = do
  account ← parsed (parse_account value)
  write (λ db. record db { accounts = upsert tenant any_row account (λ a. account) db.accounts })

unfoldable pub list_invoices : String → Tx (List Invoice)
list_invoices tenant = read (λ db. newest_first (select tenant any_row db.invoices))

abbrev pub or_out : Option Bool → Bool
or_out none = false
or_out (some b) = b

unfoldable pub get_benchmark_optin : String → Tx Bool
get_benchmark_optin tenant = do
  found ← read (λ db. first (select tenant any_row db.optins))
  pure (or_out found)

unfoldable pub set_benchmark_optin : String → Value → String → Tx (Unit {0})
set_benchmark_optin tenant value actor = do
  opted_in ← parsed (parse_flag "opted_in" value)
  write (λ db. record db { optins = upsert tenant any_row opted_in (λ b. opted_in) db.optins })
  audit tenant actor Operation.benchmark (if opted_in then "opt_in" else "opt_out") null
      (obj (field "opted_in" (bool opted_in) end))

-- The owner's query over all tenants.
unfoldable pub opted_in_tenants : Rows Bool → List String
opted_in_tenants [] = []
opted_in_tenants ((tenant, opted_in) ∷ rows) =
    let rest = opted_in_tenants rows in if opted_in then tenant ∷ rest else rest

unfoldable pub get_rollout_policy : String → Tx (Option RolloutPolicy)
get_rollout_policy tenant = read (λ db. first (select tenant any_row db.policies))

unfoldable pub set_rollout_policy : (String → Bool) → String → Value → String → Tx (Unit {0})
set_rollout_policy in_unit tenant value actor = do
  policy ← parsed (parse_policy in_unit value)
  write (λ db. record db { policies = upsert tenant any_row policy (λ p. policy) db.policies })
  audit tenant actor Operation.autonomy "rollout_policy" null (policy_json policy)

-- A row with its identity, which PostgreSQL draws from one sequence for the rows of all tenants: that of
-- the n-th row of the table is `identity n`.
pub record AuditRecord : Type 0 where
  pub id : ℕ
  pub row : AuditRow

unfoldable pub numbered : (ℕ → ℕ) → ℕ → Rows AuditRow → Rows AuditRecord
numbered identity n [] = []
numbered identity n ((tenant, row) ∷ rows) =
    (tenant, record { id = identity n; row = row }) ∷ numbered identity (suc n) rows

unfoldable pub list_audit : (ℕ → ℕ) → String → ℕ → Tx (List AuditRecord)
list_audit identity tenant limit =
    read
      (λ db. take limit (newest_first (select tenant any_row (numbered identity 0 db.audit_log))))
