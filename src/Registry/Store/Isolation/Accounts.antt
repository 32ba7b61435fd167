-- ===== src/Registry/Store/Isolation/Accounts.antt =====
-- packages/registry-service/src/store.ts: the methods on milestones, billing, the opt-in, the rollout
-- policy and the audit log are scoped.
use toqar.Common.{ℕ, String, Bool, List, first, take}
use toqar.Json.{Value}
use toqar.Registry.Inputs.{parse_flag}
use toqar.Registry.Requests.{parse_account, parse_invoice, parse_milestone, parse_policy}
use toqar.Registry.Table.Local.{insert-IsLocal, upsert-IsLocal}
use toqar.Registry.Table.{select, newest_first}
use toqar.Registry.Store.{AuditRow, Db, read}
use toqar.Registry.Store.Settings.{any_row}
use toqar.Registry.Store.Accounts.{
  write_milestone, record_milestone, record_invoice, or_no_timeline, onboarding_of, get_onboarding,
  or_free, get_billing, set_billing, list_invoices, or_out, get_benchmark_optin,
  set_benchmark_optin, get_rollout_policy, set_rollout_policy,
}
use toqar.Registry.Store.Isolation.{
  IsScoped, parsed-IsScoped, bind-IsScoped, then-IsScoped, write-IsScoped, select-IsScoped,
}
use toqar.Registry.Store.Isolation.Tables.{
  timelines_table, accounts_table, invoices_table, optins_table, policies_table, audit_log_table,
  audit-IsScoped,
}

module _ (t : String) where
  module _ (is_datetime : String → Bool) where
    write_milestone-IsScoped :
        (reached : String × String) → IsScoped t (write_milestone is_datetime t reached)
    write_milestone-IsScoped (milestone, at) =
        write-IsScoped t timelines_table _ (upsert-IsLocal t _ _ _)

    pub record_milestone-IsScoped :
        (value : Value) → IsScoped t (record_milestone is_datetime t value)
    unfolding record_milestone
    record_milestone-IsScoped value =
        bind-IsScoped t _ _ (parsed-IsScoped t (parse_milestone is_datetime value))
          λ reached. write_milestone-IsScoped reached

    pub record_invoice-IsScoped : (value : Value) → IsScoped t (record_invoice is_datetime t value)
    unfolding record_invoice
    record_invoice-IsScoped value =
        bind-IsScoped t _ _ (parsed-IsScoped t (parse_invoice is_datetime value))
          λ invoice. write-IsScoped t invoices_table _ (insert-IsLocal t invoice)

  pub get_onboarding-IsScoped :
      (iso : String → String) (elapsed : (from to : String) → Value)
      → IsScoped t (get_onboarding iso elapsed t)
  unfolding get_onboarding
  get_onboarding-IsScoped iso elapsed =
      select-IsScoped t timelines_table _
        λ rows. onboarding_of iso elapsed (or_no_timeline (first rows))

  pub get_billing-IsScoped : IsScoped t (get_billing t)
  unfolding get_billing
  get_billing-IsScoped = select-IsScoped t accounts_table _ λ rows. or_free (first rows)

  pub set_billing-IsScoped : (value : Value) → IsScoped t (set_billing t value)
  unfolding set_billing
  set_billing-IsScoped value =
      bind-IsScoped t _ _ (parsed-IsScoped t (parse_account value))
        λ account. write-IsScoped t accounts_table _ (upsert-IsLocal t _ account _)

  pub list_invoices-IsScoped : IsScoped t (list_invoices t)
  unfolding list_invoices
  list_invoices-IsScoped = select-IsScoped t invoices_table _ newest_first

  pub get_benchmark_optin-IsScoped : IsScoped t (get_benchmark_optin t)
  unfolding get_benchmark_optin
  get_benchmark_optin-IsScoped = select-IsScoped t optins_table _ λ rows. or_out (first rows)

  pub set_benchmark_optin-IsScoped :
      (value : Value) (actor : String) → IsScoped t (set_benchmark_optin t value actor)
  unfolding set_benchmark_optin
  set_benchmark_optin-IsScoped value actor =
      bind-IsScoped t _ _ (parsed-IsScoped t (parse_flag "opted_in" value)) λ opted_in.
        then-IsScoped t _ _ (write-IsScoped t optins_table _ (upsert-IsLocal t _ opted_in _))
          (audit-IsScoped t actor _ _ _ _)

  pub get_rollout_policy-IsScoped : IsScoped t (get_rollout_policy t)
  unfolding get_rollout_policy
  get_rollout_policy-IsScoped = select-IsScoped t policies_table _ first

  pub set_rollout_policy-IsScoped :
      (in_unit : String → Bool) (value : Value) (actor : String)
      → IsScoped t (set_rollout_policy in_unit t value actor)
  unfolding set_rollout_policy
  set_rollout_policy-IsScoped in_unit value actor =
      bind-IsScoped t _ _ (parsed-IsScoped t (parse_policy in_unit value)) λ policy.
        then-IsScoped t _ _ (write-IsScoped t policies_table _ (upsert-IsLocal t _ policy _))
          (audit-IsScoped t actor _ _ _ _)

  -- The page of `listAudit` without the identities, whose sequence all tenants share.
  abbrev pub audit_page : ℕ → Db → List AuditRow
  audit_page limit db = take limit (newest_first (select t any_row db.audit_log))

  pub audit_page-IsScoped : (limit : ℕ) → IsScoped t (read (audit_page limit))
  audit_page-IsScoped limit =
      select-IsScoped t audit_log_table _ λ rows. take limit (newest_first rows)
