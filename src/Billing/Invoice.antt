-- ===== src/Billing/Invoice.antt =====
-- packages/billing/src/billing.ts: the usage meters' queries and the invoice for completed tasks. A
-- price is a floating-point number, so its type, the product and the rounding to cents are parameters.
use Prim.Native.String.{◌++◌}
use toqar.Common.{
  ℕ, ◌≤◌, ◌+◌, ◌-◌, String, Option, none, some, ◌≡◌, refl, ◌==◌, arith, if◌then◌else◌,
}

-- A JavaScript number as the count of tasks: a natural number, or one that is negative or no integer.
pub data Count : Type 0 where
  natural : ℕ → Count
  unnatural : Count

-- `METER_AGG`: the names it has are the type's; any other is none of them.
unfoldable pub meter_agg : String → Option String
meter_agg metric =
    if metric == "events_ingested"
    then some "count() AS value"
    else if metric == "tasks_tracked"
    then some "uniqExact(task_id) AS value"
    else if metric == "agent_runs"
    then some "uniqExact((task_id, run_id)) AS value"
    else if metric == "tasks_completed"
    then some "uniqExactIf(task_id, event = 'task_completed') AS value"
    else none

-- The query over an aggregate.
abbrev pub meter_query : String → String
meter_query agg =
    "SELECT " ++ agg ++ "\nFROM toqar.events FINAL\nWHERE tenant_id = {tenantId:String}"
    ++ "\n  AND timestamp >= {from:DateTime64(3)}\n  AND timestamp < {to:DateTime64(3)}"

abbrev query_of : Option String → Option String
query_of none = none
query_of (some agg) = some (meter_query agg)

-- `none` is the error that is thrown.
unfoldable pub usage_meter_sql : String → Option String
usage_meter_sql metric = query_of (meter_agg metric)

module _ (Usd : Type 0) (times : ℕ → Usd → Usd) (cents : Usd → Usd) where
  pub record TaskPricing : Type 0 where
    pub usd_per_completed_task : Usd
    pub included_tasks : ℕ

  pub record TaskInvoice : Type 0 where
    pub completed_tasks : ℕ
    pub billable_tasks : ℕ
    pub amount_usd : Usd
    pub meter : String

  -- `none` is the error that is thrown.
  unfoldable pub task_based_invoice : Count → TaskPricing → Option TaskInvoice
  task_based_invoice unnatural pricing = none
  task_based_invoice (natural completed) pricing =
      let billable = completed - pricing.included_tasks in
      some (record {
        completed_tasks = completed;
        billable_tasks = billable;
        amount_usd = cents (times billable pricing.usd_per_completed_task);
        meter = "tasks_completed";
      })

  -- An invoice is made exactly for a natural number of tasks; it counts them all, its billable tasks
  -- with the included ones that were used are all of them, none is billable below the floor, and a
  -- meter's query reproduces the count.
  pub task_based_invoice-natural :
      (n : ℕ) (pricing : TaskPricing)
      → (invoice : TaskInvoice) × (task_based_invoice (natural n) pricing ≡ some invoice)
        × (invoice.completed_tasks ≡ n)
        × (n ≤ invoice.billable_tasks + pricing.included_tasks)
        × ((n ≤ pricing.included_tasks) → invoice.billable_tasks ≡ 0)
        × (usage_meter_sql invoice.meter
            ≡ some (meter_query "uniqExactIf(task_id, event = 'task_completed') AS value"))
  unfolding task_based_invoice usage_meter_sql meter_agg
  task_based_invoice-natural n pricing = (_, refl, refl, omega arith, (λ h. omega arith), refl)
