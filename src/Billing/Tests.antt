-- ===== src/Billing/Tests.antt =====
-- Tiers at concrete usages.
use toqar.Common.{ℕ, ◌*◌, Option, none, some, ◌≡◌, refl, true}
use toqar.Billing.{
  Usage, free, starter, growth, tiers, covers, insert_tier, by_price, find_tier, resolve_among,
  resolve_tier, plan_for,
}
use toqar.Billing.Invoice.{
  Count, natural, unnatural, TaskInvoice, task_based_invoice, usage_meter_sql, meter_agg,
}
use toqar.Billing.Cheapest.{IsChosen, resolve_among-IsChosen}

abbrev usage : ℕ → Usage
usage runs = record { events_ingested = 60000; tasks_tracked = 100; agent_runs = runs }

tier_tests :
    (resolve_tier (usage 100) ≡ starter)
    × (resolve_tier (usage 5000) ≡ growth)
    × (resolve_tier (usage 20000) ≡ growth)
    × ((plan_for "growth" (usage 20000)).over_limit ≡ true)
    × ((plan_for "unknown" (usage 100)).tier ≡ "free")
unfolding resolve_tier resolve_among tiers free starter growth by_price insert_tier find_tier covers
    plan_for
tier_tests = (refl, refl, refl, refl, refl)

resolve_among-IsChosen_example : IsChosen tiers (usage 100) (resolve_among tiers (usage 100))
resolve_among-IsChosen_example = resolve_among-IsChosen tiers (usage 100)

-- Prices in cents: the invoice of the package's own tests, and the two that it refuses.
abbrev invoice : ℕ → TaskInvoice ℕ (λ n price. n * price) (λ amount. amount)
invoice n = record {
  completed_tasks = n;
  billable_tasks = 500;
  amount_usd = 2500;
  meter = "tasks_completed";
}

abbrev in_cents : Count → Option (TaskInvoice ℕ (λ n price. n * price) (λ amount. amount))
in_cents count =
    task_based_invoice ℕ (λ n price. n * price) (λ amount. amount) count
      (record { usd_per_completed_task = 5; included_tasks = 1000 })

invoice_tests :
    (in_cents (natural 1500) ≡ some (invoice 1500))
    × (in_cents unnatural ≡ none)
    × (usage_meter_sql "vibes" ≡ none)
unfolding task_based_invoice usage_meter_sql meter_agg
invoice_tests = (refl, refl, refl)
