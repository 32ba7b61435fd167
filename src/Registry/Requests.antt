-- ===== src/Registry/Requests.antt =====
-- packages/registry-service/src/store.ts: the schemas of instrument runs, deliveries, billing,
-- milestones and rollout policies. zod's check of dates is a parameter, and so is
-- whether a number that is not a natural one lies between 0 and 1.
use toqar.Common.{ℕ, String, Bool, Option, none, some, List, [], ◌∷◌, ◌&&◌, if◌then◌else◌, leb}
use toqar.Common.Options.{◌>>=◌, ◌>>◌, guard, all_some}
use toqar.Common.Texts.{codes, starts_with}
use toqar.Json.{
  string_if_given, Value, null, num, decimal, obj, end, field, prop, as_str, as_items, as_num, text,
  optional_text, non_empty, str_items,
}
use toqar.Registry.Schema.{text_item, items_at}
use toqar.Registry.Inputs.{one_of}

-- `z.string().min(1).nullish()`.
abbrev nullish_of : Option Value → Option (Option String)
nullish_of none = some none
nullish_of (some null) = some none
nullish_of (some v) = do s ← as_str v; t ← non_empty s; some (some t)

-- `z.number().int().nonnegative().default(0)`.
abbrev count_or_zero : Option Value → Option ℕ
count_or_zero none = some 0
count_or_zero (some v) = as_num v

-- `z.number().nonnegative()`.
abbrev as_amount : Value → Option Value
as_amount (num n) = some (num n)
as_amount (decimal s) = if starts_with (codes "-") (codes s) then none else some (decimal s)
as_amount v = none

abbrev amount_or_zero : Option Value → Option Value
amount_or_zero none = some (num 0)
amount_or_zero (some v) = as_amount v

-- `z.array(…).default([])`.
abbrev pub items_or_none : {A : Type 0} → (Value → Option A) → Option Value → Option (List A)
items_or_none f none = some []
items_or_none f (some v) = do values ← as_items v; all_some f values

pub record NewRun : Type 0 where
  pub repo : String
  pub pr_url : Option String
  pub tokens_in : ℕ
  pub tokens_out : ℕ
  pub cost_usd : Value
  pub model : Option String
  pub agent_version : String

-- `instrumentRunSchema`.
unfoldable pub parse_run : Value → Option NewRun
parse_run v = do
  repo ← text "repo" v
  pr_url ← optional_text "pr_url" v
  tokens_in ← count_or_zero (prop "tokens_in" v)
  tokens_out ← count_or_zero (prop "tokens_out" v)
  cost_usd ← amount_or_zero (prop "cost_usd" v)
  model ← nullish_of (prop "model" v)
  agent_version ← text "agent_version" v
  some (record {
    repo = repo;
    pr_url = pr_url;
    tokens_in = tokens_in;
    tokens_out = tokens_out;
    cost_usd = cost_usd;
    model = model;
    agent_version = agent_version;
  })

pub record Delivery : Type 0 where
  pub channel : String
  pub status : String
  pub detail : Option String

-- `deliverySchema`.
unfoldable pub parse_delivery : Value → Option Delivery
parse_delivery v = do
  channel ← one_of ("slack" ∷ []) "channel" v
  status ← one_of ("delivered" ∷ "failed" ∷ []) "status" v
  detail ← string_if_given (prop "detail" v)
  some (record { channel = channel; status = status; detail = detail })

abbrev pub count_at : String → Value → Option ℕ
count_at k v = do found ← prop k v; as_num found

pub record Account : Type 0 where
  pub tier : String
  pub customer_id : Option String
  pub subscription_id : Option String

-- `billingAccountSchema`.
unfoldable pub parse_account : Value → Option Account
parse_account v = do
  tier ← one_of ("free" ∷ "starter" ∷ "growth" ∷ []) "tier" v
  customer_id ← nullish_of (prop "customer_id" v)
  subscription_id ← nullish_of (prop "subscription_id" v)
  some (record { tier = tier; customer_id = customer_id; subscription_id = subscription_id })

unfoldable pub milestones : List String
milestones = "connected" ∷ "plan_proposed" ∷ "plan_approved" ∷ "first_event" ∷ "first_finding" ∷ []

pub record Invoice : Type 0 where
  pub stripe_invoice_id : String
  pub amount_usd : Value
  pub period_start : String
  pub period_end : String

module _ (is_datetime : String → Bool) where
  abbrev datetime_at : String → Value → Option String
  datetime_at k v = do found ← prop k v; s ← as_str found; guard (is_datetime s); some s

  -- `invoiceSchema`.
  unfoldable pub parse_invoice : Value → Option Invoice
  parse_invoice v = do
    stripe_invoice_id ← text "stripe_invoice_id" v
    found ← prop "amount_usd" v
    amount_usd ← as_amount found
    period_start ← datetime_at "period_start" v
    period_end ← datetime_at "period_end" v
    some (record {
      stripe_invoice_id = stripe_invoice_id;
      amount_usd = amount_usd;
      period_start = period_start;
      period_end = period_end;
    })

  -- `milestoneSchema`.
  unfoldable pub parse_milestone : Value → Option (String × String)
  parse_milestone v = do
    milestone ← one_of milestones "milestone" v
    at ← datetime_at "at" v
    some (milestone, at)

pub record RolloutPolicy : Type 0 where
  pub change_classes : List String
  pub max_traffic_share : Value
  pub protected_task_types : List String
  pub max_concurrent : ℕ

module _ (in_unit : String → Bool) where
  abbrev as_share : Value → Option Value
  as_share (num n) = if leb n 1 then some (num n) else none
  as_share (decimal s) = if in_unit s then some (decimal s) else none
  as_share v = none

  -- The schema of `setRolloutPolicy`.
  unfoldable pub parse_policy : Value → Option RolloutPolicy
  parse_policy v = do
    change_classes ← items_at text_item "change_classes" v
    found ← prop "max_traffic_share" v
    max_traffic_share ← as_share found
    protected_task_types ← items_at as_str "protected_task_types" v
    max_concurrent ← count_at "max_concurrent" v
    guard (leb 1 max_concurrent && leb max_concurrent 100)
    some (record {
      change_classes = change_classes;
      max_traffic_share = max_traffic_share;
      protected_task_types = protected_task_types;
      max_concurrent = max_concurrent;
    })

unfoldable pub policy_json : RolloutPolicy → Value
policy_json p = obj (
    field "change_classes" (str_items p.change_classes) (
      field "max_traffic_share" p.max_traffic_share (
        field "protected_task_types" (str_items p.protected_task_types)
          (field "max_concurrent" (num p.max_concurrent) end))))
