-- ===== src/Billing.antt =====
-- packages/billing/src/billing.ts: tiers and plans. Usage and the tiers' prices are natural numbers.
pub mod Cheapest
pub mod Invoice
mod Tests
use toqar.Common.{
  ℕ, String, Bool, true, false, Option, none, some, List, [], ◌∷◌, ◌==◌, ◌&&◌, not, if◌then◌else◌,
  leb,
}

-- The three volume meters, as a record over their names.
pub record Usage : Type 0 where
  pub events_ingested : ℕ
  pub tasks_tracked : ℕ
  pub agent_runs : ℕ

pub record Tier : Type 0 where
  pub name : String
  pub price_usd_month : ℕ
  pub limits : Usage

unfoldable pub free : Tier
free = record {
  name = "free";
  price_usd_month = 0;
  limits = record { events_ingested = 50000; tasks_tracked = 10000; agent_runs = 500 };
}

unfoldable pub starter : Tier
starter = record {
  name = "starter";
  price_usd_month = 200;
  limits = record { events_ingested = 1000000; tasks_tracked = 50000; agent_runs = 1000 };
}

unfoldable pub growth : Tier
growth = record {
  name = "growth";
  price_usd_month = 800;
  limits = record { events_ingested = 10000000; tasks_tracked = 500000; agent_runs = 10000 };
}

unfoldable pub tiers : List Tier
tiers = free ∷ starter ∷ growth ∷ []

unfoldable pub covers : Tier → Usage → Bool
covers tier usage =
    leb usage.events_ingested tier.limits.events_ingested
    && (leb usage.tasks_tracked tier.limits.tasks_tracked
        && leb usage.agent_runs tier.limits.agent_runs)

-- `[...tiers].sort((a, b) => a.price_usd_month - b.price_usd_month)`, which is stable.
unfoldable pub insert_tier : Tier → List Tier → List Tier
insert_tier t [] = t ∷ []
insert_tier t (u ∷ us) =
    let rest = insert_tier t us in
    if leb t.price_usd_month u.price_usd_month then t ∷ u ∷ us else u ∷ rest

unfoldable pub by_price : List Tier → List Tier
by_price [] = []
by_price (t ∷ ts) = insert_tier t (by_price ts)

unfoldable pub find_tier : (Tier → Bool) → List Tier → Option Tier
find_tier p [] = none
find_tier p (t ∷ ts) = if p t then some t else find_tier p ts

abbrev last_tier : Tier → List Tier → Tier
last_tier t [] = t
last_tier t (u ∷ us) = last_tier u us

abbrev pub found_or : Tier → Option Tier → Tier
found_or t none = t
found_or t (some u) = u

-- The sorted list's last tier; the list of the program is not empty.
abbrev pub largest : List Tier → Tier
largest [] = free
largest (t ∷ ts) = last_tier t ts

-- `resolveTier`, over any list of tiers.
unfoldable pub resolve_among : List Tier → Usage → Tier
resolve_among ts usage =
    found_or (largest (by_price ts)) (find_tier (λ t. covers t usage) (by_price ts))

unfoldable pub resolve_tier : Usage → Tier
resolve_tier usage = resolve_among tiers usage

pub record Plan : Type 0 where
  pub tier : String
  pub price_usd_month : ℕ
  pub limits : Usage
  pub usage : Usage
  pub over_limit : Bool

unfoldable pub plan_for : String → Usage → Plan
plan_for tier_name usage =
    let tier = found_or free (find_tier (λ t. t.name == tier_name) tiers) in
    record {
      tier = tier.name;
      price_usd_month = tier.price_usd_month;
      limits = tier.limits;
      usage = usage;
      over_limit = not (covers tier usage);
    }
