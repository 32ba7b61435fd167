-- ===== src/Billing/Cheapest.antt =====
-- packages/billing/src/billing.ts: the tier that is resolved is the cheapest that covers the usage.
use mathlib.Core.Path.{subst}
use toqar.Common.{
  ◌≤◌, true, false, List, [], ◌∷◌, ◌≡◌, ◌⊎◌, inl, inr, refl, ap, ◌∙◌, sym, not, leb, leb→le, arith,
  Bool-cases, All,
}
use toqar.Billing.{
  Usage, Tier, free, starter, growth, tiers, covers, insert_tier, by_price, find_tier, found_or,
  largest, resolve_among, resolve_tier, plan_for,
}

abbrev Ordered : List Tier → Type 0
Ordered [] = Unit {0}
Ordered (t ∷ ts) = All (λ u. t.price_usd_month ≤ u.price_usd_month) ts × Ordered ts

insert_tier-nil : (t : Tier) → insert_tier t [] ≡ t ∷ []
unfolding insert_tier
insert_tier-nil t = refl

insert_tier-le :
    (t u : Tier) (us : List Tier)
    → leb t.price_usd_month u.price_usd_month ≡ true
    → insert_tier t (u ∷ us) ≡ t ∷ u ∷ us
unfolding insert_tier
insert_tier-le t u us h = ground arith

insert_tier-gt :
    (t u : Tier) (us : List Tier)
    → leb t.price_usd_month u.price_usd_month ≡ false
    → insert_tier t (u ∷ us) ≡ u ∷ insert_tier t us
unfolding insert_tier
insert_tier-gt t u us h = ground arith

module _ (P : Tier → Type 0) where
  insert_tier-All : (t : Tier) (ts : List Tier) → P t → All P ts → All P (insert_tier t ts)
  unfolding insert_tier
  insert_tier-All t [] p h = (p, tt)
  insert_tier-All t (u ∷ us) p (q, h) =
      elim (Bool-cases (leb t.price_usd_month u.price_usd_month)) [
        | inl le ↦ rw le (p, (q, h))
        | inr gt ↦ rw gt (q, insert_tier-All t us p h)
      ]

  All-insert_tier : (t : Tier) (ts : List Tier) → All P (insert_tier t ts) → P t × All P ts
  All-insert_tier t [] h = subst (All P) (insert_tier-nil t) h
  All-insert_tier t (u ∷ us) h = elim (Bool-cases (leb t.price_usd_month u.price_usd_month)) [
    | inl le ↦ subst (All P) (insert_tier-le t u us le) h
    | inr gt ↦
        let there : All P (u ∷ insert_tier t us) = subst (All P) (insert_tier-gt t u us gt) h in
        let (p, k) = All-insert_tier t us there.1 in (p, (there.0, k))
  ]

  All-by_price : (ts : List Tier) → All P (by_price ts) → All P ts
  unfolding by_price
  All-by_price [] h = tt
  All-by_price (t ∷ ts) h = let (p, k) = All-insert_tier t (by_price ts) h in (p, All-by_price ts k)

  All-imp : (Q : Tier → Type 0) (ts : List Tier) → ((t : Tier) → P t → Q t) → All P ts → All Q ts
  All-imp Q [] f h = tt
  All-imp Q (t ∷ ts) f (p, h) = (f t p, All-imp Q ts f h)

insert_tier-Ordered : (t : Tier) (ts : List Tier) → Ordered ts → Ordered (insert_tier t ts)
unfolding insert_tier
insert_tier-Ordered t [] o = (tt, tt)
insert_tier-Ordered t (u ∷ us) (h, o) =
    elim (Bool-cases (leb t.price_usd_month u.price_usd_month)) [
      | inl le ↦ rw le (
        (
          leb→le _ _ le,
          All-imp (λ v. u.price_usd_month ≤ v.price_usd_month)
              (λ v. t.price_usd_month ≤ v.price_usd_month) us
              (λ v k. let bound = leb→le _ _ le in omega arith) h,
        ),
        (h, o),
      )
      | inr gt ↦ rw gt (
        insert_tier-All (λ v. u.price_usd_month ≤ v.price_usd_month) t us (ground arith) h,
        insert_tier-Ordered t us o,
      )
    ]

by_price-Ordered : (ts : List Tier) → Ordered (by_price ts)
unfolding by_price
by_price-Ordered [] = tt
by_price-Ordered (t ∷ ts) = insert_tier-Ordered t (by_price ts) (by_price-Ordered ts)

-- What a tier that covers the usage must cost.
abbrev pub CostsAtLeast : Usage → Tier → Tier → Type 0
CostsAtLeast usage t u = (covers u usage ≡ false) ⊎ (t.price_usd_month ≤ u.price_usd_month)

-- The choice among tiers: it covers the usage and no covering tier is cheaper, or no tier covers it.
abbrev pub IsChosen : List Tier → Usage → Tier → Type 0
IsChosen ts usage t =
    ((covers t usage ≡ true) × All (CostsAtLeast usage t) ts) ⊎ All (λ u. covers u usage ≡ false) ts

skip_small :
    (usage : Usage) (t : Tier) (ts : List Tier) (c : Tier)
    → covers t usage ≡ false
    → IsChosen ts usage c
    → IsChosen (t ∷ ts) usage c
skip_small usage t ts c small (inl (fits, k)) = inl (fits, (inl small, k))
skip_small usage t ts c small (inr k) = inr (small, k)

find_tier-cheapest :
    (usage : Usage) (ts : List Tier) (d : Tier)
    → Ordered ts
    → IsChosen ts usage (found_or d (find_tier (λ t. covers t usage) ts))
unfolding find_tier
find_tier-cheapest usage [] d o = inr tt
find_tier-cheapest usage (t ∷ ts) d (h, o) = elim (Bool-cases (covers t usage)) [
  | inl fits ↦
      let here : found_or d (find_tier (λ u. covers u usage) (t ∷ ts)) ≡ t = rw fits in
      let cheap =
        All-imp (λ u. t.price_usd_month ≤ u.price_usd_month) (CostsAtLeast usage t) ts
          (λ u k. inr k) h in
      subst (IsChosen (t ∷ ts) usage) (sym here) (inl (fits, (inr (omega arith), cheap)))
  | inr small ↦
      let there : found_or d (find_tier (λ u. covers u usage) (t ∷ ts))
          ≡ found_or d (find_tier (λ u. covers u usage) ts) =
        rw small in
      subst (IsChosen (t ∷ ts) usage) (sym there)
        (skip_small usage t ts _ small (find_tier-cheapest usage ts d o))
]

sorted-IsChosen :
    (ts : List Tier) (usage : Usage) (c : Tier)
    → IsChosen (by_price ts) usage c
    → IsChosen ts usage c
sorted-IsChosen ts usage c (inl (fits, k)) = inl (fits, All-by_price (CostsAtLeast usage c) ts k)
sorted-IsChosen ts usage c (inr k) = inr (All-by_price (λ u. covers u usage ≡ false) ts k)

-- Among any tiers, in any order, the resolved tier covers the usage and no tier that covers it is
-- cheaper, unless no tier covers the usage at all.
pub resolve_among-IsChosen :
    (ts : List Tier) (usage : Usage) → IsChosen ts usage (resolve_among ts usage)
unfolding resolve_among
resolve_among-IsChosen ts usage =
    sorted-IsChosen ts usage _
      (find_tier-cheapest usage (by_price ts) (largest (by_price ts)) (by_price-Ordered ts))

growth-covers :
    (usage : Usage)
    → (covers free usage ≡ true) ⊎ (covers starter usage ≡ true)
    → covers growth usage ≡ true
unfolding covers free starter growth
growth-covers usage (inl h) = ground arith
growth-covers usage (inr h) = ground arith

resolved_growth :
    (usage : Usage)
    → covers free usage ≡ false
    → covers starter usage ≡ false
    → resolve_tier usage ≡ growth
unfolding resolve_tier resolve_among tiers free starter growth by_price insert_tier find_tier
resolved_growth usage small more = elim (Bool-cases (covers growth usage)) [
  | inl fits ↦ ground arith
  | inr over ↦ ground arith
]

-- The plan of the tier that is resolved for a usage is over its limits just where the largest tier
-- does not cover the usage.
pub plan_for-resolve_tier :
    (usage : Usage)
    → (plan_for (resolve_tier usage).name usage).over_limit ≡ not (covers growth usage)
unfolding plan_for resolve_tier resolve_among tiers free starter growth by_price insert_tier
    find_tier
plan_for-resolve_tier usage = elim (Bool-cases (covers free usage)) [
  | inl fits ↦
      let all = growth-covers usage (inl fits) in
      let resolved : resolve_tier usage ≡ free = ground arith in
      ap (λ (t : Tier). (plan_for t.name usage).over_limit) resolved ∙ ap not (fits ∙ sym all)
  | inr small ↦ elim (Bool-cases (covers starter usage)) [
    | inl fits ↦
        let all = growth-covers usage (inr fits) in
        let resolved : resolve_tier usage ≡ starter = ground arith in
        ap (λ (t : Tier). (plan_for t.name usage).over_limit) resolved ∙ ap not (fits ∙ sym all)
    | inr more ↦
        ap (λ (t : Tier). (plan_for t.name usage).over_limit) (resolved_growth usage small more)
  ]
]
