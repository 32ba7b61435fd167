-- ===== src/Analysis/Clusters/Sorting.antt =====
-- packages/analysis-agent/src/clusters.ts: what the sort of the clusters keeps.
use toqar.Common.{
  ℕ, ◌+◌, ◌≤◌, ◌≡◌, refl, ap, ◌∙◌, String, List, [], ◌∷◌, ◌==◌, if◌then◌else◌, leb, leb→le, arith,
  Bool-cases, inl, inr, All,
}
use toqar.Analysis.Clusters.{Signature, FailureCluster, insert_by_count, by_count}

-- Most members first.
abbrev pub Descending : List FailureCluster → Type 0
Descending [] = Unit
Descending (c ∷ cs) =
    All (λ (d : FailureCluster). d.member_count ≤ c.member_count) cs × Descending cs

All-insert_by_count :
    (P : FailureCluster → Type 0) (c : FailureCluster) (cs : List FailureCluster)
    → P c
    → All P cs
    → All P (insert_by_count c cs)
unfolding insert_by_count
All-insert_by_count P c [] p h = (p, tt)
All-insert_by_count P c (d ∷ ds) p (q, h) = elim (Bool-cases (leb d.member_count c.member_count)) [
  | inl before ↦ rw before (p, (q, h))
  | inr after ↦ rw after (q, All-insert_by_count P c ds p h)
]

pub All-by_count :
    (P : FailureCluster → Type 0) (cs : List FailureCluster) → All P cs → All P (by_count cs)
unfolding by_count
All-by_count P [] h = tt
All-by_count P (c ∷ cs) (p, h) = All-insert_by_count P c (by_count cs) p (All-by_count P cs h)

All-le_trans :
    (m n : ℕ) (cs : List FailureCluster)
    → m ≤ n
    → All (λ (d : FailureCluster). d.member_count ≤ m) cs
    → All (λ (d : FailureCluster). d.member_count ≤ n) cs
All-le_trans m n [] le h = tt
All-le_trans m n (d ∷ ds) le (p, h) = (omega arith, All-le_trans m n ds le h)

insert_by_count-Descending :
    (c : FailureCluster) (cs : List FailureCluster)
    → Descending cs
    → Descending (insert_by_count c cs)
unfolding insert_by_count
insert_by_count-Descending c [] h = (tt, tt)
insert_by_count-Descending c (d ∷ ds) (below, h) =
    elim (Bool-cases (leb d.member_count c.member_count)) [
      | inl before ↦
          let le = leb→le d.member_count c.member_count before in
          rw before ((le, All-le_trans d.member_count c.member_count ds le below), (below, h))
      | inr after ↦ rw after (
        All-insert_by_count (λ (e : FailureCluster). e.member_count ≤ d.member_count) c ds
            (ground arith) below,
        insert_by_count-Descending c ds h,
      )
    ]

pub by_count-Descending : (cs : List FailureCluster) → Descending (by_count cs)
unfolding by_count
by_count-Descending [] = tt
by_count-Descending (c ∷ cs) = insert_by_count-Descending c (by_count cs) (by_count-Descending cs)

module _ (stringify : Signature → String) where
  -- The number of clusters whose signature has a key.
  unfoldable pub occurrences : String → List FailureCluster → ℕ
  occurrences key [] = 0
  occurrences key (c ∷ cs) = (if stringify c.signature == key then 1 else 0) + occurrences key cs

  occurrences-insert_by_count :
      (key : String) (c : FailureCluster) (cs : List FailureCluster)
      → occurrences key (insert_by_count c cs) ≡ occurrences key (c ∷ cs)
  unfolding insert_by_count occurrences
  occurrences-insert_by_count key c [] = refl
  occurrences-insert_by_count key c (d ∷ ds) =
      elim (Bool-cases (leb d.member_count c.member_count)) [
        | inl before ↦ rw before refl
        | inr after ↦ rw after (omega (arith, occurrences-insert_by_count key c ds))
      ]

  pub occurrences-by_count :
      (key : String) (cs : List FailureCluster) → occurrences key (by_count cs) ≡ occurrences key cs
  unfolding by_count occurrences
  occurrences-by_count key [] = refl
  occurrences-by_count key (c ∷ cs) =
      occurrences-insert_by_count key c (by_count cs)
      ∙ ap (λ n. (if stringify c.signature == key then 1 else 0) + n) (occurrences-by_count key cs)
