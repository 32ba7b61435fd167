-- ===== src/Analysis/Clusters/Grouping.antt =====
-- packages/analysis-agent/src/clusters.ts: `clusterFailures` against a description without a map: the
-- members of a cluster are the rows whose signature has the cluster's key, in the order of the rows.
use toqar.Common.{
  ℕ, ◌+◌, ◌≡◌, refl, sym, ap, ◌∙◌, String, Option, none, some, List, [], ◌∷◌, ◌==◌, arith, map_get,
  eq_iff, eq_refl, Bool-cases, inl, inr, All,
}
use mathlib.Core.Path.{subst}
use toqar.Analysis.Clusters.{
  FailureRow, Signature, Member, FailureCluster, Clusters, values, by_count, gather,
  cluster_failures,
}
use toqar.Analysis.Clusters.Table.{
  Distinct, members_of, IsCluster, Tallies, IsTable, gather-IsTable,
}
use toqar.Analysis.Clusters.Sorting.{
  Descending, All-by_count, by_count-Descending, occurrences, occurrences-by_count,
}

module _ (stringify : Signature → String) (sha256 : String → String) where
  module _ (rows : List FailureRow) where
    -- The entries of a map that holds, under each of its keys, the cluster of that key.
    abbrev Holds : Clusters → Type 0
    Holds clusters =
        (key : String) (c : FailureCluster)
        → map_get clusters key ≡ some c
        → Tallies stringify sha256 key (members_of stringify key rows) (some c)

    Holds-tail :
        (k : String) (c : FailureCluster) (clusters : Clusters)
        → map_get clusters k ≡ none
        → Holds ((k, c) ∷ clusters)
        → Holds clusters
    unfolding map_get
    Holds-tail k c clusters fresh h key d e = h key d (elim (Bool-cases (k == key)) [
      | inl here ↦ absurd (cc (ap (map_get clusters) ((eq_iff k key).0 here)))
      | inr there ↦ rw there e
    ])

    Holds-head :
        (k : String) (c : FailureCluster) (clusters : Clusters)
        → Holds ((k, c) ∷ clusters)
        → Tallies stringify sha256 k (members_of stringify k rows) (some c)
    unfolding map_get
    Holds-head k c clusters h = h k c (rw (eq_refl k))

    abbrev IsOwn : FailureCluster → Type 0
    IsOwn c = IsCluster stringify sha256 (members_of stringify (stringify c.signature) rows) c

    values-IsOwn :
        (clusters : Clusters) → Distinct clusters → Holds clusters → All IsOwn (values clusters)
    values-IsOwn [] d h = tt
    values-IsOwn ((k, c) ∷ clusters) (fresh, d) h =
        let (same, some_in, is) = Holds-head k c clusters h in
        (
          subst (λ key. IsCluster stringify sha256 (members_of stringify key rows) c) (sym same) is,
          values-IsOwn clusters d (Holds-tail k c clusters fresh h),
        )

    abbrev one_of_present : Option FailureCluster → ℕ
    one_of_present none = 0
    one_of_present (some c) = 1

    occurrences-values :
        (clusters : Clusters) (key : String)
        → Distinct clusters
        → Holds clusters
        → occurrences stringify key (values clusters) ≡ one_of_present (map_get clusters key)
    unfolding occurrences map_get
    occurrences-values [] key d h = refl
    occurrences-values ((k, c) ∷ clusters) key (fresh, d) h =
        let (same, some_in, is) = Holds-head k c clusters h in
        let ih = occurrences-values clusters key d (Holds-tail k c clusters fresh h) in
        rw same (elim (Bool-cases (k == key)) [
          | inl here ↦ rw here (
              ap (λ n. 1 + n)
                (ih
                  ∙ ap one_of_present
                      (ap (map_get clusters) (sym ((eq_iff k key).0 here)) ∙ fresh)))
          | inr there ↦ rw there (omega (arith, ih))
        ])

    abbrev pub one_if_any : List Member → ℕ
    one_if_any [] = 0
    one_if_any (m ∷ ms) = 1

    one_of_present-Tallies :
        (key : String) (ms : List Member) (o : Option FailureCluster)
        → Tallies stringify sha256 key ms o
        → one_of_present o ≡ one_if_any ms
    one_of_present-Tallies key ms none empty = rw empty refl
    one_of_present-Tallies key [] (some c) (same, some_in, is) = absurd (omega arith)
    one_of_present-Tallies key (m ∷ ms) (some c) t = refl

    -- The clusters of `rows`: each is what is written for the rows of its key; a key has one cluster if
    -- any row counts for it, else none; and those with most members come first.
    pub record IsClustering (clusters : List FailureCluster) : Type 0 where
      pub own : All IsOwn clusters
      pub once :
          (key : String)
          → occurrences stringify key clusters ≡ one_if_any (members_of stringify key rows)
      pub descending : Descending clusters

    Holds-tallies : (clusters : Clusters) → IsTable stringify sha256 rows clusters → Holds clusters
    Holds-tallies clusters t key c e =
        subst (Tallies stringify sha256 key (members_of stringify key rows)) e (t.tallies key)

    by_count-IsClustering :
        (clusters : Clusters)
        → IsTable stringify sha256 rows clusters
        → IsClustering (by_count (values clusters))
    by_count-IsClustering clusters t = record {
      own =
          All-by_count IsOwn (values clusters)
            (values-IsOwn clusters t.distinct (Holds-tallies clusters t));
      once = λ key.
          occurrences-by_count stringify key (values clusters)
          ∙ occurrences-values clusters key t.distinct (Holds-tallies clusters t)
          ∙ one_of_present-Tallies key (members_of stringify key rows) (map_get clusters key)
              (t.tallies key);
      descending = by_count-Descending (values clusters);
    }

  -- `clusterFailures` groups the failures by signature. Each cluster has as its members exactly the rows
  -- whose signature has its key, in their order, with their number, the signature's label and the
  -- digest of its key; a key has one cluster if any row counts for it, and none otherwise; the clusters
  -- with most members come first.
  pub cluster_failures-IsClustering :
      (rows : List FailureRow) → IsClustering rows (cluster_failures stringify sha256 rows)
  unfolding cluster_failures members_of map_get
  cluster_failures-IsClustering rows =
      by_count-IsClustering rows (gather stringify sha256 rows []) (
        gather-IsTable stringify sha256 rows [] []
          (record { tallies = λ key. refl; distinct = tt }))
