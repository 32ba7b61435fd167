-- ===== src/Analysis/Clusters/Table.antt =====
-- packages/analysis-agent/src/clusters.ts: the map that the loop builds, against the rows read so far.
use Prim.Native.String.{◌++◌ as ◌<>◌}
use toqar.Common.{
  ◌<◌, ◌≡◌, refl, ap, ◌∙◌, String, Bool, false, Option, none, some, List, [], ◌∷◌, ◌++◌, ◌==◌,
  if◌then◌else◌, length, length-append, append_assoc, append-nil, arith, map_get, map_set,
  map_get-map_set, eq_iff, Bool-cases, inl, inr,
}
use toqar.Common.Texts.{slice_to}
use toqar.Analysis.Clusters.{
  FailureRow, Signature, Member, FailureCluster, signature_of, label_of, member_of, Clusters,
  joined, add_signed, gather,
}

abbrev pub Distinct : Clusters → Type 0
Distinct [] = Unit
Distinct ((key, c) ∷ clusters) = (map_get clusters key ≡ none) × Distinct clusters

map_set-Distinct :
    (clusters : Clusters) (key : String) (c : FailureCluster)
    → Distinct clusters
    → Distinct (map_set clusters key c)
unfolding map_set map_get
map_set-Distinct [] key c d = (refl, tt)
map_set-Distinct ((k, old) ∷ clusters) key c (fresh, d) = elim (Bool-cases (k == key)) [
  | inl here ↦ rw here (fresh, d)
  | inr there ↦ rw there (
    map_get-map_set clusters key k c ∙ ground (arith, eq_iff k key, eq_iff key k),
    map_set-Distinct clusters key c d,
  )
]

module _ (stringify : Signature → String) where
  abbrev pub counts_for : String → Option Signature → Bool
  counts_for key none = false
  counts_for key (some sig) = stringify sig == key

  -- The failures whose signature has a key.
  unfoldable pub members_of : String → List FailureRow → List Member
  members_of key [] = []
  members_of key (row ∷ rows) =
      let rest = members_of key rows in
      if counts_for key (signature_of row) then member_of row ∷ rest else rest

  members_of-append :
      (key : String) (before : List FailureRow) (row : FailureRow)
      → members_of key (before ++ row ∷ [])
        ≡ members_of key before
          ++ (if counts_for key (signature_of row) then member_of row ∷ [] else [])
  unfolding members_of
  members_of-append key [] row = refl
  members_of-append key (r ∷ before) row = elim (Bool-cases (counts_for key (signature_of r))) [
    | inl yes' ↦ rw yes' (ap (λ t. member_of r ∷ t) (members_of-append key before row))
    | inr no' ↦ rw no' (members_of-append key before row)
  ]

module _ (stringify : Signature → String) (sha256 : String → String) where
  -- A cluster as it is written, over the members `ms`.
  pub record IsCluster (ms : List Member) (c : FailureCluster) : Type 0 where
    pub members : c.members ≡ ms
    pub count : c.member_count ≡ length ms
    pub label : c.label ≡ label_of c.signature
    pub cluster_id : c.cluster_id ≡ "fc_" <> (slice_to 12 (sha256 (stringify c.signature)))

  -- What is stored under a key, once the rows `before` have been read.
  abbrev pub Tallies : String → List Member → Option FailureCluster → Type 0
  Tallies key ms none = ms ≡ []
  Tallies key ms (some c) = (stringify c.signature ≡ key) × (0 < length ms) × IsCluster ms c

  Tallies-joined :
      (key : String) (ms : List Member) (o : Option FailureCluster) (sig : Signature) (m : Member)
      → stringify sig ≡ key
      → Tallies key ms o
      → Tallies key (ms ++ m ∷ []) (some (joined stringify sha256 o sig m))
  Tallies-joined key ms none sig m e empty = (
    e,
    rw empty (omega arith),
    rw empty (record { members = refl; count = refl; label = refl; cluster_id = refl }),
  )
  Tallies-joined key ms (some c) sig m e (same, some_in, is) = (
    same,
    omega (arith, length-append ms (m ∷ [])),
    record {
      members = ap (λ t. t ++ m ∷ []) is.members;
      count = omega (arith, is.count, length-append ms (m ∷ []));
      label = is.label;
      cluster_id = is.cluster_id;
    },
  )

  add_signed-Tallies :
      (sig : Option Signature) (m : Member) (clusters : Clusters) (key : String) (ms : List Member)
      → Tallies key ms (map_get clusters key)
      → Tallies key
          (ms ++ (if counts_for stringify key sig then m ∷ [] else []))
          (map_get (add_signed stringify sha256 sig m clusters) key)
  add_signed-Tallies none m clusters key ms t = rw append-nil t
  add_signed-Tallies (some sig) m clusters key ms t = elim (Bool-cases (stringify sig == key)) [
    | inl here ↦
        let e = (eq_iff (stringify sig) key).0 here in
        rw here (
          rw
            (map_get-map_set clusters (stringify sig) key
              (joined stringify sha256 (map_get clusters (stringify sig)) sig m))
            (rw here (rw e (Tallies-joined key ms (map_get clusters key) sig m e t))))
    | inr there ↦ rw there (
        rw
          (map_get-map_set clusters (stringify sig) key
            (joined stringify sha256 (map_get clusters (stringify sig)) sig m))
          (rw there (rw append-nil t)))
  ]

  add_signed-Distinct :
      (sig : Option Signature) (m : Member) (clusters : Clusters)
      → Distinct clusters
      → Distinct (add_signed stringify sha256 sig m clusters)
  add_signed-Distinct none m clusters d = d
  add_signed-Distinct (some sig) m clusters d = map_set-Distinct clusters (stringify sig) _ d

  -- The map, once the rows `before` have been read.
  pub record IsTable (before : List FailureRow) (clusters : Clusters) : Type 0 where
    pub tallies :
        (key : String) → Tallies key (members_of stringify key before) (map_get clusters key)
    pub distinct : Distinct clusters

  pub gather-IsTable :
      (rows before : List FailureRow) (clusters : Clusters)
      → IsTable before clusters
      → IsTable (before ++ rows) (gather stringify sha256 rows clusters)
  unfolding gather
  gather-IsTable [] before clusters t = rw append-nil t
  gather-IsTable (row ∷ rows) before clusters t = rw (← (append_assoc before (row ∷ []) rows)) (
      gather-IsTable rows (before ++ row ∷ [])
        (add_signed stringify sha256 (signature_of row) (member_of row) clusters)
        (record {
          tallies = λ key. rw (members_of-append stringify key before row) (
              add_signed-Tallies (signature_of row) (member_of row) clusters key
                (members_of stringify key before) (t.tallies key));
          distinct = add_signed-Distinct (signature_of row) (member_of row) clusters t.distinct;
        }))
