-- ===== src/Analysis/Clusters.antt =====
-- packages/analysis-agent/src/clusters.ts: `clusterFailures`, the grouping of failure rows by their
-- signature. `JSON.stringify` on signatures and the SHA-256 of a text, in hexadecimal digits, are
-- parameters.
mod Table
mod Sorting
pub mod Grouping
pub mod Draft
mod Tests
use Prim.Native.String.{◌++◌ as ◌<>◌}
use toqar.Common.{
  ℕ, zero, suc, ◌+◌, String, Bool, true, false, not, ◌&&◌, Option, none, some, List, [], ◌∷◌, ◌++◌,
  ◌==◌, if◌then◌else◌, leb, map_get, map_set,
}
use toqar.Common.Texts.{slice_to}

pub record FailureRow : Type 0 where
  pub event : String
  pub task_type : String
  pub tool_name : String
  pub status : String
  pub task_id : String
  pub run_id : String

pub data Signature : Type 0 where
  tool_failure : (tool_name status task_type : String) → Signature
  human_override : (task_type : String) → Signature

pub record Member : Type 0 where
  pub task_id : String
  pub run_id : String

pub record FailureCluster : Type 0 where
  pub cluster_id : String
  pub label : String
  pub signature : Signature
  pub member_count : ℕ
  pub members : List Member

abbrev pub is_set : String → Bool
is_set s = not (s == "")

-- The signature of a row, if it is a failure.
unfoldable pub signature_of : FailureRow → Option Signature
signature_of row =
    if (row.event == "step_executed")
      && is_set row.status
      && not (row.status == "ok")
      && is_set row.tool_name
    then some (tool_failure row.tool_name row.status row.task_type)
    else if row.event == "human_overrode"
    then some (human_override row.task_type)
    else none

abbrev pub label_of : Signature → String
label_of (tool_failure tool_name status task_type) =
    tool_name <> (" " <> (status <> (" on " <> task_type)))
label_of (human_override task_type) = "human overrides on " <> task_type

abbrev pub member_of : FailureRow → Member
member_of row = record { task_id = row.task_id; run_id = row.run_id }

-- The map from keys to clusters.
abbrev pub Clusters : Type 0
Clusters = List (String × FailureCluster)

abbrev pub values : Clusters → List FailureCluster
values [] = []
values ((key, c) ∷ clusters) = c ∷ values clusters

-- `.sort((a, b) => b.member_count - a.member_count)`, which keeps the order of equals.
unfoldable pub insert_by_count : FailureCluster → List FailureCluster → List FailureCluster
insert_by_count c [] = c ∷ []
insert_by_count c (d ∷ ds) =
    if leb d.member_count c.member_count then c ∷ d ∷ ds else d ∷ insert_by_count c ds

unfoldable pub by_count : List FailureCluster → List FailureCluster
by_count [] = []
by_count (c ∷ cs) = insert_by_count c (by_count cs)

module _ (stringify : Signature → String) (sha256 : String → String) where
  abbrev pub new_cluster : Signature → Member → FailureCluster
  new_cluster sig member = record {
    cluster_id = "fc_" <> slice_to 12 (sha256 (stringify sig));
    label = label_of sig;
    signature = sig;
    member_count = 1;
    members = member ∷ [];
  }

  -- The cluster of a key with one more member.
  abbrev pub joined : Option FailureCluster → Signature → Member → FailureCluster
  joined none sig member = new_cluster sig member
  joined (some c) sig member = record c {
    member_count = c.member_count + 1;
    members = c.members ++ member ∷ [];
  }

  abbrev pub add_signed : Option Signature → Member → Clusters → Clusters
  add_signed none member clusters = clusters
  add_signed (some sig) member clusters =
      map_set clusters (stringify sig) (joined (map_get clusters (stringify sig)) sig member)

  -- The loop over the rows.
  unfoldable pub gather : List FailureRow → Clusters → Clusters
  gather [] clusters = clusters
  gather (row ∷ rows) clusters =
      gather rows (add_signed (signature_of row) (member_of row) clusters)

  unfoldable pub cluster_failures : List FailureRow → List FailureCluster
  cluster_failures rows = by_count (values (gather rows []))
