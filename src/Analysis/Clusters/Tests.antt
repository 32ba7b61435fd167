-- ===== src/Analysis/Clusters/Tests.antt =====
-- Clusters at concrete inputs; a key is written out, and the digest of a text is the text.
use Prim.Native.String.{◌++◌}
use toqar.Common.{
  ℕ, String, none, some, List, [], ◌∷◌, ◌≡◌, refl, if◌then◌else◌, eqb, map_get, map_set,
}
use toqar.Common.Options.{all_some}
use toqar.Registry.Findings.{is_query_id, parse_metric, parse_evidence, parse_finding}
use toqar.Analysis.Clusters.{
  FailureRow, FailureCluster, Signature, tool_failure, human_override, signature_of,
  insert_by_count, by_count, gather, cluster_failures,
}
use toqar.Analysis.Clusters.Draft.{cluster_finding, drafted, parse_finding-cluster_finding}
use toqar.Analysis.Clusters.Grouping.{IsClustering, cluster_failures-IsClustering}

abbrev stringify : Signature → String
stringify (tool_failure tool_name status task_type) =
    tool_name ++ ("/" ++ (status ++ ("/" ++ task_type)))
stringify (human_override task_type) = "/" ++ task_type

abbrev digest : String → String
digest s = s

abbrev failure : String → String → String → FailureRow
failure event tool_name run_id = record {
  event = event;
  task_type = "reply";
  tool_name = tool_name;
  status = "error";
  task_id = "k";
  run_id = run_id;
}

abbrev rows : List FailureRow
rows =
    failure "human_overrode" "" "r1"
    ∷ failure "step_executed" "crm" "r2"
    ∷ failure "step_executed" "" "r3"
    ∷ failure "step_executed" "crm" "r4"
    ∷ []

clusters_lem :
    cluster_failures stringify digest rows
    ≡ record {
      cluster_id = "fc_crm/error/re";
      label = "crm error on reply";
      signature = tool_failure "crm" "error" "reply";
      member_count = 2;
      members =
          record { task_id = "k"; run_id = "r2" } ∷ record { task_id = "k"; run_id = "r4" } ∷ [];
    }
      ∷ record {
        cluster_id = "fc_/reply";
        label = "human overrides on reply";
        signature = human_override "reply";
        member_count = 1;
        members = record { task_id = "k"; run_id = "r1" } ∷ [];
      }
      ∷ []
unfolding cluster_failures gather signature_of by_count insert_by_count map_get map_set
clusters_lem = refl

cluster_failures-IsClustering_example :
    IsClustering stringify digest rows (cluster_failures stringify digest rows)
cluster_failures-IsClustering_example = cluster_failures-IsClustering stringify digest rows

abbrev show : ℕ → String
show n = if eqb n 2 then "2" else "many"

abbrev crm : FailureCluster
crm = record {
  cluster_id = "fc_crm/error/re";
  label = "crm error on reply";
  signature = tool_failure "crm" "error" "reply";
  member_count = 2;
  members = [];
}

crm_parses :
    parse_finding (cluster_finding show crm "q_0123456789abcdef")
    ≡ some (drafted show crm "q_0123456789abcdef")
unfolding is_query_id
crm_parses = parse_finding-cluster_finding show crm "q_0123456789abcdef" refl refl

-- A draft whose citation is no query's identifier is no finding.
uncitable : parse_finding (cluster_finding show crm "query 1") ≡ none
unfolding parse_finding cluster_finding parse_metric parse_evidence map_get all_some is_query_id
uncitable = refl
