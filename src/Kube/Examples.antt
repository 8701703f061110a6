-- ===== src/Kube/Examples.antt =====
-- The queries of internal/kubernetes/client.go over a small cluster.
use hive_agent.Prelude.{◌↔◌, ◌≡◌, refl, none, List, [], ◌∷◌, arith, In}
use hive_agent.Prelude.GoMap.{lookup}
use hive_agent.Prelude.Int.{pos}
use hive_agent.Prelude.Result.{ok}
use hive_agent.Value.{Object, string, int, int64}
use hive_agent.Value.Fields.{literal}
use hive_agent.Kube.Health.{health}
use hive_agent.Kube.Queries.{get_restart_analysis, get_failed_pods, pod_failing}
use hive_agent.Kube.Usage.{get_resource_usage}
use hive_agent.Kube.Maps.{pod_map}
use hive_agent.Kube.Counts.{Answers, counted, health-counted}
use hive_agent.Kube.Restarts.{IsRestarted, get_restart_analysis-IsRestarted}
use hive_agent.Kube.Totals.{get_resource_usage_exact}
use hive_agent.Samples.{cluster, ready_node, looping_pod, failed_pod}

abbrev answers : Answers cluster
answers = record {
  nodes = ready_node ∷ [];
  pods = looping_pod ∷ failed_pod ∷ [];
  deployments = [];
  stateful_sets = [];
  daemon_sets = [];
  nodes_ok = refl;
  pods_ok = refl;
  deployments_ok = refl;
  stateful_sets_ok = refl;
  daemon_sets_ok = refl;
}

health-counted_example : health cluster ≡ (counted answers, none)
health-counted_example = health-counted cluster answers

abbrev failed_list : List Object
failed_list = pod_map looping_pod ∷ pod_map failed_pod ∷ []

lists_both : get_failed_pods cluster "shop" ≡ ok failed_list
unfolding get_failed_pods pod_failing
lists_both = refl

get_resource_usage_exact_example :
    get_resource_usage cluster "shop"
    ≡ ok (
        literal (
          ("namespace", string "shop")
          ∷ ("podCount", int (pos 2))
          ∷ ("cpuRequestsMilli", int64 (pos 750))
          ∷ ("cpuLimitsMilli", int64 (pos 1500))
          ∷ ("memoryRequestsBytes", int64 (pos 192))
          ∷ ("memoryLimitsBytes", int64 (pos 0))
          ∷ []))
unfolding lookup
get_resource_usage_exact_example =
    get_resource_usage_exact cluster "shop" (looping_pod ∷ failed_pod ∷ []) refl (omega arith)
      (omega arith) (omega arith) (omega arith)

get_restart_analysis-IsRestarted_example :
    (out : List Object) × (get_restart_analysis cluster "shop" ≡ ok out)
    × ((o : Object) → In o out ↔ IsRestarted (looping_pod ∷ failed_pod ∷ []) o)
get_restart_analysis-IsRestarted_example =
    get_restart_analysis-IsRestarted cluster "shop" (looping_pod ∷ failed_pod ∷ []) refl
