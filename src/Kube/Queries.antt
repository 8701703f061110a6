-- ===== src/Kube/Queries.antt =====
-- The queries of internal/kubernetes/client.go: lists of maps, single pods, logs and summaries.
use hive_agent.Prelude.{
  String, Bool, true, false, none, some, List, [], ◌∷◌, ◌++◌, map, ◌==◌, ◌||◌, if◌then◌else◌,
  filter_by, any,
}
use hive_agent.Prelude.Text.{codes, lower, contains}
use hive_agent.Prelude.Int.{ℤ, pos, positive}
use hive_agent.Prelude.Result.{Result, ok, err, ◌>>=◌}
use hive_agent.Value.{Object, string, int32, int64, counts, foreign, objects}
use hive_agent.Value.Fields.{set_field, to_objects, literal}
use hive_agent.Kube.Api.{Clientset, ContainerStatus, Pod, Deployment}
use hive_agent.Kube.Health.{health, cluster_health}
use hive_agent.Kube.Maps.{
  pod_map, node_map, deployment_map, service_map, ingress_map, namespace_map, stateful_set_map,
  daemon_set_map, event_map, node_conditions_map,
}

-- "*" asks for all namespaces, which the API calls "".
unfoldable pub ns : String → String
ns namespace = if namespace == "*" then "" else namespace

abbrev pub waits_for_crash : ContainerStatus → Bool
waits_for_crash cs = elim cs.waiting [
  | none ↦ false
  | some reason ↦ contains (map lower (codes reason)) (codes "crash")
]

unfoldable pub pod_failing : Pod → Bool
unfolding contains
pod_failing p =
    if p.phase == "Failed" || p.phase == "Pending"
    then true
    else any p.container_statuses waits_for_crash

abbrev pub in_crash_loop : ContainerStatus → Bool
in_crash_loop cs = elim cs.waiting [ none ↦ false | some reason ↦ reason == "CrashLoopBackOff" ]

unfoldable pub pod_crash_looping : Pod → Bool
pod_crash_looping p = any p.container_statuses in_crash_loop

unfoldable pub get_pods : Clientset → String → Result (List Object)
unfolding ns
get_pods c namespace = do pods ← c.pods (ns namespace); ok (map pod_map pods)

unfoldable pub get_failed_pods : Clientset → String → Result (List Object)
unfolding ns
get_failed_pods c namespace = do
  pods ← c.pods (ns namespace)
  ok (map pod_map (filter_by pod_failing pods))

unfoldable pub get_pod : Clientset → String → String → Result Object
get_pod c namespace name =
    if namespace == "" || name == ""
    then err "namespace and name are required"
    else (do p ← c.pod namespace name; ok (pod_map p))

unfoldable pub get_logs : Clientset → String → String → String → ℤ → Result Object
get_logs c namespace name container tail =
    if namespace == "" || name == "" then err "namespace and name are required" else (do
      text ← c.logs namespace name container tail
      ok (
          literal (
            ("namespace", string namespace)
            ∷ ("name", string name)
            ∷ ("container", string container)
            ∷ ("tailLines", int64 tail)
            ∷ ("logs", string text)
            ∷ [])))

unfoldable pub get_events : Clientset → String → Result (List Object)
unfolding ns
get_events c namespace = do items ← c.events (ns namespace); ok (map event_map items)

unfoldable pub get_nodes : Clientset → Result (List Object)
get_nodes c = do items ← c.nodes; ok (map node_map items)

unfoldable pub get_deployments : Clientset → String → Result (List Object)
unfolding ns
get_deployments c namespace = do items ← c.deployments (ns namespace); ok (map deployment_map items)

unfoldable pub get_services : Clientset → String → Result (List Object)
unfolding ns
get_services c namespace = do items ← c.services (ns namespace); ok (map service_map items)

unfoldable pub get_ingresses : Clientset → String → Result (List Object)
unfolding ns
get_ingresses c namespace = do items ← c.ingresses (ns namespace); ok (map ingress_map items)

unfoldable pub get_namespaces : Clientset → Result (List Object)
get_namespaces c = do items ← c.namespaces; ok (map namespace_map items)

unfoldable pub get_stateful_sets : Clientset → String → Result (List Object)
unfolding ns
get_stateful_sets c namespace = do
  items ← c.stateful_sets (ns namespace)
  ok (map stateful_set_map items)

unfoldable pub get_daemon_sets : Clientset → String → Result (List Object)
unfolding ns
get_daemon_sets c namespace = do items ← c.daemon_sets (ns namespace); ok (map daemon_set_map items)

unfoldable pub get_cluster_health : Clientset → Result Object
unfolding health cluster_health
get_cluster_health c =
    let (h, e) = health c in
    elim e [
      | some text ↦ err text
      | none ↦ ok (
          literal (
            ("clusterHealth", string (cluster_health h))
            ∷ (
              "nodes",
              counts (("ready", pos h.nodes_ready) ∷ ("notReady", pos h.nodes_not_ready) ∷ []),
            )
            ∷ (
              "pods",
              counts (
                  ("running", pos h.pods_running)
                  ∷ ("pending", pos h.pods_pending)
                  ∷ ("failed", pos h.pods_failed)
                  ∷ []),
            )
            ∷ (
              "workloads",
              counts (
                  ("deployments", pos h.deployments)
                  ∷ ("statefulsets", pos h.stateful_sets)
                  ∷ ("daemonsets", pos h.daemon_sets)
                  ∷ []),
            )
            ∷ []))
    ]

unfoldable pub get_workload_health : Clientset → String → Result Object
unfolding get_deployments get_stateful_sets get_daemon_sets
get_workload_health c namespace = do
  deps ← get_deployments c namespace
  sts ← get_stateful_sets c namespace
  ds ← get_daemon_sets c namespace
  ok (
      literal (
        ("namespace", string namespace)
        ∷ ("deployments", objects (to_objects deps))
        ∷ ("statefulsets", objects (to_objects sts))
        ∷ ("daemonsets", objects (to_objects ds))
        ∷ []))

abbrev pub restart_map : Pod → ContainerStatus → Object
restart_map p cs = literal (
    ("namespace", string p.namespace)
    ∷ ("pod", string p.name)
    ∷ ("container", string cs.name)
    ∷ ("restartCount", int32 cs.restart_count)
    ∷ ("lastTerminationState", foreign cs.last_termination_state)
    ∷ [])

-- the inner loop of `GetRestartAnalysis`
abbrev pub restarts_of : Pod → List Object
restarts_of p =
    map (restart_map p) (filter_by (λ cs. positive cs.restart_count) p.container_statuses)

unfoldable pub restarts : List Pod → List Object
restarts [] = []
restarts (p ∷ rest) = restarts_of p ++ restarts rest

unfoldable pub get_restart_analysis : Clientset → String → Result (List Object)
unfolding ns restarts
get_restart_analysis c namespace = do pods ← c.pods (ns namespace); ok (restarts pods)

abbrev pub failed_deployment : Deployment → Object
failed_deployment d =
    set_field (deployment_map d) "unavailableReplicas" (int32 d.unavailable_replicas)

unfoldable pub get_failed_workloads : Clientset → String → Result Object
unfolding ns get_failed_pods
get_failed_workloads c namespace = do
  pods ← get_failed_pods c namespace
  deployments ← c.deployments (ns namespace)
  ok (
      literal (
        ("namespace", string namespace)
        ∷ ("pods", objects (to_objects pods))
        ∷ (
          "deployments",
          objects (
              to_objects (
                map failed_deployment
                  (filter_by (λ (d : Deployment). positive d.unavailable_replicas) deployments))),
        )
        ∷ []))

unfoldable pub get_pending_pods : Clientset → String → Result (List Object)
unfolding ns
get_pending_pods c namespace = do
  pods ← c.pods (ns namespace)
  ok (map pod_map (filter_by (λ p. p.phase == "Pending") pods))

unfoldable pub get_crash_loop_pods : Clientset → String → Result (List Object)
unfolding ns
get_crash_loop_pods c namespace = do
  pods ← c.pods (ns namespace)
  ok (map pod_map (filter_by pod_crash_looping pods))

unfoldable pub get_node_conditions : Clientset → Result (List Object)
get_node_conditions c = do items ← c.nodes; ok (map node_conditions_map items)
