-- ===== src/Commands/Names.antt =====
-- The constants of internal/commands/commands.go, one by one.
use hive_agent.Prelude.{
  String, ◌≡◌, true, List, [], ◌∷◌, ◌==◌, In, map, inl, inr, mem_of-any, eq_iff, ◌∙◌, sym,
}
use hive_agent.Capabilities as Capabilities

-- the constants of the type `Name`
pub data Name : Type 0 where
  get_pods get_pod describe_pod get_logs get_events : Name
  get_nodes get_namespaces get_deployments get_stateful_sets get_daemon_sets : Name
  get_services get_ingresses get_resource_usage get_cluster_health get_workload_health : Name
  get_restart_analysis get_failed_workloads get_pending_pods get_crash_loop_pods
        get_node_conditions :
      Name

-- their texts, which are those of package capabilities
abbrev pub text : Name → String
text get_pods = "get_pods"
text get_pod = "get_pod"
text describe_pod = "describe_pod"
text get_logs = "get_logs"
text get_events = "get_events"
text get_nodes = "get_nodes"
text get_namespaces = "get_namespaces"
text get_deployments = "get_deployments"
text get_stateful_sets = "get_statefulsets"
text get_daemon_sets = "get_daemonsets"
text get_services = "get_services"
text get_ingresses = "get_ingresses"
text get_resource_usage = "get_resource_usage"
text get_cluster_health = "get_cluster_health"
text get_workload_health = "get_workload_health"
text get_restart_analysis = "get_restart_analysis"
text get_failed_workloads = "get_failed_workloads"
text get_pending_pods = "get_pending_pods"
text get_crash_loop_pods = "get_crashloop_pods"
text get_node_conditions = "get_node_conditions"

abbrev names : List Name
names =
    get_pods ∷ get_pod ∷ describe_pod ∷ get_logs ∷ get_events ∷ get_nodes ∷ get_namespaces
    ∷ get_deployments ∷ get_stateful_sets ∷ get_daemon_sets ∷ get_services ∷ get_ingresses
    ∷ get_resource_usage ∷ get_cluster_health ∷ get_workload_health ∷ get_restart_analysis
    ∷ get_failed_workloads ∷ get_pending_pods ∷ get_crash_loop_pods ∷ get_node_conditions ∷ []

find_text : (l : List Name) (c : String) → In c (map text l) → (k : Name) × (text k ≡ c)
find_text [] c m = absurd m.never
find_text (k ∷ l) c (inl e) = (k, sym e)
find_text (k ∷ l) c (inr m) = find_text l c m

-- Every capability is one of the constants.
pub contains-text : (c : String) → Capabilities.contains c ≡ true → (k : Name) × (text k ≡ c)
unfolding Capabilities.contains
contains-text c listed =
    let (item, m, same) = mem_of-any (λ item. item == c) Capabilities.all listed in
    let (k, e) = find_text names item m in (k, e ∙ (eq_iff item c).0 same)
