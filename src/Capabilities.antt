-- ===== src/Capabilities.antt =====
-- internal/capabilities/capabilities.go: the names of the commands.
use hive_agent.Prelude.{String, Bool, List, [], ◌∷◌, ◌==◌, any}

abbrev pub all : List String
all =
    "get_pods" ∷ "get_pod" ∷ "describe_pod" ∷ "get_logs" ∷ "get_events" ∷ "get_nodes"
    ∷ "get_namespaces" ∷ "get_deployments" ∷ "get_statefulsets" ∷ "get_daemonsets" ∷ "get_services"
    ∷ "get_ingresses" ∷ "get_resource_usage" ∷ "get_cluster_health" ∷ "get_workload_health"
    ∷ "get_restart_analysis" ∷ "get_failed_workloads" ∷ "get_pending_pods" ∷ "get_crashloop_pods"
    ∷ "get_node_conditions" ∷ []

unfoldable pub contains : String → Bool
contains capability = any all (λ item. item == capability)
