-- ===== src/Holmes/Tools.antt =====
-- The tool definitions of internal/holmesprovider/tools.go.
use hive_agent.Prelude.{String, false, List, [], ◌∷◌}
use hive_agent.Prelude.Int.{pos}
use hive_agent.Value.{Object, empty, string, strings, boolean, int, object}
use hive_agent.Value.Fields.{literal}
use hive_agent.Holmes.Types.{ToolDefinition}

abbrev pub tool : String → String → Object → ToolDefinition
tool name description parameters = record {
  name = name;
  description = description;
  parameters = parameters;
}

abbrev pub string_param : String → Object
string_param description =
    literal (("type", string "string") ∷ ("description", string description) ∷ [])

abbrev pub empty_params : Object
empty_params = literal (
    ("type", string "object")
    ∷ ("properties", object empty)
    ∷ ("additionalProperties", boolean false)
    ∷ [])

abbrev pub namespace_params : Object
namespace_params = literal (
    ("type", string "object")
    ∷ (
      "properties",
      object (
          literal (
            (
              "namespace",
              object (
                  literal (
                    ("type", string "string")
                    ∷ ("description", string "Namespace name or * for all namespaces.")
                    ∷ ("default", string "*")
                    ∷ [])),
            )
            ∷ [])),
    )
    ∷ [])

abbrev pub pod_params : Object
pod_params = literal (
    ("type", string "object")
    ∷ (
      "properties",
      object (
          literal (
            ("namespace", object (string_param "Pod namespace."))
            ∷ ("name", object (string_param "Pod name."))
            ∷ [])),
    )
    ∷ ("required", strings ("namespace" ∷ "name" ∷ []))
    ∷ [])

abbrev pub logs_params : Object
logs_params = literal (
    ("type", string "object")
    ∷ (
      "properties",
      object (
          literal (
            ("namespace", object (string_param "Pod namespace."))
            ∷ ("name", object (string_param "Pod name."))
            ∷ ("container", object (string_param "Optional container name."))
            ∷ (
              "tailLines",
              object (
                  literal (
                    ("type", string "integer")
                    ∷ ("description", string "Maximum number of log lines to return.")
                    ∷ ("default", int (pos 200))
                    ∷ [])),
            )
            ∷ [])),
    )
    ∷ ("required", strings ("namespace" ∷ "name" ∷ []))
    ∷ [])

abbrev pub kubernetes_tool_definitions : List ToolDefinition
kubernetes_tool_definitions =
    tool "get_pods" "List pods in a namespace or across all namespaces." namespace_params
    ∷ tool "get_pod" "Get one pod as structured Kubernetes data." pod_params
    ∷ tool "describe_pod" "Describe one pod as structured Kubernetes data." pod_params
    ∷ tool "get_logs" "Get pod logs with optional container and tail line limits." logs_params
    ∷ tool "get_events" "List Kubernetes events in a namespace or across all namespaces."
        namespace_params
    ∷ tool "get_nodes" "List Kubernetes nodes." empty_params
    ∷ tool "get_namespaces" "List Kubernetes namespaces." empty_params
    ∷ tool "get_deployments" "List deployments in a namespace or across all namespaces."
        namespace_params
    ∷ tool "get_statefulsets" "List StatefulSets in a namespace or across all namespaces."
        namespace_params
    ∷ tool "get_daemonsets" "List DaemonSets in a namespace or across all namespaces."
        namespace_params
    ∷ tool "get_services" "List services in a namespace or across all namespaces." namespace_params
    ∷ tool "get_ingresses" "List ingresses in a namespace or across all namespaces."
        namespace_params
    ∷ tool "get_resource_usage" "Summarize pod container CPU and memory requests and limits."
        namespace_params
    ∷ tool "get_cluster_health"
        "Return cluster health, node readiness, pod phases, and workload counts." empty_params
    ∷ tool "get_workload_health"
        "Return structured workload health for deployments, StatefulSets, and DaemonSets."
        namespace_params
    ∷ tool "get_restart_analysis" "Return containers with restarts and last termination state."
        namespace_params
    ∷ tool "get_failed_workloads" "Return failed pods and unavailable deployments." namespace_params
    ∷ tool "get_pending_pods" "Return pending pods." namespace_params
    ∷ tool "get_crashloop_pods" "Return pods with containers in CrashLoopBackOff." namespace_params
    ∷ tool "get_node_conditions" "Return node conditions for all nodes." empty_params
    ∷ []
