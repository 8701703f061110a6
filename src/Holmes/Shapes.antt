-- ===== src/Holmes/Shapes.antt =====
-- The parameters that the tools of internal/holmesprovider/tools.go declare and those that `run` of
-- internal/commands/commands.go reads.
use hive_agent.Prelude.{String, ◌≡◌, refl, Bool, Option, none, some}
use hive_agent.Prelude.Int.{ℤ, pos}
use hive_agent.Value.{Object, Float64}
use hive_agent.Kube.Api.{Clientset}
use hive_agent.Commands.Names.{
  Name, text, get_pods, get_pod, describe_pod, get_logs, get_events, get_nodes, get_namespaces,
  get_deployments, get_stateful_sets, get_daemon_sets, get_services, get_ingresses,
  get_resource_usage, get_cluster_health, get_workload_health, get_restart_analysis,
  get_failed_workloads, get_pending_pods, get_crash_loop_pods, get_node_conditions,
}
use hive_agent.Commands.Params.{str, integer}
use hive_agent.Commands.Run.{Request, run}
use hive_agent.Holmes.Types.{ToolDefinition}
use hive_agent.Holmes.Tools.{empty_params, namespace_params, pod_params, logs_params}
use hive_agent.Holmes.Registry.{tool_of, new_tool_registry}
use hive_agent.Holmes.Provider.{Dispatcher, new_provider}
use hive_agent.Prelude.GoMap.{lookup, insert}

-- the constants of the tools
abbrev pub tool_name : Name → String
tool_name get_pods = "get_pods"
tool_name get_pod = "get_pod"
tool_name describe_pod = "describe_pod"
tool_name get_logs = "get_logs"
tool_name get_events = "get_events"
tool_name get_nodes = "get_nodes"
tool_name get_namespaces = "get_namespaces"
tool_name get_deployments = "get_deployments"
tool_name get_stateful_sets = "get_statefulsets"
tool_name get_daemon_sets = "get_daemonsets"
tool_name get_services = "get_services"
tool_name get_ingresses = "get_ingresses"
tool_name get_resource_usage = "get_resource_usage"
tool_name get_cluster_health = "get_cluster_health"
tool_name get_workload_health = "get_workload_health"
tool_name get_restart_analysis = "get_restart_analysis"
tool_name get_failed_workloads = "get_failed_workloads"
tool_name get_pending_pods = "get_pending_pods"
tool_name get_crash_loop_pods = "get_crashloop_pods"
tool_name get_node_conditions = "get_node_conditions"

-- They are the texts of the commands.
pub tool_name-text : (k : Name) → tool_name k ≡ text k
tool_name-text get_pods = refl
tool_name-text get_pod = refl
tool_name-text describe_pod = refl
tool_name-text get_logs = refl
tool_name-text get_events = refl
tool_name-text get_nodes = refl
tool_name-text get_namespaces = refl
tool_name-text get_deployments = refl
tool_name-text get_stateful_sets = refl
tool_name-text get_daemon_sets = refl
tool_name-text get_services = refl
tool_name-text get_ingresses = refl
tool_name-text get_resource_usage = refl
tool_name-text get_cluster_health = refl
tool_name-text get_workload_health = refl
tool_name-text get_restart_analysis = refl
tool_name-text get_failed_workloads = refl
tool_name-text get_pending_pods = refl
tool_name-text get_crash_loop_pods = refl
tool_name-text get_node_conditions = refl

-- The parameters that a command reads.
pub data Shape : Type 0 where
  nothing any_namespace one_pod one_log : Shape

abbrev pub shape : Name → Shape
shape get_pods = any_namespace
shape get_pod = one_pod
shape describe_pod = one_pod
shape get_logs = one_log
shape get_events = any_namespace
shape get_nodes = nothing
shape get_namespaces = nothing
shape get_deployments = any_namespace
shape get_stateful_sets = any_namespace
shape get_daemon_sets = any_namespace
shape get_services = any_namespace
shape get_ingresses = any_namespace
shape get_resource_usage = any_namespace
shape get_cluster_health = nothing
shape get_workload_health = any_namespace
shape get_restart_analysis = any_namespace
shape get_failed_workloads = any_namespace
shape get_pending_pods = any_namespace
shape get_crash_loop_pods = any_namespace
shape get_node_conditions = nothing

abbrev pub schema : Shape → Object
schema nothing = empty_params
schema any_namespace = namespace_params
schema one_pod = pod_params
schema one_log = logs_params

-- What the provider without a registry of its own offers under the name of each tool.
pub offered :
    (dispatcher : Option Dispatcher) (audit : Bool) (k : Name)
    → (def : ToolDefinition) × (tool_of (new_provider none dispatcher audit).registry (tool_name k)
        ≡ some def)
      × (def.name ≡ text k)
      × (def.parameters ≡ schema (shape k))
unfolding tool_of new_provider new_tool_registry lookup insert
offered dispatcher audit get_pods = (_, refl, refl, refl)
offered dispatcher audit get_pod = (_, refl, refl, refl)
offered dispatcher audit describe_pod = (_, refl, refl, refl)
offered dispatcher audit get_logs = (_, refl, refl, refl)
offered dispatcher audit get_events = (_, refl, refl, refl)
offered dispatcher audit get_nodes = (_, refl, refl, refl)
offered dispatcher audit get_namespaces = (_, refl, refl, refl)
offered dispatcher audit get_deployments = (_, refl, refl, refl)
offered dispatcher audit get_stateful_sets = (_, refl, refl, refl)
offered dispatcher audit get_daemon_sets = (_, refl, refl, refl)
offered dispatcher audit get_services = (_, refl, refl, refl)
offered dispatcher audit get_ingresses = (_, refl, refl, refl)
offered dispatcher audit get_resource_usage = (_, refl, refl, refl)
offered dispatcher audit get_cluster_health = (_, refl, refl, refl)
offered dispatcher audit get_workload_health = (_, refl, refl, refl)
offered dispatcher audit get_restart_analysis = (_, refl, refl, refl)
offered dispatcher audit get_failed_workloads = (_, refl, refl, refl)
offered dispatcher audit get_pending_pods = (_, refl, refl, refl)
offered dispatcher audit get_crash_loop_pods = (_, refl, refl, refl)
offered dispatcher audit get_node_conditions = (_, refl, refl, refl)

module _ (wild : Float64 → ℤ) (p q : Option Object) where
  -- Two maps of parameters say the same to the commands of a shape.
  pub data SameFor : Shape → Type 0 where
    same_nothing : SameFor nothing
    same_namespace : str p "namespace" "*" ≡ str q "namespace" "*" → SameFor any_namespace
    same_pod :
        str p "namespace" "" ≡ str q "namespace" ""
        → str p "name" "" ≡ str q "name" ""
        → SameFor one_pod
    same_log :
        str p "namespace" "" ≡ str q "namespace" ""
        → str p "name" "" ≡ str q "name" ""
        → str p "container" "" ≡ str q "container" ""
        → integer wild p "tailLines" (pos 200) ≡ integer wild q "tailLines" (pos 200)
        → SameFor one_log

abbrev pub request : String → String → Option Object → Request
request id command parameters = record {
  request_id = id;
  command = command;
  parameters = parameters;
}

-- `run` reads nothing else.
pub run-SameFor :
    (wild : Float64 → ℤ) (kube : Clientset) (id : String) (p q : Option Object) (k : Name)
    → SameFor wild p q (shape k)
    → run wild kube (request id (text k) p) ≡ run wild kube (request id (text k) q)
unfolding run
run-SameFor wild kube id p q get_pods (same_namespace n) = rw n refl
run-SameFor wild kube id p q get_pod (same_pod n m) = rw (n, m) refl
run-SameFor wild kube id p q describe_pod (same_pod n m) = rw (n, m) refl
run-SameFor wild kube id p q get_logs (same_log n m c t) = rw (n, m, c, t) refl
run-SameFor wild kube id p q get_events (same_namespace n) = rw n refl
run-SameFor wild kube id p q get_nodes same_nothing = refl
run-SameFor wild kube id p q get_namespaces same_nothing = refl
run-SameFor wild kube id p q get_deployments (same_namespace n) = rw n refl
run-SameFor wild kube id p q get_stateful_sets (same_namespace n) = rw n refl
run-SameFor wild kube id p q get_daemon_sets (same_namespace n) = rw n refl
run-SameFor wild kube id p q get_services (same_namespace n) = rw n refl
run-SameFor wild kube id p q get_ingresses (same_namespace n) = rw n refl
run-SameFor wild kube id p q get_resource_usage (same_namespace n) = rw n refl
run-SameFor wild kube id p q get_cluster_health same_nothing = refl
run-SameFor wild kube id p q get_workload_health (same_namespace n) = rw n refl
run-SameFor wild kube id p q get_restart_analysis (same_namespace n) = rw n refl
run-SameFor wild kube id p q get_failed_workloads (same_namespace n) = rw n refl
run-SameFor wild kube id p q get_pending_pods (same_namespace n) = rw n refl
run-SameFor wild kube id p q get_crash_loop_pods (same_namespace n) = rw n refl
run-SameFor wild kube id p q get_node_conditions same_nothing = refl
