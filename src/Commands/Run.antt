-- ===== src/Commands/Run.antt =====
-- `Execute`, `run` and `fail` of internal/commands/commands.go.
use hive_agent.Prelude.{
  ℕ, String, Bool, true, false, Option, none, some, List, [], ◌∷◌, ◌==◌, ◌||◌, not, if◌then◌else◌,
}
use hive_agent.Prelude.GoMap.{GoMap, lookup}
use hive_agent.Prelude.Int.{ℤ, pos}
use hive_agent.Prelude.Result.{Result, ok, err, ◌>>=◌}
use hive_agent.Value.{Value, Object, empty, object, objects, Float64}
use hive_agent.Value.Fields.{to_objects}
use hive_agent.Kube.Api.{Clientset}
use hive_agent.Kube.Queries.{
  get_pods, get_pod, get_logs, get_events, get_nodes, get_namespaces, get_deployments,
  get_stateful_sets, get_daemon_sets, get_services, get_ingresses, get_cluster_health,
  get_workload_health, get_restart_analysis, get_failed_workloads, get_pending_pods,
  get_crash_loop_pods, get_node_conditions,
}
use hive_agent.Kube.Usage.{get_resource_usage}
use hive_agent.Commands.Params.{str, integer}

-- the map `allowed`
abbrev pub allowed : GoMap Bool
allowed =
    ("get_pods", true)
    ∷ ("get_pod", true)
    ∷ ("describe_pod", true)
    ∷ ("get_logs", true)
    ∷ ("get_events", true)
    ∷ ("get_nodes", true)
    ∷ ("get_namespaces", true)
    ∷ ("get_deployments", true)
    ∷ ("get_statefulsets", true)
    ∷ ("get_daemonsets", true)
    ∷ ("get_services", true)
    ∷ ("get_ingresses", true)
    ∷ ("get_resource_usage", true)
    ∷ ("get_cluster_health", true)
    ∷ ("get_workload_health", true)
    ∷ ("get_restart_analysis", true)
    ∷ ("get_failed_workloads", true)
    ∷ ("get_pending_pods", true)
    ∷ ("get_crashloop_pods", true)
    ∷ ("get_node_conditions", true)
    ∷ []

-- a missing key reads as false
abbrev pub or_false : Option Bool → Bool
or_false none = false
or_false (some b) = b

unfoldable pub is_allowed : String → Bool
unfolding lookup
is_allowed command = or_false (lookup command allowed)

pub record Request : Type 0 where
  pub request_id : String
  pub command : String
  pub parameters : Option Object

pub record Response : Type 0 where
  pub command : String
  pub cluster_id : String
  pub request_id : String
  pub timestamp : ℕ
  pub data_value : Value
  pub status : String
  pub error : String
  pub duration_millis : ℤ

-- What the clock says when a response is made: the time, and the milliseconds since the start.
pub record Clock : Type 0 where
  pub now : ℕ
  pub elapsed : ℤ

abbrev pub as_list : Result (List Object) → Result Value
as_list r = r >>= λ l. ok (objects (to_objects l))

abbrev pub as_map : Result Object → Result Value
as_map r = r >>= λ m. ok (object m)

-- the `switch` on the command
unfoldable pub run : (Float64 → ℤ) → Clientset → Request → Result Value
unfolding str integer
run wild kube req =
    let ns = str req.parameters "namespace" "*" in
    let namespace = str req.parameters "namespace" "" in
    let name = str req.parameters "name" "" in
    let c = req.command in
    if c == "get_pods"
    then as_list (get_pods kube ns)
    else if c == "get_pod" || c == "describe_pod"
    then as_map (get_pod kube namespace name)
    else if c == "get_logs"
    then as_map (
        get_logs kube namespace name (str req.parameters "container" "")
          (integer wild req.parameters "tailLines" (pos 200)))
    else if c == "get_events"
    then as_list (get_events kube ns)
    else if c == "get_nodes"
    then as_list (get_nodes kube)
    else if c == "get_namespaces"
    then as_list (get_namespaces kube)
    else if c == "get_deployments"
    then as_list (get_deployments kube ns)
    else if c == "get_statefulsets"
    then as_list (get_stateful_sets kube ns)
    else if c == "get_daemonsets"
    then as_list (get_daemon_sets kube ns)
    else if c == "get_services"
    then as_list (get_services kube ns)
    else if c == "get_ingresses"
    then as_list (get_ingresses kube ns)
    else if c == "get_resource_usage"
    then as_map (get_resource_usage kube ns)
    else if c == "get_cluster_health"
    then as_map (get_cluster_health kube)
    else if c == "get_workload_health"
    then as_map (get_workload_health kube ns)
    else if c == "get_restart_analysis"
    then as_list (get_restart_analysis kube ns)
    else if c == "get_failed_workloads"
    then as_map (get_failed_workloads kube ns)
    else if c == "get_pending_pods"
    then as_list (get_pending_pods kube ns)
    else if c == "get_crashloop_pods"
    then as_list (get_crash_loop_pods kube ns)
    else if c == "get_node_conditions"
    then as_list (get_node_conditions kube)
    else err "unsupported capability"

unfoldable pub fail : String → Clock → Request → String → Response
fail cluster_id clock req msg = record {
  command = req.command;
  cluster_id = cluster_id;
  request_id = req.request_id;
  timestamp = clock.now;
  data_value = object empty;
  status = "error";
  error = msg;
  duration_millis = clock.elapsed;
}

-- `cluster_id` and `kube` are the fields of the executor.
unfoldable pub execute : (Float64 → ℤ) → String → Clientset → Clock → Request → Response
unfolding is_allowed fail
execute wild cluster_id kube clock req =
    if not (is_allowed req.command)
    then fail cluster_id clock req "unsupported capability"
    else elim (run wild kube req) [
      | err text ↦ fail cluster_id clock req text
      | ok v ↦ record {
        command = req.command;
        cluster_id = cluster_id;
        request_id = req.request_id;
        timestamp = clock.now;
        data_value = v;
        status = "success";
        error = "";
        duration_millis = clock.elapsed;
      }
    ]
