-- ===== src/Commands/Dispatch.antt =====
-- The commands that `run` of internal/commands/commands.go knows, one by one.
use hive_agent.Prelude.{String, ◌≡◌, subst, true, ◌==◌, All, All-In, mem_of-any, eq_iff}
use hive_agent.Prelude.Int.{ℤ, pos}
use hive_agent.Prelude.Result.{Result}
use hive_agent.Value.{Value, Float64}
use hive_agent.Kube.Api.{Clientset}
use hive_agent.Kube.Queries.{
  get_pods, get_pod, get_logs, get_events, get_nodes, get_namespaces, get_deployments,
  get_stateful_sets, get_daemon_sets, get_services, get_ingresses, get_cluster_health,
  get_workload_health, get_restart_analysis, get_failed_workloads, get_pending_pods,
  get_crash_loop_pods, get_node_conditions,
}
use hive_agent.Kube.Usage.{get_resource_usage}
use hive_agent.Capabilities as Capabilities
use hive_agent.Commands.Params.{str, integer}
use hive_agent.Commands.Run.{Request, as_list, as_map, run}

module _ (P : Result Value → Type 0) (wild : Float64 → ℤ) (c : Clientset) (req : Request) where
  -- What holds of each query with the parameters of the request.
  pub record HoldsEach : Type 0 where
    pub pods : P (as_list (get_pods c (str req.parameters "namespace" "*")))
    pub pod :
        P (as_map (get_pod c (str req.parameters "namespace" "") (str req.parameters "name" "")))
    pub logs : P (
        as_map (
          get_logs c
            (str req.parameters "namespace" "")
            (str req.parameters "name" "")
            (str req.parameters "container" "")
            (integer wild req.parameters "tailLines" (pos 200))))
    pub events : P (as_list (get_events c (str req.parameters "namespace" "*")))
    pub nodes : P (as_list (get_nodes c))
    pub namespaces : P (as_list (get_namespaces c))
    pub deployments : P (as_list (get_deployments c (str req.parameters "namespace" "*")))
    pub stateful_sets : P (as_list (get_stateful_sets c (str req.parameters "namespace" "*")))
    pub daemon_sets : P (as_list (get_daemon_sets c (str req.parameters "namespace" "*")))
    pub services : P (as_list (get_services c (str req.parameters "namespace" "*")))
    pub ingresses : P (as_list (get_ingresses c (str req.parameters "namespace" "*")))
    pub usage : P (as_map (get_resource_usage c (str req.parameters "namespace" "*")))
    pub cluster_health : P (as_map (get_cluster_health c))
    pub workload_health : P (as_map (get_workload_health c (str req.parameters "namespace" "*")))
    pub restarts : P (as_list (get_restart_analysis c (str req.parameters "namespace" "*")))
    pub failed_workloads : P (as_map (get_failed_workloads c (str req.parameters "namespace" "*")))
    pub pending : P (as_list (get_pending_pods c (str req.parameters "namespace" "*")))
    pub crash_loops : P (as_list (get_crash_loop_pods c (str req.parameters "namespace" "*")))
    pub conditions : P (as_list (get_node_conditions c))

  abbrev Runs : String → Type 0
  Runs name = P (run wild c (record req { command = name }))

  run_each : HoldsEach → All Runs Capabilities.all
  unfolding run
  run_each h = (
    h.pods,
    (
      h.pod,
      (
        h.pod,
        (
          h.logs,
          (
            h.events,
            (
              h.nodes,
              (
                h.namespaces,
                (
                  h.deployments,
                  (
                    h.stateful_sets,
                    (
                      h.daemon_sets,
                      (
                        h.services,
                        (
                          h.ingresses,
                          (
                            h.usage,
                            (
                              h.cluster_health,
                              (
                                h.workload_health,
                                (
                                  h.restarts,
                                  (
                                    h.failed_workloads,
                                    (h.pending, (h.crash_loops, (h.conditions, tt))),
                                  ),
                                ),
                              ),
                            ),
                          ),
                        ),
                      ),
                    ),
                  ),
                ),
              ),
            ),
          ),
        ),
      ),
    ),
  )

  -- What holds of every query holds of what `run` does for a capability.
  pub run-HoldsEach : HoldsEach → Capabilities.contains req.command ≡ true → P (run wild c req)
  unfolding Capabilities.contains
  run-HoldsEach h listed =
      let (item, m, same) = mem_of-any (λ item. item == req.command) Capabilities.all listed in
      let e : item ≡ req.command = (eq_iff item req.command).0 same in
      subst Runs e (All-In Runs Capabilities.all (run_each h) item m)
