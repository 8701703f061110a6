-- ===== src/Commands/Unanswered.antt =====
-- What internal/commands/commands.go answers while the API answers nothing.
use hive_agent.Prelude.{String, ◌≡◌, ◌≢◌, refl, true, false, some, List, ◌==◌, arith, eq_iff}
use hive_agent.Prelude.Int.{ℤ, pos}
use hive_agent.Prelude.Result.{Result, err, ◌>>=◌}
use hive_agent.Value.{Value, Object, Float64}
use hive_agent.Kube.Api.{Clientset}
use hive_agent.Kube.Health.{health}
use hive_agent.Kube.Queries.{
  get_pods, get_pod, get_logs, get_events, get_nodes, get_namespaces, get_deployments,
  get_stateful_sets, get_daemon_sets, get_services, get_ingresses, get_cluster_health,
  get_workload_health, get_restart_analysis, get_failed_pods, get_failed_workloads,
  get_pending_pods, get_crash_loop_pods, get_node_conditions,
}
use hive_agent.Kube.Usage.{get_resource_usage}
use hive_agent.Capabilities as Capabilities
use hive_agent.Commands.Params.{str, integer}
use hive_agent.Commands.Run.{Request, Clock, as_list, as_map, execute, fail}
use hive_agent.Commands.Dispatch.{HoldsEach, run-HoldsEach}
use hive_agent.Commands.Allowed.{is_allowed-contains}

-- Every call of the API ends with the same error.
pub record FailsAll (c : Clientset) (text : String) : Type 0 where
  pub nodes : c.nodes ≡ err text
  pub namespaces : c.namespaces ≡ err text
  pub pods : (n : String) → c.pods n ≡ err text
  pub pod : (n p : String) → c.pod n p ≡ err text
  pub logs : (n p k : String) (t : ℤ) → c.logs n p k t ≡ err text
  pub events : (n : String) → c.events n ≡ err text
  pub deployments : (n : String) → c.deployments n ≡ err text
  pub stateful_sets : (n : String) → c.stateful_sets n ≡ err text
  pub daemon_sets : (n : String) → c.daemon_sets n ≡ err text
  pub services : (n : String) → c.services n ≡ err text
  pub ingresses : (n : String) → c.ingresses n ≡ err text

bind-err :
    {A B : Type 0} (m : Result A) (f : A → Result B) (text : String)
    → m ≡ err text
    → (m >>= f) ≡ err text
bind-err m f text h = rw h refl

module _ (c : Clientset) (text : String) (a : FailsAll c text) where
  lists_fail :
      (n : String)
      → (get_pods c n ≡ err text)
        × (get_events c n ≡ err text)
        × (get_nodes c ≡ err text)
        × (get_namespaces c ≡ err text)
        × (get_deployments c n ≡ err text)
        × (get_stateful_sets c n ≡ err text)
        × (get_daemon_sets c n ≡ err text)
        × (get_services c n ≡ err text)
        × (get_ingresses c n ≡ err text)
        × (get_restart_analysis c n ≡ err text)
        × (get_pending_pods c n ≡ err text)
        × (get_crash_loop_pods c n ≡ err text)
        × (get_node_conditions c ≡ err text)
  unfolding get_pods get_events get_nodes get_namespaces get_deployments get_stateful_sets
      get_daemon_sets get_services get_ingresses get_restart_analysis get_pending_pods
      get_crash_loop_pods get_node_conditions
  lists_fail n = (
    bind-err _ _ text (a.pods _),
    bind-err _ _ text (a.events _),
    bind-err _ _ text a.nodes,
    bind-err _ _ text a.namespaces,
    bind-err _ _ text (a.deployments _),
    bind-err _ _ text (a.stateful_sets _),
    bind-err _ _ text (a.daemon_sets _),
    bind-err _ _ text (a.services _),
    bind-err _ _ text (a.ingresses _),
    bind-err _ _ text (a.pods _),
    bind-err _ _ text (a.pods _),
    bind-err _ _ text (a.pods _),
    bind-err _ _ text a.nodes,
  )

  health-fails : (health c).1 ≡ some text
  unfolding health
  health-fails = rw a.nodes refl

  summaries_fail :
      (n : String)
      → (get_resource_usage c n ≡ err text)
        × (get_cluster_health c ≡ err text)
        × (get_workload_health c n ≡ err text)
        × (get_failed_workloads c n ≡ err text)
  unfolding get_resource_usage get_cluster_health get_workload_health get_failed_workloads
      get_failed_pods
  summaries_fail n = (
    bind-err _ _ text (a.pods _),
    rw (get_cluster_health, health-fails) refl,
    bind-err _ _ text ((lists_fail n).4),
    bind-err _ _ text (bind-err _ _ text (a.pods _)),
  )

  single_fail :
      (n p k : String) (t : ℤ)
      → n ≢ ""
      → p ≢ ""
      → (get_pod c n p ≡ err text) × (get_logs c n p k t ≡ err text)
  unfolding get_pod get_logs
  single_fail n p k t hn hp =
      let no_n : (n == "") ≡ false = ground (arith, eq_iff n "") in
      let no_p : (p == "") ≡ false = ground (arith, eq_iff p "") in
      rw (no_n, no_p) (bind-err _ _ text (a.pod _ _), bind-err _ _ text (a.logs _ _ _ _))

module _ (wild : Float64 → ℤ) (c : Clientset) (text : String) (a : FailsAll c text) (req : Request)
    (hn : str req.parameters "namespace" "" ≢ "") (hp : str req.parameters "name" "" ≢ "") where
  abbrev IsError : Result Value → Type 0
  IsError r = r ≡ err text

  list_fails : (r : Result (List Object)) → r ≡ err text → as_list r ≡ err text
  list_fails r h = bind-err _ _ text h

  map_fails : (r : Result Object) → r ≡ err text → as_map r ≡ err text
  map_fails r h = bind-err _ _ text h

  each-IsError : HoldsEach IsError wild c req
  each-IsError =
      let n = str req.parameters "namespace" "*" in
      let l = lists_fail c text a n in
      let s = summaries_fail c text a n in
      let one =
        single_fail c text a (str req.parameters "namespace" "") (str req.parameters "name" "")
          (str req.parameters "container" "") (integer wild req.parameters "tailLines" (pos 200)) hn
          hp in
      record {
        pods = list_fails _ l.0;
        pod = map_fails _ one.0;
        logs = map_fails _ one.1;
        events = list_fails _ l.1;
        nodes = list_fails _ l.2;
        namespaces = list_fails _ l.3;
        deployments = list_fails _ l.4;
        stateful_sets = list_fails _ l.5;
        daemon_sets = list_fails _ l.6;
        services = list_fails _ l.7;
        ingresses = list_fails _ l.8;
        usage = map_fails _ s.0;
        cluster_health = map_fails _ s.1;
        workload_health = map_fails _ s.2;
        restarts = list_fails _ l.9;
        failed_workloads = map_fails _ s.3;
        pending = list_fails _ l.10;
        crash_loops = list_fails _ l.11;
        conditions = list_fails _ l.12;
      }

  -- While every call of the API ends with the same error, each of the capabilities that the agent
  -- registers, for a request that names a namespace and a pod, is answered with the status "error"
  -- and the text of that error.
  pub execute_unanswered :
      (cluster : String) (clock : Clock)
      → Capabilities.contains req.command ≡ true
      → execute wild cluster c clock req ≡ fail cluster clock req text
  unfolding execute
  execute_unanswered cluster clock listed =
      rw (is_allowed-contains, listed, run-HoldsEach IsError wild c req each-IsError listed)
