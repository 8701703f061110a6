-- ===== src/Commands/Supported.antt =====
-- Every capability that the agent registers is implemented by `run` of internal/commands/commands.go.
use hive_agent.Prelude.{String, ◌≡◌, ◌≢◌, refl, true, false, List, ◌==◌, arith, eq_iff}
use hive_agent.Prelude.Int.{ℤ, pos}
use hive_agent.Prelude.Result.{Result, ok, ◌>>=◌}
use hive_agent.Value.{Object, Float64}
use hive_agent.Kube.Api.{Clientset}
use hive_agent.Kube.Counts.{Answers, health-counted}
use hive_agent.Kube.Queries.{
  get_pods, get_pod, get_logs, get_events, get_nodes, get_namespaces, get_deployments,
  get_stateful_sets, get_daemon_sets, get_services, get_ingresses, get_cluster_health,
  get_workload_health, get_restart_analysis, get_failed_workloads, get_pending_pods,
  get_crash_loop_pods, get_node_conditions,
}
use hive_agent.Kube.Usage.{get_resource_usage}
use hive_agent.Capabilities as Capabilities
use hive_agent.Commands.Params.{str, integer}
use hive_agent.Commands.Run.{Request, Clock, as_list, as_map, execute}
use hive_agent.Commands.Dispatch.{HoldsEach, run-HoldsEach}
use hive_agent.Commands.Allowed.{is_allowed-contains}

-- The result is a value.
pub record IsOk {A : Type 0} (r : Result A) : Type 0 where
  pub value : A
  pub equation : r ≡ ok value

IsOk-ok : {A : Type 0} (a : A) → IsOk (ok a)
IsOk-ok a = record { value = a; equation = refl }

IsOk-bind :
    {A B : Type 0} (m : Result A) (f : A → Result B)
    → IsOk m
    → ((a : A) → IsOk (f a))
    → IsOk (m >>= f)
IsOk-bind m f h k = rw h.equation (k h.value)

-- The API answers every question.
pub record AnswersAll (c : Clientset) : Type 0 where
  pub nodes : IsOk c.nodes
  pub namespaces : IsOk c.namespaces
  pub pods : (n : String) → IsOk (c.pods n)
  pub pod : (n p : String) → IsOk (c.pod n p)
  pub logs : (n p k : String) (t : ℤ) → IsOk (c.logs n p k t)
  pub events : (n : String) → IsOk (c.events n)
  pub deployments : (n : String) → IsOk (c.deployments n)
  pub stateful_sets : (n : String) → IsOk (c.stateful_sets n)
  pub daemon_sets : (n : String) → IsOk (c.daemon_sets n)
  pub services : (n : String) → IsOk (c.services n)
  pub ingresses : (n : String) → IsOk (c.ingresses n)

module _ (c : Clientset) (a : AnswersAll c) where
  abbrev answers : Answers c
  answers = record {
    nodes = a.nodes.value;
    pods = (a.pods "").value;
    deployments = (a.deployments "").value;
    stateful_sets = (a.stateful_sets "").value;
    daemon_sets = (a.daemon_sets "").value;
    nodes_ok = a.nodes.equation;
    pods_ok = (a.pods "").equation;
    deployments_ok = (a.deployments "").equation;
    stateful_sets_ok = (a.stateful_sets "").equation;
    daemon_sets_ok = (a.daemon_sets "").equation;
  }

  lists-IsOk :
      (n : String)
      → IsOk (get_pods c n)
        × IsOk (get_events c n)
        × IsOk (get_nodes c)
        × IsOk (get_namespaces c)
        × IsOk (get_deployments c n)
        × IsOk (get_stateful_sets c n)
        × IsOk (get_daemon_sets c n)
        × IsOk (get_services c n)
        × IsOk (get_ingresses c n)
        × IsOk (get_restart_analysis c n)
        × IsOk (get_pending_pods c n)
        × IsOk (get_crash_loop_pods c n)
        × IsOk (get_node_conditions c)
  unfolding get_pods get_events get_nodes get_namespaces get_deployments get_stateful_sets
      get_daemon_sets get_services get_ingresses get_restart_analysis get_pending_pods
      get_crash_loop_pods get_node_conditions
  lists-IsOk n = (
    IsOk-bind _ _ (a.pods _) (λ l. IsOk-ok _),
    IsOk-bind _ _ (a.events _) (λ l. IsOk-ok _),
    IsOk-bind _ _ a.nodes (λ l. IsOk-ok _),
    IsOk-bind _ _ a.namespaces (λ l. IsOk-ok _),
    IsOk-bind _ _ (a.deployments _) (λ l. IsOk-ok _),
    IsOk-bind _ _ (a.stateful_sets _) (λ l. IsOk-ok _),
    IsOk-bind _ _ (a.daemon_sets _) (λ l. IsOk-ok _),
    IsOk-bind _ _ (a.services _) (λ l. IsOk-ok _),
    IsOk-bind _ _ (a.ingresses _) (λ l. IsOk-ok _),
    IsOk-bind _ _ (a.pods _) (λ l. IsOk-ok _),
    IsOk-bind _ _ (a.pods _) (λ l. IsOk-ok _),
    IsOk-bind _ _ (a.pods _) (λ l. IsOk-ok _),
    IsOk-bind _ _ a.nodes (λ l. IsOk-ok _),
  )

  cluster_health-IsOk : IsOk (get_cluster_health c)
  unfolding get_cluster_health
  cluster_health-IsOk = rw (health-counted c answers, get_cluster_health) (IsOk-ok _)

  summaries-IsOk :
      (n : String)
      → IsOk (get_resource_usage c n)
        × IsOk (get_cluster_health c)
        × IsOk (get_workload_health c n)
        × IsOk (get_failed_workloads c n)
  unfolding get_resource_usage get_workload_health get_failed_workloads
  summaries-IsOk n = (
    IsOk-bind _ _ (a.pods _) (λ l. IsOk-ok _),
    cluster_health-IsOk,
    IsOk-bind _ _ (IsOk-bind _ _ (a.deployments _) (λ l. IsOk-ok _)) (λ l.
        IsOk-bind _ _ (IsOk-bind _ _ (a.stateful_sets _) (λ l. IsOk-ok _))
          (λ l. IsOk-bind _ _ (IsOk-bind _ _ (a.daemon_sets _) (λ l. IsOk-ok _)) (λ l. IsOk-ok _))),
    IsOk-bind _ _ (IsOk-bind _ _ (a.pods _) (λ l. IsOk-ok _))
        (λ l. IsOk-bind _ _ (a.deployments _) (λ l. IsOk-ok _)),
  )

  single-IsOk :
      (n p k : String) (t : ℤ) → n ≢ "" → p ≢ "" → IsOk (get_pod c n p) × IsOk (get_logs c n p k t)
  unfolding get_pod get_logs
  single-IsOk n p k t hn hp =
      let no_n : (n == "") ≡ false = ground (arith, eq_iff n "") in
      let no_p : (p == "") ≡ false = ground (arith, eq_iff p "") in
      rw (no_n, no_p)
        (
          IsOk-bind _ _ (a.pod _ _) (λ l. IsOk-ok _),
          IsOk-bind _ _ (a.logs _ _ _ _) (λ l. IsOk-ok _),
        )

module _ (wild : Float64 → ℤ) (c : Clientset) (a : AnswersAll c) (req : Request)
    (hn : str req.parameters "namespace" "" ≢ "") (hp : str req.parameters "name" "" ≢ "") where
  list-IsOk : (r : Result (List Object)) → IsOk r → IsOk (as_list r)
  list-IsOk r h = IsOk-bind _ _ h (λ l. IsOk-ok _)

  map-IsOk : (r : Result Object) → IsOk r → IsOk (as_map r)
  map-IsOk r h = IsOk-bind _ _ h (λ l. IsOk-ok _)

  each-IsOk : HoldsEach IsOk wild c req
  each-IsOk =
      let n = str req.parameters "namespace" "*" in
      let l = lists-IsOk c a n in
      let s = summaries-IsOk c a n in
      let one =
        single-IsOk c a (str req.parameters "namespace" "") (str req.parameters "name" "")
          (str req.parameters "container" "") (integer wild req.parameters "tailLines" (pos 200)) hn
          hp in
      record {
        pods = list-IsOk _ l.0;
        pod = map-IsOk _ one.0;
        logs = map-IsOk _ one.1;
        events = list-IsOk _ l.1;
        nodes = list-IsOk _ l.2;
        namespaces = list-IsOk _ l.3;
        deployments = list-IsOk _ l.4;
        stateful_sets = list-IsOk _ l.5;
        daemon_sets = list-IsOk _ l.6;
        services = list-IsOk _ l.7;
        ingresses = list-IsOk _ l.8;
        usage = map-IsOk _ s.0;
        cluster_health = map-IsOk _ s.1;
        workload_health = map-IsOk _ s.2;
        restarts = list-IsOk _ l.9;
        failed_workloads = map-IsOk _ s.3;
        pending = list-IsOk _ l.10;
        crash_loops = list-IsOk _ l.11;
        conditions = list-IsOk _ l.12;
      }

  -- When the API answers every question and the request names a namespace and a pod, each of the
  -- capabilities that the agent registers is carried out with success.
  pub execute_supported :
      (cluster : String) (clock : Clock)
      → Capabilities.contains req.command ≡ true
      → (execute wild cluster c clock req).status ≡ "success"
  unfolding execute
  execute_supported cluster clock listed =
      rw (is_allowed-contains, listed, (run-HoldsEach IsOk wild c req each-IsOk listed).equation)
