-- ===== src/Kube/Health.antt =====
-- The health snapshot of internal/kubernetes/client.go.
use hive_agent.Prelude.{
  ℕ, ◌+◌, String, Bool, false, Option, none, some, List, [], ◌∷◌, ◌==◌, ◌||◌, if◌then◌else◌, length,
  ltb,
}
use hive_agent.Prelude.Result.{ok, err}
use hive_agent.Kube.Api.{Clientset, Node, NodeCondition, Pod}

pub record HealthSnapshot : Type 0 where
  pub nodes_ready : ℕ
  pub nodes_not_ready : ℕ
  pub pods_running : ℕ
  pub pods_pending : ℕ
  pub pods_failed : ℕ
  pub deployments : ℕ
  pub stateful_sets : ℕ
  pub daemon_sets : ℕ

abbrev pub zero_health : HealthSnapshot
zero_health = record {
  nodes_ready = 0;
  nodes_not_ready = 0;
  pods_running = 0;
  pods_pending = 0;
  pods_failed = 0;
  deployments = 0;
  stateful_sets = 0;
  daemon_sets = 0;
}

-- the loop of `nodeReady`: the first condition of type Ready decides
unfoldable pub first_ready : List NodeCondition → Bool
first_ready [] = false
first_ready (c ∷ rest) = if c.kind == "Ready" then c.status == "True" else first_ready rest

unfoldable pub node_ready : Node → Bool
unfolding first_ready
node_ready n = first_ready n.conditions

unfoldable pub count_nodes : List Node → HealthSnapshot → HealthSnapshot
unfolding node_ready
count_nodes [] out = out
count_nodes (n ∷ rest) out = count_nodes rest (
    if node_ready n
    then record out { nodes_ready = out.nodes_ready + 1 }
    else record out { nodes_not_ready = out.nodes_not_ready + 1 })

-- the `switch` on the phase; other phases are not counted
abbrev pub count_pod : Pod → HealthSnapshot → HealthSnapshot
count_pod p out =
    if p.phase == "Running"
    then record out { pods_running = out.pods_running + 1 }
    else if p.phase == "Pending"
    then record out { pods_pending = out.pods_pending + 1 }
    else if p.phase == "Failed"
    then record out { pods_failed = out.pods_failed + 1 }
    else out

unfoldable pub count_pods : List Pod → HealthSnapshot → HealthSnapshot
count_pods [] out = out
count_pods (p ∷ rest) out = count_pods rest (count_pod p out)

-- An error comes with what was counted before it, as in the code.
unfoldable pub health : Clientset → HealthSnapshot × Option String
unfolding count_nodes count_pods
health c = elim c.nodes [
  | err e ↦ (zero_health, some e)
  | ok nodes ↦
      let counted = count_nodes nodes zero_health in
      elim (c.pods "") [
        | err e ↦ (counted, some e)
        | ok pods ↦
            let phases = count_pods pods counted in
            elim (c.deployments "") [
              | err e ↦ (phases, some e)
              | ok deps ↦
                  let with_deps = record phases { deployments = length deps } in
                  elim (c.stateful_sets "") [
                    | err e ↦ (with_deps, some e)
                    | ok ss ↦
                        let with_ss = record with_deps { stateful_sets = length ss } in
                        elim (c.daemon_sets "") [
                          | err e ↦ (with_ss, some e)
                          | ok ds ↦ (record with_ss { daemon_sets = length ds }, none)
                        ]
                  ]
            ]
      ]
]

unfoldable pub cluster_health : HealthSnapshot → String
cluster_health h = if ltb 0 h.nodes_not_ready || ltb 0 h.pods_failed then "degraded" else "healthy"
