-- ===== src/Heartbeat.antt =====
-- internal/heartbeat/heartbeat.go. `Run` calls `once` at once and at every tick.
pub mod Counts
mod Examples
use hive_agent.Prelude.{ℕ, ◌+◌, String, Option, none, some, List, [], ◌∷◌}
use hive_agent.Kube.Api.{Clientset}
use hive_agent.Kube.Health.{HealthSnapshot, health, cluster_health}
use hive_agent.State.{degraded, name, Machine, snapshot}
use hive_agent.Telemetry.{Metrics}
use hive_agent.Agent.{Agent, move}
use hive_agent.Registration.Payload.{HeartbeatPayload}
use hive_agent.Registration.Retry.{Session}
use hive_agent.Registration.Client.{Client, heartbeat}

abbrev pub payload_of : String → HealthSnapshot → Machine → ℕ → HeartbeatPayload
payload_of cluster_id h m now = record {
  cluster_id = cluster_id;
  state = name (snapshot m).state;
  cluster_health = cluster_health h;
  nodes = record { ready = h.nodes_ready; not_ready = h.nodes_not_ready };
  pods = record { running = h.pods_running; pending = h.pods_pending; failed = h.pods_failed };
  workloads = record {
    deployments = h.deployments;
    stateful_sets = h.stateful_sets;
    daemon_sets = h.daemon_sets;
  };
  timestamp = now;
}

abbrev pub count_failure : Metrics → Metrics
count_failure m = record m { heartbeat_failures = m.heartbeat_failures + 1 }

abbrev pub count_heartbeat : Metrics → Metrics
count_heartbeat m = record m { heartbeats = m.heartbeats + 1 }

unfoldable pub once : Client → String → Clientset → ℕ → Agent → Session → Agent × Session
unfolding health move heartbeat
once api cluster_id kube now a s =
    let (h, failure) = health kube in
    elim failure [
      | some _ ↦ (
        move (record a { metrics = count_failure a.metrics }) degraded
            "kubernetes health collection failed" now,
        s,
      )
      | none ↦
          let (e, s') = heartbeat api (payload_of cluster_id h a.machine now) s in
          elim e [
            | some _ ↦ (record a { metrics = count_failure a.metrics }, s')
            | none ↦ (record a { metrics = count_heartbeat a.metrics }, s')
          ]
    ]

-- The calls of `once` by `Run`, one for each tick: what the cluster answers then, and the clock.
unfoldable pub run : Client → String → List (Clientset × ℕ) → Agent → Session → Agent × Session
unfolding once
run api cluster_id [] a s = (a, s)
run api cluster_id ((kube, now) ∷ later) a s =
    let (a', s') = once api cluster_id kube now a s in run api cluster_id later a' s'
