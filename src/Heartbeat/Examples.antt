-- ===== src/Heartbeat/Examples.antt =====
-- Rounds of internal/heartbeat/heartbeat.go: one over a cluster that answers, one while its list of
-- nodes fails, and one over a cluster that answers again.
use hive_agent.Prelude.{ℕ, ◌≡◌, refl, true, List, [], ◌∷◌}
use hive_agent.Kube.Api.{Clientset}
use hive_agent.State.{online, degraded}
use hive_agent.Telemetry.{new_metrics}
use hive_agent.Agent.{Agent}
use hive_agent.Heartbeat.{run}
use hive_agent.Samples.{cluster, broken_cluster, client, session}

abbrev agent : Agent
agent = record {
  machine = record { state = online; reason = ""; updated = 0; on_change = true };
  metrics = new_metrics;
}

abbrev rounds : List (Clientset × ℕ)
rounds = (cluster, 1) ∷ (broken_cluster, 2) ∷ (cluster, 3) ∷ []

stays_degraded : (run client "c1" rounds agent session).0.machine.state ≡ degraded
unfolding run
stays_degraded = refl
