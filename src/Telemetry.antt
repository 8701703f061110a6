-- ===== src/Telemetry.antt =====
-- internal/telemetry/telemetry.go: the metrics. Prometheus counters are only ever raised by whole
-- numbers here, and the gauges only ever hold 0 or 1, so both are numbers.
pub mod Setup
pub mod Gauge
pub mod Mirror
use hive_agent.Prelude.{ℕ, String, List, [], ◌∷◌, ◌==◌, if◌then◌else◌}
use hive_agent.Prelude.GoMap.{GoMap, insert}

pub record Metrics : Type 0 where
  pub heartbeats : ℕ
  pub heartbeat_failures : ℕ
  pub inventory_syncs : ℕ
  pub inventory_failures : ℕ
  pub commands : ℕ
  pub command_failures : ℕ
  pub tunnel_reconnects : ℕ
  pub tunnel_connected : ℕ
  -- the gauge of each label `state`
  pub agent_state : GoMap ℕ

abbrev pub new_metrics : Metrics
new_metrics = record {
  heartbeats = 0;
  heartbeat_failures = 0;
  inventory_syncs = 0;
  inventory_failures = 0;
  commands = 0;
  command_failures = 0;
  tunnel_reconnects = 0;
  tunnel_connected = 0;
  agent_state = [];
}

abbrev pub state_labels : List String
state_labels =
    "PENDING_KEY" ∷ "REGISTERED" ∷ "CONNECTING" ∷ "ONLINE" ∷ "DEGRADED" ∷ "OFFLINE" ∷ "REVOKED" ∷ []

-- the loop of `SetState` over the labels that are left
unfoldable pub set_labels : List String → String → GoMap ℕ → GoMap ℕ
set_labels [] state gauges = gauges
set_labels (s ∷ labels) state gauges =
    set_labels labels state (insert s (if s == state then 1 else 0) gauges)

unfoldable pub set_state : Metrics → String → Metrics
set_state m state = record m { agent_state = set_labels state_labels state m.agent_state }
