-- ===== src/Agent.antt =====
-- The machine and the metrics that cmd/agent/main.go creates and hands to the heartbeat and to the
-- tunnel, with the callback `func(s) { metrics.SetState(string(s.State)) }` between them.
pub mod Moves
use hive_agent.Prelude.{ℕ, String, true}
use hive_agent.State.{AgentState, Machine, new, name, snapshot, transition}
use hive_agent.Telemetry.{Metrics, new_metrics, set_state}
use hive_agent.Telemetry.Mirror.{observe}

pub record Agent : Type 0 where
  pub machine : Machine
  pub metrics : Metrics

-- `metrics := NewMetrics()`, `machine := state.New(…)` and the first `SetState`.
unfoldable pub start : ℕ → Agent
unfolding new snapshot
start now = record {
  machine = new true now;
  metrics = set_state new_metrics (name (snapshot (new true now)).state);
}

-- `machine.Transition`, with the callback. Every caller drops the error.
unfoldable pub move : Agent → AgentState → String → ℕ → Agent
unfolding transition observe
move a next reason now =
    let out = transition a.machine next reason now in
    record { machine = out.machine; metrics = observe a.metrics out.notified }
