-- ===== src/Agent/Moves.antt =====
-- What one `machine.Transition` does to the machine and the metrics of cmd/agent/main.go.
use mathlib.Core.List.{append-nil}
use hive_agent.Prelude.{subst, ℕ, String, ◌≡◌, refl, sym, ◌∙◌, ◌⊎◌, inl, inr, true, List, [], ◌∷◌}
use hive_agent.State.{AgentState, name, Snapshot, transition}
use hive_agent.State.Diagram.{◌⟶◌, transition-cases, allowed-of_⟶}
use hive_agent.State.Runs.{run}
use hive_agent.Telemetry.{Metrics, set_state}
use hive_agent.Telemetry.Mirror.{observe, Shows, run-Shows}
use hive_agent.Agent.{Agent, move}

-- The counters and the tunnel's gauge, without the state's gauges.
pub record Counters : Type 0 where
  pub heartbeats : ℕ
  pub heartbeat_failures : ℕ
  pub tunnel_reconnects : ℕ
  pub tunnel_connected : ℕ

abbrev pub counters : Metrics → Counters
counters m = record {
  heartbeats = m.heartbeats;
  heartbeat_failures = m.heartbeat_failures;
  tunnel_reconnects = m.tunnel_reconnects;
  tunnel_connected = m.tunnel_connected;
}

counters-set_state : (m : Metrics) (s : String) → counters (set_state m s) ≡ counters m
unfolding set_state
counters-set_state m s = refl

counters-observe : (m : Metrics) (l : List Snapshot) → counters (observe m l) ≡ counters m
unfolding observe
counters-observe m [] = refl
counters-observe m (s ∷ l) =
    counters-observe (set_state m (name s.state)) l ∙ counters-set_state m (name s.state)

module _ (a : Agent) (next : AgentState) (reason : String) (now : ℕ) where
  -- A move changes no counter.
  pub counters-move : counters (move a next reason now).metrics ≡ counters a.metrics
  unfolding move
  counters-move = counters-observe a.metrics (transition a.machine next reason now).notified

  -- A move keeps the callback.
  pub callback-move : (move a next reason now).machine.on_change ≡ a.machine.on_change
  unfolding move
  callback-move = elim (transition-cases a.machine next reason now) [
    | inl (same, e) ↦ rw e refl
    | inr (inl (other, edge, e)) ↦ rw e refl
    | inr (inr (other, no_edge, e)) ↦ rw e refl
  ]

  -- A move leaves the state as it was or follows an edge of the diagram to the state asked for.
  pub state-move :
      ((move a next reason now).machine.state ≡ a.machine.state)
      ⊎ (((move a next reason now).machine.state ≡ next) × (a.machine.state ⟶ next))
  unfolding move
  state-move = elim (transition-cases a.machine next reason now) [
    | inl (same, e) ↦ inl (rw e (sym same))
    | inr (inl (other, edge, e)) ↦ inr (rw e refl, edge)
    | inr (inr (other, no_edge, e)) ↦ inl (rw e refl)
  ]

  -- An edge of the diagram is followed.
  pub state-move_edge : a.machine.state ⟶ next → (move a next reason now).machine.state ≡ next
  unfolding move
  state-move_edge edge = elim (transition-cases a.machine next reason now) [
    | inl (same, e) ↦ rw e refl
    | inr (inl (other, _, e)) ↦ rw e refl
    | inr (inr (other, no_edge, e)) ↦ absurd (cc (allowed-of_⟶ edge))
  ]

  -- A move keeps the gauges in step with the machine.
  pub Shows-move :
      a.machine.on_change ≡ true
      → Shows a.metrics a.machine.state
      → Shows (move a next reason now).metrics (move a next reason now).machine.state
  unfolding move run
  Shows-move h shown =
      let out = transition a.machine next reason now in
      subst (λ l. Shows (observe a.metrics l) out.machine.state) (append-nil out.notified)
        (run-Shows a.metrics a.machine ((next, reason, now) ∷ []) h shown)
