-- ===== src/Process/Sound.antt =====
-- The invariant of the two goroutines of cmd/agent/main.go, and the heartbeat's turns.
use hive_agent.Prelude.{
  ℕ, String, ◌≡◌, refl, sym, ap, ◌∙◌, ◌⊎◌, inl, inr, true, some, ◌==◌, if◌then◌else◌,
}
use hive_agent.Kube.Api.{Clientset}
use hive_agent.State.{degraded, name}
use hive_agent.Prelude.GoMap.{lookup}
use hive_agent.State.Diagram.{◌⟶◌}
use hive_agent.Telemetry.Mirror.{Shows}
use hive_agent.Registration.Client.{Client}
use hive_agent.Agent.{Agent}
use hive_agent.Agent.Moves.{counters-move, state-move, callback-move, Shows-move}
use hive_agent.Websocket.{Manager}
use hive_agent.Process.{
  Stage, Beat, resting, measured, posting, delivered, lost, unhealthy, degrading, beat,
}
use hive_agent.Process.Stages.{may_be, may_read, gauge_of, may_be-degraded}

-- The agent is as the place of the tunnel's goroutine tells, and the gauges show the state.
pub record IsSound (x : Stage) (m : Manager) : Type 0 where
  pub callback : m.agent.machine.on_change ≡ true
  pub state_fits : may_be x m.agent.machine.state ≡ true
  pub flag_fits : may_read x m.connected ≡ true
  pub gauge_fits : m.agent.metrics.tunnel_connected ≡ gauge_of x
  pub shown : Shows m.agent.metrics m.agent.machine.state

-- What a turn of the heartbeat does to the manager.
pub record BeatEffect (m m' : Manager) : Type 0 where
  pub callback_kept : m'.agent.machine.on_change ≡ m.agent.machine.on_change
  pub state_kept :
      (m'.agent.machine.state ≡ m.agent.machine.state)
      ⊎ ((m'.agent.machine.state ≡ degraded) × (m.agent.machine.state ⟶ degraded))
  pub flag_kept : m'.connected ≡ m.connected
  pub gauge_kept : m'.agent.metrics.tunnel_connected ≡ m.agent.metrics.tunnel_connected
  pub reconnects_kept : m'.agent.metrics.tunnel_reconnects ≡ m.agent.metrics.tunnel_reconnects
  pub dialed_kept : m'.dialed ≡ m.dialed
  pub started_kept : m'.started ≡ m.started
  pub shown_kept :
      m.agent.machine.on_change ≡ true
      → Shows m.agent.metrics m.agent.machine.state
      → Shows m'.agent.metrics m'.agent.machine.state

pub Shows-kept :
    (a b : Agent)
    → b.machine ≡ a.machine
    → b.metrics.agent_state ≡ a.metrics.agent_state
    → Shows a.metrics a.machine.state
    → Shows b.metrics b.machine.state
Shows-kept a b machine gauges h s =
    ap (lookup (name s)) gauges
    ∙ h s
    ∙ ap (λ x. some (if name s == name x.state then 1 else 0)) (sym machine)

-- A turn that leaves the machine, the two gauges and the tunnel's fields alone.
kept :
    (m m' : Manager)
    → m'.agent.machine ≡ m.agent.machine
    → m'.agent.metrics.agent_state ≡ m.agent.metrics.agent_state
    → m'.agent.metrics.tunnel_connected ≡ m.agent.metrics.tunnel_connected
    → m'.agent.metrics.tunnel_reconnects ≡ m.agent.metrics.tunnel_reconnects
    → (m'.connected ≡ m.connected) × (m'.dialed ≡ m.dialed) × (m'.started ≡ m.started)
    → BeatEffect m m'
kept m m' machine gauges gauge count (flag, dialed, started) = record {
  callback_kept = ap (λ x. x.on_change) machine;
  state_kept = inl (ap (λ x. x.state) machine);
  flag_kept = flag;
  gauge_kept = gauge;
  reconnects_kept = count;
  dialed_kept = dialed;
  started_kept = started;
  shown_kept = λ _ h. Shows-kept m.agent m'.agent machine gauges h;
}

pub beat-BeatEffect :
    (api : Client) (id : String) (kube : Clientset) (now : ℕ) (b : Beat) (m : Manager)
    → BeatEffect m (beat api id kube now b m).1
unfolding beat
beat-BeatEffect api id kube now resting m = kept m _ refl refl refl refl (refl, refl, refl)
beat-BeatEffect api id kube now (measured h) m = kept m _ refl refl refl refl (refl, refl, refl)
beat-BeatEffect api id kube now (posting p) m = kept m _ refl refl refl refl (refl, refl, refl)
beat-BeatEffect api id kube now delivered m = kept m _ refl refl refl refl (refl, refl, refl)
beat-BeatEffect api id kube now lost m = kept m _ refl refl refl refl (refl, refl, refl)
beat-BeatEffect api id kube now unhealthy m = kept m _ refl refl refl refl (refl, refl, refl)
beat-BeatEffect api id kube now degrading m =
    let text : String = "kubernetes health collection failed" in
    let same = counters-move m.agent degraded text now in
    record {
      callback_kept = callback-move m.agent degraded text now;
      state_kept = state-move m.agent degraded text now;
      flag_kept = refl;
      gauge_kept = ap (λ c. c.tunnel_connected) same;
      reconnects_kept = ap (λ c. c.tunnel_reconnects) same;
      dialed_kept = refl;
      started_kept = refl;
      shown_kept = Shows-move m.agent degraded text now;
    }

effect-IsSound : (x : Stage) (m m' : Manager) → BeatEffect m m' → IsSound x m → IsSound x m'
effect-IsSound x m m' e s = record {
  callback = e.callback_kept ∙ s.callback;
  state_fits = elim e.state_kept [
    | inl same ↦ ap (may_be x) same ∙ s.state_fits
    | inr (there, edge) ↦
        ap (may_be x) there ∙ may_be-degraded x m.agent.machine.state s.state_fits edge
  ];
  flag_fits = ap (may_read x) e.flag_kept ∙ s.flag_fits;
  gauge_fits = e.gauge_kept ∙ s.gauge_fits;
  shown = e.shown_kept s.callback s.shown;
}

pub beat-IsSound :
    (api : Client) (id : String) (kube : Clientset) (now : ℕ) (b : Beat) (x : Stage) (m : Manager)
    → IsSound x m
    → IsSound x (beat api id kube now b m).1
beat-IsSound api id kube now b x m s =
    effect-IsSound x m (beat api id kube now b m).1 (beat-BeatEffect api id kube now b m) s
