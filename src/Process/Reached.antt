-- ===== src/Process/Reached.antt =====
-- Every state that the two goroutines reach after a boot of cmd/agent/main.go, in whatever order
-- their turns come.
use hive_agent.Prelude.{ℕ, ◌≡◌, refl, sym, ap, ◌∙◌, inr, true, none, some, ◌≤◌, String}
use hive_agent.Kube.Api.{Clientset}
use hive_agent.State.{AgentState, connecting, online, offline, revoked, transition}
use hive_agent.State.Diagram.{◌⟶◌, transition-accepts_iff}
use hive_agent.Agent.Moves.{state-move_edge}
use hive_agent.Config.{Config}
use hive_agent.Websocket.{Manager}
use hive_agent.Boot.{World, running, boot, health_server}
use hive_agent.Boot.Started.{boot-IsStarted}
use hive_agent.Process.{
  Stage, at_head, entering, announcing, revoking, leaving, returned, Process, by_tunnel, by_beat,
  by_signal, seen, ◌↝*◌, none_yet, then_turn, launch, tunnel, move_to, tunnel_turn, Input,
}
use hive_agent.Process.Stages.{
  may_be, may_read, gauge_of, apart, asked-edge, asked, gauge_up, apart_down,
}
use hive_agent.Process.Sound.{IsSound, beat-IsSound}
use hive_agent.Process.Tunnel.{tunnel-IsSound}
use hive_agent.Process.Revoked.{revoked_silent, revoked_returns, tunnel_turns}

launch-IsSound :
    (w : World) (cfg : Config) (kube : Clientset) (m : Manager)
    → boot w ≡ running cfg kube m
    → IsSound at_head m
unfolding may_be may_read gauge_of
launch-IsSound w cfg kube m h =
    let s = boot-IsStarted w cfg kube m h in
    record {
      callback = s.callback;
      state_fits = ap (may_be at_head) s.is_registered;
      flag_fits = ap (may_read at_head) s.tunnel_closed.0;
      gauge_fits = s.tunnel_closed.1;
      shown = rw s.is_registered s.metrics_show;
    }

pub run-IsSound : {p q : Process} → p ↝* q → IsSound p.stage p.manager → IsSound q.stage q.manager
run-IsSound none_yet s = s
run-IsSound (then_turn {q} before (by_tunnel now x)) s =
    tunnel-IsSound now (seen q.ended q.stage x) q.stage q.manager (run-IsSound before s)
run-IsSound (then_turn {q} before (by_beat api id kube now)) s =
    beat-IsSound api id kube now q.beat q.stage q.manager (run-IsSound before s)
run-IsSound (then_turn before by_signal) s = run-IsSound before s

moved-asked :
    (m : Manager) (a next : AgentState) (reason : String) (now : ℕ)
    → some a ≡ some next
    → m.agent.machine.state ⟶ next
    → (move_to a reason now m).agent.machine.state ≡ next
moved-asked m a next reason now asks edge =
    let e : a ≡ next = cc asks in rw e (state-move_edge m.agent next reason now edge)

-- A turn that asks for the end of an edge gets there.
asked-tunnel :
    (now : ℕ) (x : Input) (at : Stage) (m : Manager) (next : AgentState)
    → asked at ≡ some next
    → m.agent.machine.state ⟶ next
    → (tunnel now x at m).1.agent.machine.state ≡ next
unfolding tunnel asked
asked-tunnel now x entering m next asks edge = moved-asked m connecting next _ now asks edge
asked-tunnel now x announcing m next asks edge = moved-asked m online next _ now asks edge
asked-tunnel now x revoking m next asks edge = moved-asked m revoked next _ now asks edge
asked-tunnel now x leaving m next asks edge = moved-asked m offline next _ now asks edge
asked-tunnel now x _ m next asks edge = absurd (cc asks)

module _ (w : World) (cfg : Config) (kube : Clientset) (m : Manager) (p : Process)
    (h : boot w ≡ running cfg kube m) (r : launch m ↝* p) where
  -- In every state that the tunnel and the heartbeat reach from a boot, the machine's state, the
  -- flag `connected` and the tunnel's gauge are those that the place of the tunnel's goroutine
  -- allows, and the gauges of the states show the machine's state.
  pub reached-IsSound : IsSound p.stage p.manager
  reached-IsSound = run-IsSound r (launch-IsSound w cfg kube m h)

  -- In every state reached from a boot: while the tunnel's gauge reads 1 the readiness probe answers
  -- 200; and when the state is `REGISTERED` or `OFFLINE`, the gauge reads 0 and the probe answers
  -- 503.
  pub reached_ready :
      (p.manager.agent.metrics.tunnel_connected ≡ 1
        → (health_server p.manager.connected "/readyz").status ≡ 200)
      × (apart p.manager.agent.machine.state ≡ true
          → (p.manager.agent.metrics.tunnel_connected ≡ 0)
            × ((health_server p.manager.connected "/readyz").status ≡ 503))
  unfolding health_server may_be may_read gauge_of
  reached_ready =
      let s = reached-IsSound in
      (
        λ e. rw (gauge_up p.stage p.manager.connected s.flag_fits (sym s.gauge_fits ∙ e)) refl,
        λ e.
            let (gauge, flag) =
              apart_down p.stage p.manager.agent.machine.state p.manager.connected s.state_fits
                s.flag_fits e in
            (s.gauge_fits ∙ gauge, rw flag refl),
      )

  -- In every state reached from a boot, if the tunnel is about to call `Transition`, then the call
  -- does not fail, and after the turn the machine is in the state that it asked for. So no error is
  -- lost where the tunnel drops it.
  pub reached_accepted :
      (next : AgentState)
      → asked p.stage ≡ some next
      → ((reason : String) (now : ℕ)
          → (transition p.manager.agent.machine next reason now).error ≡ none)
        × ((now : ℕ) (x : Input) → (tunnel_turn now x p).manager.agent.machine.state ≡ next)
  reached_accepted next asks =
      let edge = asked-edge p.stage _ next reached-IsSound.state_fits asks in
      (
        λ reason now.
            (transition-accepts_iff p.manager.agent.machine next reason now).0.1 (inr edge),
        λ now x. asked-tunnel now (seen p.ended p.stage x) p.stage p.manager next asks edge,
      )

  -- From a state reached from a boot in which the agent is revoked, it stays revoked, and whatever the
  -- heartbeat does, the tunnel dials no more and starts no command.
  pub reached_silent :
      (q : Process)
      → p.manager.agent.machine.state ≡ revoked
      → p ↝* q
      → (q.manager.agent.machine.state ≡ revoked)
        × (q.manager.dialed ≡ p.manager.dialed)
        × (q.manager.started ≡ p.manager.started)
  reached_silent q gone later = revoked_silent reached-IsSound gone later

  -- From a state reached from a boot in which the agent is revoked, `Run` of the tunnel has returned
  -- after at most six turns of its goroutine, however the heartbeat's turns come between them.
  pub reached_returns :
      (q : Process)
      → p.manager.agent.machine.state ≡ revoked
      → (later : p ↝* q) → 6 ≤ tunnel_turns later
      → q.stage ≡ returned
  reached_returns q gone later enough = revoked_returns reached-IsSound gone later enough
