-- ===== src/Process/Tunnel.antt =====
-- The tunnel's turns keep the invariant, and the moves that the tunnel asks for follow the diagram.
use hive_agent.Prelude.{
  ℕ, String, ◌≡◌, refl, ap, ◌∙◌, ◌⊎◌, inl, inr, true, arith, Bool-cases, some, none, if◌then◌else◌,
}
use hive_agent.State.{AgentState, connecting, online, offline, revoked}
use hive_agent.State.Diagram.{◌⟶◌, name_inj}
use hive_agent.Agent.Moves.{counters-move, state-move_edge, callback-move, Shows-move}
use hive_agent.Websocket.{Manager, Frame, command, credential_rotation, revoke, other_type, rotate}
use hive_agent.Registration.Payload.{CredentialRotation}
use hive_agent.Process.{
  Stage, at_head, entering, dialing, storing, announcing, raising, reading, revoking, lowering,
  counting, unflagging, checking, leaving, pausing, returned, Input, context_done, connection,
  message, tunnel, receive, move_to, is_revoked, try_dial,
}
use hive_agent.Process.Stages.{
  may_be, may_read, gauge_of, apart-edge, opening-edge, up-edge, leaving-edge, still_apart,
  still_leaving, lowering_counts,
}
use hive_agent.Process.Sound.{IsSound, Shows-kept}

-- A move along an edge.
moved-IsSound :
    (x y : Stage) (next : AgentState) (reason : String) (now : ℕ) (m : Manager)
    → IsSound x m
    → m.agent.machine.state ⟶ next
    → may_be y next ≡ true
    → may_read y m.connected ≡ true
    → gauge_of x ≡ gauge_of y
    → IsSound y (move_to next reason now m)
moved-IsSound x y next reason now m s edge fits flag gauge = record {
  callback = callback-move m.agent next reason now ∙ s.callback;
  state_fits = ap (may_be y) (state-move_edge m.agent next reason now edge) ∙ fits;
  flag_fits = flag;
  gauge_fits =
      ap (λ c. c.tunnel_connected) (counters-move m.agent next reason now) ∙ s.gauge_fits ∙ gauge;
  shown = Shows-move m.agent next reason now s.callback s.shown;
}

-- A turn that leaves the machine and the state's gauges alone.
kept-IsSound :
    (x y : Stage) (m m' : Manager)
    → IsSound x m
    → m'.agent.machine ≡ m.agent.machine
    → m'.agent.metrics.agent_state ≡ m.agent.metrics.agent_state
    → may_be y m.agent.machine.state ≡ true
    → may_read y m'.connected ≡ true
    → m'.agent.metrics.tunnel_connected ≡ gauge_of y
    → IsSound y m'
kept-IsSound x y m m' s machine gauges fits flag gauge = record {
  callback = ap (λ k. k.on_change) machine ∙ s.callback;
  state_fits = ap (λ k. may_be y k.state) machine ∙ fits;
  flag_fits = flag;
  gauge_fits = gauge;
  shown = Shows-kept m.agent m'.agent machine gauges s.shown;
}

pub rotate-kept :
    (rotation : CredentialRotation) (m : Manager)
    → ((rotate rotation m).agent.machine ≡ m.agent.machine)
      × ((rotate rotation m).agent.metrics.agent_state ≡ m.agent.metrics.agent_state)
      × ((rotate rotation m).connected ≡ m.connected)
      × ((rotate rotation m).agent.metrics.tunnel_connected ≡ m.agent.metrics.tunnel_connected)
unfolding rotate
rotate-kept rotation m = ground arith

receive-IsSound :
    (f : Frame) (m : Manager) → IsSound reading m → IsSound (receive f m).0 (receive f m).1
unfolding receive rotate may_be may_read gauge_of
receive-IsSound (command (some cmd)) m s =
    kept-IsSound reading reading m _ s refl refl s.state_fits s.flag_fits s.gauge_fits
receive-IsSound (command none) m s = s
receive-IsSound (credential_rotation (some rotation)) m s =
    let (machine, gauges, flag, gauge) = rotate-kept rotation m in
    kept-IsSound reading reading m (rotate rotation m) s machine gauges s.state_fits
      (flag ∙ s.flag_fits) (gauge ∙ s.gauge_fits)
receive-IsSound (credential_rotation none) m s = s
receive-IsSound revoke m s =
    kept-IsSound reading revoking m m s refl refl s.state_fits s.flag_fits s.gauge_fits
receive-IsSound (other_type kind) m s = s

-- The test of `Run` for a revocation.
head-IsSound :
    (m : Manager) → IsSound at_head m → IsSound (if is_revoked m then returned else entering) m
unfolding may_be may_read gauge_of
head-IsSound m s = elim (Bool-cases (is_revoked m)) [
  | inl e ↦
      rw e (kept-IsSound at_head returned m m s refl refl s.state_fits s.flag_fits s.gauge_fits)
  | inr e ↦ rw e (
      kept-IsSound at_head entering m m s refl refl (still_apart _ s.state_fits e) s.flag_fits
        s.gauge_fits)
]

checking-IsSound :
    (m : Manager) → IsSound checking m → IsSound (if is_revoked m then pausing else leaving) m
unfolding may_be may_read gauge_of
checking-IsSound m s = elim (Bool-cases (is_revoked m)) [
  | inl e ↦ rw e (
      kept-IsSound checking pausing m m s refl refl (ap (may_be pausing) (name_inj _ revoked e))
        s.flag_fits s.gauge_fits)
  | inr e ↦ rw e (
      kept-IsSound checking leaving m m s refl refl (still_leaving _ s.state_fits e) s.flag_fits
        s.gauge_fits)
]

dialing-IsSound :
    (y : Stage) (m : Manager)
    → IsSound dialing m
    → (y ≡ storing) ⊎ (y ≡ counting)
    → IsSound y (try_dial m)
unfolding may_be may_read gauge_of
dialing-IsSound y m s (inl e) =
    rw e (
      kept-IsSound dialing storing m (try_dial m) s refl refl s.state_fits s.flag_fits s.gauge_fits)
dialing-IsSound y m s (inr e) = rw e (
    kept-IsSound dialing counting m (try_dial m) s refl refl (rw s.state_fits refl) refl
      s.gauge_fits)

pub tunnel-IsSound :
    (now : ℕ) (x : Input) (at : Stage) (m : Manager)
    → IsSound at m
    → IsSound (tunnel now x at m).0 (tunnel now x at m).1
unfolding tunnel may_be may_read gauge_of
tunnel-IsSound now context_done at_head m s =
    kept-IsSound at_head returned m m s refl refl s.state_fits s.flag_fits s.gauge_fits
tunnel-IsSound now _ at_head m s = head-IsSound m s
tunnel-IsSound now x entering m s =
    moved-IsSound entering dialing connecting _ now m s (apart-edge _ s.state_fits) refl s.flag_fits
      refl
tunnel-IsSound now connection dialing m s = dialing-IsSound storing m s (inl refl)
tunnel-IsSound now _ dialing m s = dialing-IsSound counting m s (inr refl)
tunnel-IsSound now x storing m s =
    kept-IsSound storing announcing m _ s refl refl s.state_fits refl s.gauge_fits
tunnel-IsSound now x announcing m s =
    moved-IsSound announcing raising online _ now m s (opening-edge _ s.state_fits) refl s.flag_fits
      refl
tunnel-IsSound now x raising m s =
    kept-IsSound raising reading m _ s refl refl s.state_fits s.flag_fits refl
tunnel-IsSound now (message frame) reading m s = receive-IsSound frame m s
tunnel-IsSound now _ reading m s =
    kept-IsSound reading lowering m m s refl refl (rw s.state_fits refl) s.flag_fits s.gauge_fits
tunnel-IsSound now x revoking m s =
    moved-IsSound revoking lowering revoked _ now m s (up-edge _ s.state_fits) refl s.flag_fits refl
tunnel-IsSound now x lowering m s =
    kept-IsSound lowering counting m _ s refl refl (lowering_counts _ s.state_fits) refl refl
tunnel-IsSound now x counting m s =
    kept-IsSound counting unflagging m _ s refl refl s.state_fits refl s.gauge_fits
tunnel-IsSound now x unflagging m s =
    kept-IsSound unflagging checking m _ s refl refl s.state_fits refl s.gauge_fits
tunnel-IsSound now x checking m s = checking-IsSound m s
tunnel-IsSound now x leaving m s =
    moved-IsSound leaving pausing offline _ now m s (leaving-edge _ s.state_fits) refl s.flag_fits
      refl
tunnel-IsSound now context_done pausing m s =
    kept-IsSound pausing returned m m s refl refl s.state_fits s.flag_fits s.gauge_fits
tunnel-IsSound now _ pausing m s =
    kept-IsSound pausing at_head m m s refl refl s.state_fits s.flag_fits s.gauge_fits
tunnel-IsSound now x returned m s = s
