-- ===== src/Process/Ready.antt =====
-- The tunnel of internal/websocket/manager.go gets ready again from wherever it stands.
use hive_agent.Prelude.{sym, false, ◌≡◌, ◌≢◌, refl, inl, inr, Bool-cases, subst, if◌then◌else◌}
use hive_agent.Kube.Api.{Clientset}
use hive_agent.State.{online, offline, revoked}
use hive_agent.State.Diagram.{name_inj}
use hive_agent.Agent.Moves.{state-move_edge}
use hive_agent.Config.{Config}
use hive_agent.Websocket.{Manager}
use hive_agent.Boot.{World, running, boot, health_server}
use hive_agent.Process.{
  Stage, at_head, entering, dialing, storing, announcing, raising, reading, revoking, lowering,
  counting, unflagging, checking, leaving, pausing, returned, Beat, Input, nothing, connection,
  tunnel, tunnel_turn, Process, ◌↝◌, by_tunnel, ◌↝*◌, none_yet, then_turn, launch, is_revoked,
}
use hive_agent.Process.Stages.{may_be, may_read, gauge_of, opening-edge, leaving-edge}
use hive_agent.Process.Sound.{IsSound}
use hive_agent.Process.Tunnel.{tunnel-IsSound}
use hive_agent.Process.Context.{reached_reason}
use hive_agent.Process.Reached.{reached-IsSound}

-- Some turns lead to an open tunnel: the state is `ONLINE`, the gauge reads 1, the probe answers
-- 200, and the loop reads.
pub record CanServe (p : Process) : Type 0 where
  pub later : Process
  pub turns : p ↝* later
  pub reads : later.stage ≡ reading
  pub is_online : later.manager.agent.machine.state ≡ online
  pub gauge : later.manager.agent.metrics.tunnel_connected ≡ 1
  pub ready : (health_server later.manager.connected "/readyz").status ≡ 200

unfoldable pub after : {p q r : Process} → p ↝ q → q ↝* r → p ↝* r
after x none_yet = then_turn none_yet x
after x (then_turn before y) = then_turn (after x before) y

-- One turn of the tunnel first.
ahead : (x : Input) (p : Process) → CanServe (tunnel_turn 0 x p) → CanServe p
ahead x p s = record {
  later = s.later;
  turns = after (by_tunnel 0 x) s.turns;
  reads = s.reads;
  is_online = s.is_online;
  gauge = s.gauge;
  ready = s.ready;
}

module _ (b : Beat) where
  abbrev at : Stage → Manager → Process
  at stage m = record { ended = false; manager = m; stage = stage; beat = b }

  from_reading :
      (m : Manager) → IsSound reading m → m.agent.machine.state ≡ online → CanServe (at reading m)
  unfolding may_read gauge_of health_server
  from_reading m s e = record {
    later = at reading m;
    turns = none_yet;
    reads = refl;
    is_online = e;
    gauge = s.gauge_fits;
    ready = rw s.flag_fits refl;
  }

  from_raising :
      (m : Manager) → IsSound raising m → m.agent.machine.state ≡ online → CanServe (at raising m)
  unfolding tunnel
  from_raising m s e =
      ahead nothing (at raising m) (from_reading _ (tunnel-IsSound 0 nothing raising m s) e)

  from_announcing : (m : Manager) → IsSound announcing m → CanServe (at announcing m)
  unfolding tunnel may_be
  from_announcing m s = ahead nothing (at announcing m) (
      from_raising _ (tunnel-IsSound 0 nothing announcing m s)
        (state-move_edge m.agent online "websocket connected" 0 (opening-edge _ s.state_fits)))

  from_storing : (m : Manager) → IsSound storing m → CanServe (at storing m)
  unfolding tunnel
  from_storing m s =
      ahead nothing (at storing m) (from_announcing _ (tunnel-IsSound 0 nothing storing m s))

  from_dialing : (m : Manager) → IsSound dialing m → CanServe (at dialing m)
  unfolding tunnel
  from_dialing m s =
      ahead connection (at dialing m) (from_storing _ (tunnel-IsSound 0 connection dialing m s))

  from_entering : (m : Manager) → IsSound entering m → CanServe (at entering m)
  unfolding tunnel
  from_entering m s =
      ahead nothing (at entering m) (from_dialing _ (tunnel-IsSound 0 nothing entering m s))

  from_head :
      (m : Manager) → IsSound at_head m → m.agent.machine.state ≢ revoked → CanServe (at at_head m)
  unfolding tunnel
  from_head m s alive = elim (Bool-cases (is_revoked m)) [
    | inl e ↦ absurd (alive (name_inj m.agent.machine.state revoked e))
    | inr e ↦
        let s' : IsSound entering m =
          subst (λ x. IsSound (if x then returned else entering) m) e
            (tunnel-IsSound 0 nothing at_head m s) in
        ahead nothing (at at_head m) (rw e (from_entering m s'))
  ]

  from_pausing :
      (m : Manager) → IsSound pausing m → m.agent.machine.state ≢ revoked → CanServe (at pausing m)
  unfolding tunnel
  from_pausing m s alive =
      ahead nothing (at pausing m) (from_head m (tunnel-IsSound 0 nothing pausing m s) alive)

  from_leaving : (m : Manager) → IsSound leaving m → CanServe (at leaving m)
  unfolding tunnel may_be
  from_leaving m s = ahead nothing (at leaving m) (
      from_pausing _ (tunnel-IsSound 0 nothing leaving m s) (λ e. absurd (
        cc (
          e,
          state-move_edge m.agent offline "websocket disconnected" 0 (leaving-edge _ s.state_fits),
        ))))

  from_checking :
      (m : Manager)
      → IsSound checking m
      → m.agent.machine.state ≢ revoked
      → CanServe (at checking m)
  unfolding tunnel
  from_checking m s alive = elim (Bool-cases (is_revoked m)) [
    | inl e ↦ absurd (alive (name_inj m.agent.machine.state revoked e))
    | inr e ↦
        let s' : IsSound leaving m =
          subst (λ x. IsSound (if x then pausing else leaving) m) e
            (tunnel-IsSound 0 nothing checking m s) in
        ahead nothing (at checking m) (rw e (from_leaving m s'))
  ]

  from_unflagging :
      (m : Manager)
      → IsSound unflagging m
      → m.agent.machine.state ≢ revoked
      → CanServe (at unflagging m)
  unfolding tunnel
  from_unflagging m s alive =
      ahead nothing (at unflagging m)
        (from_checking _ (tunnel-IsSound 0 nothing unflagging m s) alive)

  from_counting :
      (m : Manager)
      → IsSound counting m
      → m.agent.machine.state ≢ revoked
      → CanServe (at counting m)
  unfolding tunnel
  from_counting m s alive =
      ahead nothing (at counting m)
        (from_unflagging _ (tunnel-IsSound 0 nothing counting m s) alive)

  from_lowering :
      (m : Manager)
      → IsSound lowering m
      → m.agent.machine.state ≢ revoked
      → CanServe (at lowering m)
  unfolding tunnel
  from_lowering m s alive =
      ahead nothing (at lowering m) (from_counting _ (tunnel-IsSound 0 nothing lowering m s) alive)

  -- An open tunnel on a degraded agent fails to read, and the next attempt opens another.
  from_degraded :
      (m : Manager) → IsSound reading m → m.agent.machine.state ≢ revoked → CanServe (at reading m)
  unfolding tunnel
  from_degraded m s alive =
      ahead nothing (at reading m) (from_lowering _ (tunnel-IsSound 0 nothing reading m s) alive)

  from_raised :
      (m : Manager) → IsSound raising m → m.agent.machine.state ≢ revoked → CanServe (at raising m)
  unfolding tunnel
  from_raised m s alive =
      ahead nothing (at raising m) (from_degraded _ (tunnel-IsSound 0 nothing raising m s) alive)

  from_anywhere :
      (x : Stage) (m : Manager)
      → IsSound x m
      → m.agent.machine.state ≢ revoked
      → x ≢ revoking
      → x ≢ returned
      → CanServe (at x m)
  from_anywhere at_head m s alive a b = from_head m s alive
  from_anywhere entering m s alive a b = from_entering m s
  from_anywhere dialing m s alive a b = from_dialing m s
  from_anywhere storing m s alive a b = from_storing m s
  from_anywhere announcing m s alive a b = from_announcing m s
  from_anywhere raising m s alive a b = from_raised m s alive
  from_anywhere reading m s alive a b = from_degraded m s alive
  from_anywhere revoking m s alive a b = absurd (a refl)
  from_anywhere lowering m s alive a b = from_lowering m s alive
  from_anywhere counting m s alive a b = from_counting m s alive
  from_anywhere unflagging m s alive a b = from_unflagging m s alive
  from_anywhere checking m s alive a b = from_checking m s alive
  from_anywhere leaving m s alive a b = from_leaving m s
  from_anywhere pausing m s alive a b = from_pausing m s alive
  from_anywhere returned m s alive a b = absurd (b refl)

-- From every state reached from a boot in which the context is not done, the agent is not revoked,
-- and no revoke message has just been read, some turns lead to an open tunnel that is reported as
-- such in the state, in the gauge and by the readiness probe.
pub reached-CanServe :
    (w : World) (cfg : Config) (kube : Clientset) (m : Manager) (p : Process)
    → boot w ≡ running cfg kube m
    → launch m ↝* p
    → p.ended ≡ false
    → p.manager.agent.machine.state ≢ revoked
    → p.stage ≢ revoking
    → CanServe p
reached-CanServe w cfg kube m p h r going alive a =
    subst
      (λ e. CanServe (record { ended = e; manager = p.manager; stage = p.stage; beat = p.beat }))
      (sym going)
      (from_anywhere p.beat p.stage p.manager (reached-IsSound w cfg kube m p h r) alive a
        (λ gone. alive (reached_reason m p r going gone)))
