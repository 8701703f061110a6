-- ===== src/Process/Revoked.antt =====
-- After a revocation internal/websocket/manager.go makes no further attempt, and `Run` returns.
use hive_agent.Prelude.{ℕ, ◌+◌, ◌-◌, ◌≤◌, ◌≡◌, refl, ap, ◌∙◌, inl, inr, true, arith}
use hive_agent.State.{AgentState, degraded, revoked, name, allowed}
use hive_agent.State.Diagram.{◌⟶◌, allowed-of_⟶}
use hive_agent.Websocket.{Manager}
use hive_agent.Process.{
  Stage, at_head, lowering, counting, unflagging, checking, pausing, returned, Input, context_done,
  tunnel, Process, by_tunnel, by_beat, by_signal, seen, ◌↝*◌, none_yet, then_turn,
}
use hive_agent.Process.Stages.{may_be}
use hive_agent.Process.Sound.{IsSound, beat-BeatEffect, beat-IsSound}
use hive_agent.Process.Tunnel.{tunnel-IsSound}

-- The turns of the tunnel in a sequence.
unfoldable pub tunnel_turns : {p q : Process} → p ↝* q → ℕ
tunnel_turns none_yet = 0
tunnel_turns (then_turn before (by_tunnel now x)) = tunnel_turns before + 1
tunnel_turns (then_turn before (by_beat api id kube now)) = tunnel_turns before
tunnel_turns (then_turn before by_signal) = tunnel_turns before

-- The turns that the tunnel takes to return, once the state is `REVOKED`.
abbrev turns_left : Stage → ℕ
turns_left lowering = 6
turns_left counting = 5
turns_left unflagging = 4
turns_left checking = 3
turns_left pausing = 2
turns_left at_head = 1
turns_left _ = 0

-- What a turn does after a revocation.
record Ending (x y : Stage) (m m' : Manager) : Type 0 where
  still_revoked : m'.agent.machine.state ≡ revoked
  none_dialed : m'.dialed ≡ m.dialed
  none_started : m'.started ≡ m.started
  closer : turns_left y ≤ turns_left x - 1

pub revoked-stays : {s : AgentState} → s ⟶ degraded → s ≡ revoked → ⊥
unfolding allowed
revoked-stays edge h = ground (arith, allowed-of_⟶ edge, h)

ending :
    {x y : Stage} {m m' : Manager}
    → m'.agent.machine.state ≡ revoked
    → (m'.dialed ≡ m.dialed) × (m'.started ≡ m.started) × (turns_left y ≤ turns_left x - 1)
    → Ending x y m m'
ending h (d, s, c) = record { still_revoked = h; none_dialed = d; none_started = s; closer = c }

tunnel-Ending :
    (now : ℕ) (x : Input) (at : Stage) (m : Manager)
    → may_be at m.agent.machine.state ≡ true
    → m.agent.machine.state ≡ revoked
    → Ending at (tunnel now x at m).0 m (tunnel now x at m).1
unfolding tunnel may_be
tunnel-Ending now context_done at_head m fits h = ending h (refl, refl, omega arith)
tunnel-Ending now _ at_head m fits h = rw (ap name h) (ending h (refl, refl, omega arith))
tunnel-Ending now x lowering m fits h = ending h (refl, refl, omega arith)
tunnel-Ending now x counting m fits h = ending h (refl, refl, omega arith)
tunnel-Ending now x unflagging m fits h = ending h (refl, refl, omega arith)
tunnel-Ending now x checking m fits h = rw (ap name h) (ending h (refl, refl, omega arith))
tunnel-Ending now context_done pausing m fits h = ending h (refl, refl, omega arith)
tunnel-Ending now _ pausing m fits h = ending h (refl, refl, omega arith)
tunnel-Ending now x returned m fits h = ending h (refl, refl, omega arith)
tunnel-Ending now x _ m fits h = absurd (ground (arith, fits, h))

-- What a sequence of turns does after a revocation.
record Ended (p q : Process) (r : p ↝* q) : Type 0 where
  sound : IsSound q.stage q.manager
  still_revoked : q.manager.agent.machine.state ≡ revoked
  none_dialed : q.manager.dialed ≡ p.manager.dialed
  none_started : q.manager.started ≡ p.manager.started
  closer : turns_left q.stage ≤ turns_left p.stage - tunnel_turns r

run-Ended :
    {p q : Process} (r : p ↝* q)
    → IsSound p.stage p.manager
    → p.manager.agent.machine.state ≡ revoked
    → Ended p q r
unfolding tunnel_turns
run-Ended none_yet s h = record {
  sound = s;
  still_revoked = h;
  none_dialed = refl;
  none_started = refl;
  closer = omega arith;
}
run-Ended (then_turn {q} before (by_tunnel now x)) s h =
    let e = run-Ended before s h in
    let x' = seen q.ended q.stage x in
    let turn = tunnel-Ending now x' q.stage q.manager e.sound.state_fits e.still_revoked in
    record {
      sound = tunnel-IsSound now x' q.stage q.manager e.sound;
      still_revoked = turn.still_revoked;
      none_dialed = turn.none_dialed ∙ e.none_dialed;
      none_started = turn.none_started ∙ e.none_started;
      closer = omega (arith, e.closer, turn.closer);
    }
run-Ended (then_turn {q} before (by_beat api id kube now)) s h =
    let e = run-Ended before s h in
    let turn = beat-BeatEffect api id kube now q.beat q.manager in
    record {
      sound = beat-IsSound api id kube now q.beat q.stage q.manager e.sound;
      still_revoked = elim turn.state_kept [
        | inl same ↦ same ∙ e.still_revoked
        | inr (_, edge) ↦ absurd (revoked-stays edge e.still_revoked)
      ];
      none_dialed = turn.dialed_kept ∙ e.none_dialed;
      none_started = turn.started_kept ∙ e.none_started;
      closer = e.closer;
    }
run-Ended (then_turn before by_signal) s h =
    let e = run-Ended before s h in
    record {
      sound = e.sound;
      still_revoked = e.still_revoked;
      none_dialed = e.none_dialed;
      none_started = e.none_started;
      closer = e.closer;
    }

turns_left_bound : (x : Stage) → turns_left x ≤ 6
turns_left_bound x = ground arith

returned_of :
    (x : Stage) (m : Manager)
    → IsSound x m
    → m.agent.machine.state ≡ revoked
    → turns_left x ≤ 0
    → x ≡ returned
unfolding may_be
returned_of x m s h left = ground (arith, s.state_fits, h, left)

-- Once the agent is revoked it stays so, and whatever the heartbeat does meanwhile, the tunnel dials
-- no more and starts no command.
pub revoked_silent :
    {p q : Process}
    → IsSound p.stage p.manager
    → p.manager.agent.machine.state ≡ revoked
    → p ↝* q
    → (q.manager.agent.machine.state ≡ revoked)
      × (q.manager.dialed ≡ p.manager.dialed)
      × (q.manager.started ≡ p.manager.started)
revoked_silent s h r = let e = run-Ended r s h in (e.still_revoked, e.none_dialed, e.none_started)

-- Once the agent is revoked, `Run` of the tunnel has returned after at most six turns of its
-- goroutine, in whatever order the heartbeat's turns come between them.
pub revoked_returns :
    {p q : Process}
    → IsSound p.stage p.manager
    → p.manager.agent.machine.state ≡ revoked
    → (r : p ↝* q) → 6 ≤ tunnel_turns r
    → q.stage ≡ returned
revoked_returns {p} {q} s h r enough =
    let e = run-Ended r s h in
    returned_of q.stage q.manager e.sound e.still_revoked
      (omega (arith, e.closer, turns_left_bound p.stage, enough))
