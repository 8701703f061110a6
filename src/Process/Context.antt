-- ===== src/Process/Context.antt =====
-- What the context does to the tunnel of internal/websocket/manager.go: why `Run` returns, and that it
-- returns once the context is done.
use hive_agent.Prelude.{
  ℕ, ◌-◌, ◌≤◌, ◌≡◌, subst, refl, sym, ap, ◌∙◌, inl, inr, true, false, arith, Bool-cases,
  if◌then◌else◌,
}
use hive_agent.State.{revoked}
use hive_agent.State.Diagram.{name_inj}
use hive_agent.Websocket.{Manager}
use hive_agent.Process.{
  Stage, at_head, entering, dialing, storing, announcing, raising, reading, revoking, lowering,
  counting, unflagging, checking, leaving, pausing, returned, Input, nothing, context_done,
  connection, message, tunnel, seen, Process, by_tunnel, by_beat, by_signal, ◌↝*◌, none_yet,
  then_turn, launch, is_revoked,
}
use hive_agent.Process.Sound.{beat-BeatEffect}
use hive_agent.Process.Degraded.{before_dial, receive-kept}
use hive_agent.Process.Revoked.{tunnel_turns, revoked-stays}

head_reason :
    (m : Manager)
    → (if is_revoked m then returned else entering) ≡ returned
    → m.agent.machine.state ≡ revoked
head_reason m e = elim (Bool-cases (is_revoked m)) [
  | inl gone ↦ name_inj m.agent.machine.state revoked gone
  | inr here ↦ absurd (cc (sym e ∙ ap (λ x. if x then returned else entering) here))
]

-- While the context is not done, only the head of the loop returns.
tunnel_reason :
    (now : ℕ) (x : Input) (at : Stage) (m : Manager)
    → (at ≡ returned → m.agent.machine.state ≡ revoked)
    → (tunnel now (seen false at x) at m).0 ≡ returned
    → (tunnel now (seen false at x) at m).1.agent.machine.state ≡ revoked
unfolding tunnel
tunnel_reason now nothing at_head m h e = head_reason m e
tunnel_reason now context_done at_head m h e = head_reason m e
tunnel_reason now connection at_head m h e = head_reason m e
tunnel_reason now (message f) at_head m h e = head_reason m e
tunnel_reason now connection dialing m h e = absurd (cc e)
tunnel_reason now nothing dialing m h e = absurd (cc e)
tunnel_reason now context_done dialing m h e = absurd (cc e)
tunnel_reason now (message f) dialing m h e = absurd (cc e)
tunnel_reason now (message f) reading m h e = elim (receive-kept f m).2 [
  | inl stays ↦ absurd (cc (e, stays))
  | inr ends ↦ absurd (cc (e, ends))
]
tunnel_reason now nothing reading m h e = absurd (cc e)
tunnel_reason now context_done reading m h e = absurd (cc e)
tunnel_reason now connection reading m h e = absurd (cc e)
tunnel_reason now x checking m h e = elim (Bool-cases (is_revoked m)) [
  | inl gone ↦ name_inj m.agent.machine.state revoked gone
  | inr here ↦ absurd (cc (sym e ∙ ap (λ x. if x then pausing else leaving) here))
]
tunnel_reason now nothing pausing m h e = absurd (cc e)
tunnel_reason now context_done pausing m h e = absurd (cc e)
tunnel_reason now connection pausing m h e = absurd (cc e)
tunnel_reason now (message f) pausing m h e = absurd (cc e)
tunnel_reason now x returned m h e = h refl
tunnel_reason now x _ m h e = absurd (cc e)

reason_kept :
    {p q : Process}
    → p ↝* q
    → (p.stage ≡ returned → p.manager.agent.machine.state ≡ revoked)
    → q.ended ≡ false
    → q.stage ≡ returned
    → q.manager.agent.machine.state ≡ revoked
reason_kept none_yet h going gone = h gone
reason_kept (then_turn {q} before (by_tunnel now x)) h going gone =
    subst
      (λ e.
        (tunnel now (seen e q.stage x) q.stage q.manager).0 ≡ returned
        → (tunnel now (seen e q.stage x) q.stage q.manager).1.agent.machine.state ≡ revoked)
      (sym going) (tunnel_reason now x q.stage q.manager (reason_kept before h going)) gone
reason_kept (then_turn {q} before (by_beat api id kube now)) h going gone =
    let there = reason_kept before h going gone in
    elim (beat-BeatEffect api id kube now q.beat q.manager).state_kept [
      | inl same ↦ same ∙ there
      | inr (_, edge) ↦ absurd (revoked-stays edge there)
    ]
reason_kept (then_turn before by_signal) h going gone = absurd (cc going)

-- In every state that the tunnel and the heartbeat reach, `Run` of the tunnel has returned only if
-- the context is done or the agent is revoked.
pub reached_reason :
    (m : Manager) (p : Process)
    → launch m ↝* p
    → p.ended ≡ false
    → p.stage ≡ returned
    → p.manager.agent.machine.state ≡ revoked
reached_reason m p r going gone = reason_kept r (λ e. absurd (cc e)) going gone

-- Once the context is done, the turns that are left to the return.
unfoldable turns_due : Stage → ℕ
turns_due entering = 9
turns_due dialing = 8
turns_due revoking = 8
turns_due lowering = 7
turns_due counting = 6
turns_due unflagging = 5
turns_due checking = 4
turns_due leaving = 3
turns_due pausing = 2
turns_due at_head = 1
turns_due _ = 0

turns_due_bound : (x : Stage) → turns_due x ≤ 9
unfolding turns_due
turns_due_bound x = ground arith

-- The next dial is still to come, and the return is closer.
abbrev IsCloser : Stage → Stage → Type 0
IsCloser x y = (before_dial y ≡ true) × (turns_due y ≤ turns_due x - 1)

tunnel-IsCloser :
    (now : ℕ) (x : Input) (at : Stage) (m : Manager)
    → before_dial at ≡ true
    → IsCloser at (tunnel now (seen true at x) at m).0
unfolding tunnel turns_due
tunnel-IsCloser now x at_head m h = (refl, omega arith)
tunnel-IsCloser now x dialing m h = (refl, omega arith)
tunnel-IsCloser now x checking m h = elim (Bool-cases (is_revoked m)) [
  | inl e ↦ rw e (refl, omega arith)
  | inr e ↦ rw e (refl, omega arith)
]
tunnel-IsCloser now nothing pausing m h = (refl, omega arith)
tunnel-IsCloser now context_done pausing m h = (refl, omega arith)
tunnel-IsCloser now connection pausing m h = (refl, omega arith)
tunnel-IsCloser now (message f) pausing m h = (refl, omega arith)
tunnel-IsCloser now x storing m h = absurd (cc h)
tunnel-IsCloser now x announcing m h = absurd (cc h)
tunnel-IsCloser now x raising m h = absurd (cc h)
tunnel-IsCloser now x reading m h = absurd (cc h)
tunnel-IsCloser now x _ m h = (refl, omega arith)

run-IsCloser :
    {p q : Process} (r : p ↝* q)
    → p.ended ≡ true
    → before_dial p.stage ≡ true
    → (q.ended ≡ true)
      × (before_dial q.stage ≡ true)
      × (turns_due q.stage ≤ turns_due p.stage - tunnel_turns r)
unfolding tunnel_turns
run-IsCloser none_yet done h = (done, h, omega arith)
run-IsCloser (then_turn {q} before (by_tunnel now x)) done h =
    let (still, there, left) = run-IsCloser before done h in
    let (b, c) =
      subst (λ e. IsCloser q.stage (tunnel now (seen e q.stage x) q.stage q.manager).0) (sym still)
        (tunnel-IsCloser now x q.stage q.manager there) in
    (still, b, omega (arith, left, c))
run-IsCloser (then_turn before (by_beat api id kube now)) done h = run-IsCloser before done h
run-IsCloser (then_turn before by_signal) done h =
    let (_, there, left) = run-IsCloser before done h in (refl, there, left)

due_returned : (x : Stage) → before_dial x ≡ true → turns_due x ≤ 0 → x ≡ returned
unfolding turns_due
due_returned x h left = ground arith

-- Only the loop that reads starts commands.
tunnel-started :
    (now : ℕ) (x : Input) (at : Stage) (m : Manager)
    → before_dial at ≡ true
    → (tunnel now x at m).1.started ≡ m.started
unfolding tunnel
tunnel-started now x reading m h = absurd (cc h)
tunnel-started now context_done at_head m h = refl
tunnel-started now _ at_head m h = refl
tunnel-started now connection dialing m h = refl
tunnel-started now _ dialing m h = refl
tunnel-started now context_done pausing m h = refl
tunnel-started now _ pausing m h = refl
tunnel-started now x _ m h = refl

run-started :
    {p q : Process}
    → p ↝* q
    → p.ended ≡ true
    → before_dial p.stage ≡ true
    → q.manager.started ≡ p.manager.started
run-started none_yet done h = refl
run-started (then_turn {q} before (by_tunnel now x)) done h =
    let (_, there, _) = run-IsCloser before done h in
    tunnel-started now (seen q.ended q.stage x) q.stage q.manager there ∙ run-started before done h
run-started (then_turn {q} before (by_beat api id kube now)) done h =
    (beat-BeatEffect api id kube now q.beat q.manager).started_kept ∙ run-started before done h
run-started (then_turn before by_signal) done h = run-started before done h

-- Once the context is done while the tunnel's goroutine stands outside the stretch from a successful
-- dial to the end of the loop that reads, it does not come into that stretch again and starts no
-- command, in whatever order the turns of the tunnel and the heartbeat come.
pub ended_closed :
    (p q : Process)
    → p.ended ≡ true
    → before_dial p.stage ≡ true
    → p ↝* q
    → (before_dial q.stage ≡ true) × (q.manager.started ≡ p.manager.started)
ended_closed p q done closed later =
    let (_, there, _) = run-IsCloser later done closed in (there, run-started later done closed)

-- Once the context is done while the tunnel's goroutine stands outside the stretch from a successful
-- dial to the end of the loop that reads, `Run` of the tunnel has returned after at most nine turns
-- of its goroutine, in whatever order the heartbeat's turns come between them.
pub ended_returns :
    (p q : Process)
    → p.ended ≡ true
    → before_dial p.stage ≡ true
    → (later : p ↝* q) → 9 ≤ tunnel_turns later
    → q.stage ≡ returned
ended_returns p q done closed later enough =
    let (_, there, left) = run-IsCloser later done closed in
    due_returned q.stage there (omega (arith, left, turns_due_bound p.stage, enough))
