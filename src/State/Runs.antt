-- ===== src/State/Runs.antt =====
-- Sequences of calls of `Transition`: what the callback sees, and the states that are never left or
-- never reached again.
use hive_agent.Prelude.{ℕ, String, ◌≡◌, ◌≢◌, refl, inl, inr, true, List, [], ◌∷◌, ◌++◌, arith}
use hive_agent.State.{
  AgentState, pending_key, registered, connecting, online, degraded, offline, revoked, Machine,
  Snapshot, transition, snapshot,
}
use hive_agent.State.Diagram.{
  ◌⟶◌, register, open_tunnel, connect, recover, reopen_offline, transition-cases,
  transition-accepts_iff,
}

-- One call: the state asked for, the reason and the clock.
abbrev pub Call : Type 0
Call = AgentState × String × ℕ

-- The machine after the calls, and what the callback received.
unfoldable pub run : Machine → List Call → Machine × List Snapshot
run m [] = (m, [])
run m ((next, reason, now) ∷ calls) =
    let out = transition m next reason now in
    let (m', later) = run out.machine calls in (m', out.notified ++ later)

-- From `s` the snapshots follow edges of the table, each to a new state, and end in `t`.
abbrev pub Trail : AgentState → List Snapshot → AgentState → Type 0
Trail s [] t = s ≡ t
Trail s (x ∷ l) t = (s ⟶ x.state) × (s ≢ x.state) × Trail x.state l t

on_change-transition :
    (m : Machine) (next : AgentState) (reason : String) (now : ℕ)
    → (transition m next reason now).machine.on_change ≡ m.on_change
unfolding transition
on_change-transition m next reason now = ground arith

Trail-transition :
    (m : Machine) (next : AgentState) (reason : String) (now : ℕ) (l : List Snapshot)
    (t : AgentState)
    → m.on_change ≡ true
    → Trail (transition m next reason now).machine.state l t
    → Trail m.state ((transition m next reason now).notified ++ l) t
unfolding snapshot
Trail-transition m next reason now l t h seen = elim (transition-cases m next reason now) [
  | inl (same, e) ↦ rw e (rw same (rw e at seen))
  | inr (inl (other, edge, e)) ↦ rw (e, h) (edge, other, rw e at seen)
  | inr (inr (other, no_edge, e)) ↦ rw e (rw e at seen)
]

-- Whatever the calls, the snapshots that the callback receives follow the edges of the table in
-- state.go from the first state to the last, with no snapshot for a call that changes nothing.
pub run-Trail :
    (m : Machine) (calls : List Call)
    → m.on_change ≡ true
    → Trail m.state (run m calls).1 (run m calls).0.state
unfolding run
run-Trail m [] h = refl
run-Trail m ((next, reason, now) ∷ calls) h =
    Trail-transition m next reason now _ _ h
      (run-Trail (transition m next reason now).machine calls (rw on_change-transition h))

transition_revoked :
    (m : Machine) (next : AgentState) (reason : String) (now : ℕ)
    → m.state ≡ revoked
    → ((transition m next reason now).machine.state ≡ revoked)
      × ((transition m next reason now).notified ≡ [])
unfolding transition
transition_revoked m next reason now h = ground arith

-- Revocation is final: from `revoked` no sequence of calls changes the state or calls the callback.
pub revoked_absorbs :
    (m : Machine) (calls : List Call)
    → m.state ≡ revoked
    → ((run m calls).0.state ≡ revoked) × ((run m calls).1 ≡ [])
unfolding run
revoked_absorbs m [] h = (h, refl)
revoked_absorbs m ((next, reason, now) ∷ calls) h = ground (
  arith,
  transition_revoked m next reason now h,
  revoked_absorbs (transition m next reason now).machine calls,
)

transition_past_pending :
    (m : Machine) (next : AgentState) (reason : String) (now : ℕ)
    → m.state ≢ pending_key
    → (transition m next reason now).machine.state ≢ pending_key
unfolding transition
transition_past_pending m next reason now h = ground arith

-- Once left, `pending_key` is never the state again.
pub pending_never_again :
    (m : Machine) (calls : List Call) → m.state ≢ pending_key → (run m calls).0.state ≢ pending_key
unfolding run
pending_never_again m [] h = h
pending_never_again m ((next, reason, now) ∷ calls) h =
    pending_never_again (transition m next reason now).machine calls
      (transition_past_pending m next reason now h)

-- Each state of the list is the end of an edge from the one before it.
abbrev Route : AgentState → List AgentState → AgentState → Type 0
Route s [] t = s ≡ t
Route s (x ∷ l) t = (s ⟶ x) × Route x l t

abbrev calls_for : List AgentState → String → ℕ → List Call
calls_for [] reason now = []
calls_for (s ∷ l) reason now = (s, reason, now) ∷ calls_for l reason now

run-Route :
    (m : Machine) (l : List AgentState) (t : AgentState) (reason : String) (now : ℕ)
    → Route m.state l t
    → (run m (calls_for l reason now)).0.state ≡ t
unfolding run
run-Route m [] t reason now h = h
run-Route m (x ∷ l) t reason now h =
    let acc = transition-accepts_iff m x reason now in
    let e = acc.1 (acc.0.1 (inr h.0)) in
    run-Route (transition m x reason now).machine l t reason now (rw e h.1)

online-Route : (s : AgentState) → s ≢ revoked → (l : List AgentState) × Route s l online
online-Route pending_key h =
    (registered ∷ connecting ∷ online ∷ [], (register, (open_tunnel, (connect, refl))))
online-Route registered h = (connecting ∷ online ∷ [], (open_tunnel, (connect, refl)))
online-Route connecting h = (online ∷ [], (connect, refl))
online-Route online h = ([], refl)
online-Route degraded h = (online ∷ [], (recover, refl))
online-Route offline h = (connecting ∷ online ∷ [], (reopen_offline, (connect, refl)))
online-Route revoked h = absurd (h refl)

-- From every state but `revoked` some calls lead to `online`, with any reasons.
pub online_reachable :
    (m : Machine) (reason : String) (now : ℕ)
    → m.state ≢ revoked
    → (l : List AgentState) × ((run m (calls_for l reason now)).0.state ≡ online)
online_reachable m reason now h =
    let (l, r) = online-Route m.state h in (l, run-Route m l online reason now r)
