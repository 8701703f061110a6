-- ===== src/Process/Degraded.antt =====
-- A state `DEGRADED` under an open tunnel: neither internal/heartbeat/heartbeat.go nor
-- internal/websocket/manager.go leaves it before the tunnel is gone.
use hive_agent.Prelude.{
  ℕ, String, ◌+◌, ◌<◌, ◌≡◌, refl, ap, ◌∙◌, ◌⊎◌, inl, inr, Bool, true, false, some, none, ◌∷◌, [],
  arith, length, length-append, Bool-cases,
}
use hive_agent.Kube.Api.{Clientset}
use hive_agent.Registration.Client.{Client}
use hive_agent.Registration.Payload.{CredentialRotation}
use hive_agent.State.{degraded}
use hive_agent.Websocket.{
  Manager, Frame, command, credential_rotation, revoke, other_type, rotate, handshake_of,
}
use hive_agent.Process.{
  Stage, at_head, dialing, storing, announcing, raising, reading, revoking, checking, pausing,
  Input, context_done, connection, message, tunnel, receive, tunnel_turn, beat_turn, Process,
  by_tunnel, by_beat, by_signal, seen, ◌↝*◌, none_yet, then_turn, is_revoked,
}
use hive_agent.Process.Sound.{beat-BeatEffect}
use hive_agent.Process.Tunnel.{rotate-kept}

abbrev attempts : Manager → ℕ
attempts m = length m.dialed

-- From here the next dial is still to come.
abbrev pub before_dial : Stage → Bool
before_dial storing = false
before_dial announcing = false
before_dial raising = false
before_dial reading = false
before_dial _ = true

rotate-dialed :
    (rotation : CredentialRotation) (m : Manager) → (rotate rotation m).dialed ≡ m.dialed
unfolding rotate
rotate-dialed rotation m = ground arith

pub receive-kept :
    (f : Frame) (m : Manager)
    → ((receive f m).1.agent.machine ≡ m.agent.machine)
      × ((receive f m).1.dialed ≡ m.dialed)
      × (((receive f m).0 ≡ reading) ⊎ ((receive f m).0 ≡ revoking))
unfolding receive
receive-kept (command (some cmd)) m = (refl, refl, inl refl)
receive-kept (command none) m = (refl, refl, inl refl)
receive-kept (credential_rotation (some rotation)) m =
    ((rotate-kept rotation m).0, rotate-dialed rotation m, inl refl)
receive-kept (credential_rotation none) m = (refl, refl, inl refl)
receive-kept revoke m = (refl, refl, inr refl)
receive-kept (other_type kind) m = (refl, refl, inl refl)

-- Each dial is one more, and no other turn dials.
tunnel-attempts :
    (now : ℕ) (x : Input) (at : Stage) (m : Manager)
    → ((at ≡ dialing) × (attempts (tunnel now x at m).1 ≡ attempts m + 1))
      ⊎ ((at ≡ dialing → ⊥) × (attempts (tunnel now x at m).1 ≡ attempts m))
unfolding tunnel
tunnel-attempts now context_done at_head m = inr (λ e. cc e, refl)
tunnel-attempts now _ at_head m = inr (λ e. cc e, refl)
tunnel-attempts now connection dialing m = inl (refl, length-append m.dialed (handshake_of m ∷ []))
tunnel-attempts now _ dialing m = inl (refl, length-append m.dialed (handshake_of m ∷ []))
tunnel-attempts now (message frame) reading m = inr (λ e. cc e, ap length (receive-kept frame m).1)
tunnel-attempts now _ reading m = inr (λ e. cc e, refl)
tunnel-attempts now context_done pausing m = inr (λ e. cc e, refl)
tunnel-attempts now _ pausing m = inr (λ e. cc e, refl)
tunnel-attempts now _ _ m = inr (λ e. cc e, refl)

tunnel-before_dial :
    (now : ℕ) (x : Input) (at : Stage) (m : Manager)
    → before_dial at ≡ true
    → (at ≡ dialing → ⊥)
    → before_dial (tunnel now x at m).0 ≡ true
unfolding tunnel
tunnel-before_dial now context_done at_head m h other = refl
tunnel-before_dial now _ at_head m h other = elim (Bool-cases (is_revoked m)) [
  | inl e ↦ rw e refl
  | inr e ↦ rw e refl
]
tunnel-before_dial now x dialing m h other = absurd (other refl)
tunnel-before_dial now x checking m h other = elim (Bool-cases (is_revoked m)) [
  | inl e ↦ rw e refl
  | inr e ↦ rw e refl
]
tunnel-before_dial now context_done pausing m h other = refl
tunnel-before_dial now _ pausing m h other = refl
tunnel-before_dial now x storing m h other = absurd (cc h)
tunnel-before_dial now x announcing m h other = absurd (cc h)
tunnel-before_dial now x raising m h other = absurd (cc h)
tunnel-before_dial now x reading m h other = absurd (cc h)
tunnel-before_dial now x _ m h other = refl

-- The open tunnel is still the same one, the next dial is to come, or it has been made.
abbrev Since : ℕ → Process → Type 0
Since n q =
    ((q.stage ≡ reading) × (q.manager.agent.machine.state ≡ degraded) × (attempts q.manager ≡ n))
    ⊎ ((before_dial q.stage ≡ true) × (attempts q.manager ≡ n))
    ⊎ (n < attempts q.manager)

-- The loop that reads goes on with the machine as it was, or the tunnel is about to be gone.
tunnel-reading :
    (now : ℕ) (x : Input) (m : Manager)
    → m.agent.machine.state ≡ degraded
    → (((tunnel now x reading m).0 ≡ reading)
        × ((tunnel now x reading m).1.agent.machine.state ≡ degraded)
        × (attempts (tunnel now x reading m).1 ≡ attempts m))
      ⊎ ((before_dial (tunnel now x reading m).0 ≡ true)
          × (attempts (tunnel now x reading m).1 ≡ attempts m))
unfolding tunnel
tunnel-reading now (message f) m low =
    let (machine, dialed, stage) = receive-kept f m in
    elim stage [
      | inl stays ↦ inl (stays, ap (λ k. k.state) machine ∙ low, ap length dialed)
      | inr ends ↦ inr (rw ends refl, ap length dialed)
    ]
tunnel-reading now _ m low = inr (refl, refl)

tunnel-Since : (n now : ℕ) (x : Input) (q : Process) → Since n q → Since n (tunnel_turn now x q)
tunnel-Since n now x q (inl (here, low, same)) =
    elim (tunnel-reading now (seen q.ended reading x) q.manager low) [
      | inl (stays, still_low, kept) ↦ rw here (inl (stays, still_low, kept ∙ same))
      | inr (ends, kept) ↦ rw here (inr (inl (ends, kept ∙ same)))
    ]
tunnel-Since n now x q (inr (inl (before, same))) =
    elim (tunnel-attempts now (seen q.ended q.stage x) q.stage q.manager) [
      | inl (_, more) ↦ inr (inr (omega (arith, more, same)))
      | inr (other, kept) ↦ inr (
          inl (
            tunnel-before_dial now (seen q.ended q.stage x) q.stage q.manager before other,
            kept ∙ same,
          ))
    ]
tunnel-Since n now x q (inr (inr more)) =
    elim (tunnel-attempts now (seen q.ended q.stage x) q.stage q.manager) [
      | inl (_, one) ↦ inr (inr (omega (arith, one, more)))
      | inr (_, kept) ↦ inr (inr (omega (arith, kept, more)))
    ]

beat-Since :
    (n : ℕ) (q : Process) (api : Client) (id : String) (kube : Clientset) (now : ℕ)
    → Since n q
    → Since n (beat_turn api id kube now q)
beat-Since n q api id kube now since =
    let e = beat-BeatEffect api id kube now q.beat q.manager in
    elim since [
      | inl (here, low, same) ↦ inl (
        here,
        elim e.state_kept [ inl kept ↦ kept ∙ low | inr (there, _) ↦ there ],
        ap length e.dialed_kept ∙ same,
      )
      | inr (inl (before, same)) ↦ inr (inl (before, ap length e.dialed_kept ∙ same))
      | inr (inr more) ↦ inr (inr (rw (ap length e.dialed_kept) more))
    ]

run-Since : {p q : Process} (n : ℕ) → p ↝* q → Since n p → Since n q
run-Since n none_yet since = since
run-Since n (then_turn {q} before (by_tunnel now x)) since =
    tunnel-Since n now x q (run-Since n before since)
run-Since n (then_turn {q} before (by_beat api id kube now)) since =
    beat-Since n q api id kube now (run-Since n before since)
run-Since n (then_turn before by_signal) since = run-Since n before since

-- Once the state is `DEGRADED` while the tunnel reads, it stays so for as long as that tunnel reads:
-- in every later state in which the tunnel reads and no further dial has been made, the state is
-- `DEGRADED`, however many rounds of the heartbeat succeed meanwhile.
pub degraded_sticks :
    (p q : Process)
    → p.stage ≡ reading
    → p.manager.agent.machine.state ≡ degraded
    → p ↝* q
    → q.stage ≡ reading
    → length q.manager.dialed ≡ length p.manager.dialed
    → q.manager.agent.machine.state ≡ degraded
degraded_sticks p q here low turns there same =
    elim (run-Since (attempts p.manager) turns (inl (here, low, refl))) [
      | inl (_, still_low, _) ↦ still_low
      | inr (inl (before, _)) ↦ absurd (cc (before, ap before_dial there))
      | inr (inr more) ↦ absurd (omega (arith, more, same))
    ]
