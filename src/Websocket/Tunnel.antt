-- ===== src/Websocket/Tunnel.antt =====
-- The rounds of `Run` in internal/websocket/manager.go: the connection's flags, the counter, revocation
-- and rotation.
use hive_agent.Prelude.{
  ℕ, ◌+◌, ◌≡◌, ◌≢◌, refl, ap, ◌∙◌, inl, inr, Bool, true, false, none, some, List, [], ◌∷◌, ◌++◌,
  ◌==◌, arith, length, length-append, In, Bool-cases,
}
use hive_agent.State.{connecting, online, offline, revoked, name}
use hive_agent.State.Diagram.{name_inj, name_ne, ◌⟶◌}
use hive_agent.Agent.{Agent, move}
use hive_agent.Agent.Moves.{counters, counters-move, state-move, state-move_edge}
use hive_agent.Websocket.{
  Frame, command, credential_rotation, revoke, other_type, Dial, dial_error, opened, Manager,
  endpoint_of, handshake_of, rotate, serve, open_tunnel, connect_and_serve, disconnected, round,
  run, count_reconnect,
}

-- What `serve` leaves alone: the counters, the flag, what was dialed, and the cluster's id.
abbrev pub is_revoke : Frame → Bool
is_revoke revoke = true
is_revoke _ = false

later_of :
    (f : Frame) (later : List Frame) → In revoke (f ∷ later) → is_revoke f ≡ false → In revoke later
later_of f later (inr m) h = m
later_of f later (inl e) h = absurd (cc (ap is_revoke e))

pub serve-fixed :
    (now : ℕ) (frames : List Frame) (m : Manager)
    → (counters (serve now frames m).agent.metrics ≡ counters m.agent.metrics)
      × ((serve now frames m).connected ≡ m.connected)
      × ((serve now frames m).dialed ≡ m.dialed)
      × ((serve now frames m).reg.cluster_id ≡ m.reg.cluster_id)
unfolding serve rotate
serve-fixed now [] m = (refl, refl, refl, refl)
serve-fixed now (command (some cmd) ∷ later) m =
    serve-fixed now later (record m { started = m.started ++ cmd ∷ [] })
serve-fixed now (command none ∷ later) m = serve-fixed now later m
serve-fixed now (credential_rotation (some rotation) ∷ later) m =
    let (a, b, c, d) = serve-fixed now later (rotate rotation m) in ground (arith, a, b, c, d)
serve-fixed now (credential_rotation none ∷ later) m = serve-fixed now later m
serve-fixed now (revoke ∷ later) m =
    (counters-move m.agent revoked "agent key revoked" now, refl, refl, refl)
serve-fixed now (other_type kind ∷ later) m = serve-fixed now later m

disconnected-counters :
    (now : ℕ) (m : Manager)
    → counters (disconnected now m).agent.metrics ≡ counters (count_reconnect m.agent).metrics
disconnected-counters now m = elim (Bool-cases (name m.agent.machine.state == name revoked)) [
  | inl gone ↦ rw gone refl
  | inr here ↦
      rw here (counters-move (count_reconnect m.agent) offline "websocket disconnected" now)
]

open_tunnel-reconnects :
    (now : ℕ) (m : Manager)
    → (open_tunnel now m).agent.metrics.tunnel_reconnects ≡ m.agent.metrics.tunnel_reconnects
open_tunnel-reconnects now m =
    ap (λ c. c.tunnel_reconnects) (counters-move m.agent online "websocket connected" now)

-- `connectAndServe` sets the gauge back, counts nothing, and dials once.
connect-fixed :
    (now : ℕ) (dial : Dial) (m : Manager)
    → m.agent.metrics.tunnel_connected ≡ 0
    → ((connect_and_serve now dial m).agent.metrics.tunnel_connected ≡ 0)
      × ((connect_and_serve now dial m).agent.metrics.tunnel_reconnects
          ≡ m.agent.metrics.tunnel_reconnects)
      × ((connect_and_serve now dial m).dialed ≡ m.dialed ++ handshake_of m ∷ [])
unfolding connect_and_serve
connect-fixed now (dial_error text) m h = (h, refl, refl)
connect-fixed now (opened frames) m h =
    let tried = record m { dialed = m.dialed ++ handshake_of m ∷ [] } in
    let (same, _, dialed, _) = serve-fixed now frames (open_tunnel now tried) in
    (refl, ap (λ c. c.tunnel_reconnects) same ∙ open_tunnel-reconnects now tried, dialed)

pub handshake-agent :
    (m : Manager) (a : Agent) → handshake_of (record m { agent = a }) ≡ handshake_of m
unfolding endpoint_of
handshake-agent m a = refl

abbrev pub connecting_manager : ℕ → Manager → Manager
connecting_manager now m = record m {
  agent = move m.agent connecting "opening secure websocket tunnel" now;
}

-- A round ends with the tunnel closed in the flag and in the gauge, is counted as one reconnect, and
-- dials once, with the token and the endpoint of its start.
round-fixed :
    (now : ℕ) (dial : Dial) (m : Manager)
    → m.agent.metrics.tunnel_connected ≡ 0
    → ((round now dial m).connected ≡ false)
      × ((round now dial m).agent.metrics.tunnel_connected ≡ 0)
      × ((round now dial m).agent.metrics.tunnel_reconnects ≡ m.agent.metrics.tunnel_reconnects + 1)
      × ((round now dial m).dialed ≡ m.dialed ++ handshake_of m ∷ [])
round-fixed now dial m h =
    let moved = counters-move m.agent connecting "opening secure websocket tunnel" now in
    let m' = connecting_manager now m in
    let (gauge, count, dialed) =
      connect-fixed now dial m' (ap (λ c. c.tunnel_connected) moved ∙ h) in
    let after = disconnected-counters now (connect_and_serve now dial m') in
    (
      refl,
      ap (λ c. c.tunnel_connected) after ∙ gauge,
      ap (λ c. c.tunnel_reconnects) after
          ∙ ap (λ n. n + 1) (count ∙ ap (λ c. c.tunnel_reconnects) moved),
      dialed ∙ ap (λ h. m.dialed ++ h ∷ []) (handshake-agent m _),
    )

-- Between two attempts, and when `Run` returns, the tunnel is reported closed: `Connected` is false
-- and the gauge reads 0, if that holds at first; and every attempt to dial is counted as one
-- reconnect.
pub run-closed :
    (attempts : List (ℕ × Dial)) (m : Manager)
    → m.connected ≡ false
    → m.agent.metrics.tunnel_connected ≡ 0
    → ((run attempts m).connected ≡ false)
      × ((run attempts m).agent.metrics.tunnel_connected ≡ 0)
      × ((run attempts m).agent.metrics.tunnel_reconnects + length m.dialed
          ≡ m.agent.metrics.tunnel_reconnects + length (run attempts m).dialed)
unfolding run
run-closed [] m c g = (c, g, refl)
run-closed ((now, dial) ∷ later) m c g =
    let (a, b, count, dialed) = round-fixed now dial m g in
    let (a', b', count') = run-closed later (round now dial m) a b in
    elim (Bool-cases (name m.agent.machine.state == name revoked)) [
      | inl gone ↦ rw gone (c, g, refl)
      | inr here ↦ rw here (
        a',
        b',
        omega
            (arith, count, count', ap length dialed, length-append m.dialed (handshake_of m ∷ [])),
      )
    ]

-- After a revocation `Run` returns without dialing again.
pub run-revoked :
    (attempts : List (ℕ × Dial)) (m : Manager)
    → m.agent.machine.state ≡ revoked
    → run attempts m ≡ m
unfolding run
run-revoked [] m h = refl
run-revoked ((now, dial) ∷ later) m h = rw (run, h) refl

move-revoked :
    (a : Agent) (now : ℕ) → (move a revoked "agent key revoked" now).machine.state ≡ revoked
move-revoked a now = elim (Bool-cases (name a.machine.state == name revoked)) [
  | inl same ↦
      let e = name_inj a.machine.state revoked same in
      elim (state-move a revoked "agent key revoked" now) [ inl f ↦ f ∙ e | inr (f, _) ↦ f ]
  | inr other ↦
      state-move_edge a revoked "agent key revoked" now
        (◌⟶◌.revoke (name_ne a.machine.state revoked other))
]

serve_revoke :
    (now : ℕ) (frames : List Frame) (m : Manager)
    → In revoke frames
    → (serve now frames m).agent.machine.state ≡ revoked
unfolding serve
serve_revoke now [] m h = absurd h.never
serve_revoke now (command (some cmd) ∷ later) m h =
    serve_revoke now later (record m { started = m.started ++ cmd ∷ [] }) (later_of _ later h refl)
serve_revoke now (command none ∷ later) m h = serve_revoke now later m (later_of _ later h refl)
serve_revoke now (credential_rotation (some rotation) ∷ later) m h =
    serve_revoke now later (rotate rotation m) (later_of _ later h refl)
serve_revoke now (credential_rotation none ∷ later) m h =
    serve_revoke now later m (later_of _ later h refl)
serve_revoke now (revoke ∷ later) m h = move-revoked m.agent now
serve_revoke now (other_type kind ∷ later) m h = serve_revoke now later m (later_of _ later h refl)

round_revoke :
    (now : ℕ) (frames : List Frame) (m : Manager)
    → In revoke frames
    → (round now (opened frames) m).agent.machine.state ≡ revoked
unfolding connect_and_serve
round_revoke now frames m h =
    let m' = connecting_manager now m in
    let tried = record m' { dialed = m'.dialed ++ handshake_of m' ∷ [] } in
    let e = serve_revoke now frames (open_tunnel now tried) h in rw e e

-- If the agent is not revoked yet, a `revoke` message in a session ends it for good: the agent is
-- then in the state `REVOKED`, and whatever attempts were to follow, none is made.
pub revoke_ends :
    (now : ℕ) (frames : List Frame) (later : List (ℕ × Dial)) (m : Manager)
    → In revoke frames
    → m.agent.machine.state ≢ revoked
    → ((run ((now, opened frames) ∷ later) m).agent.machine.state ≡ revoked)
      × (run ((now, opened frames) ∷ later) m ≡ round now (opened frames) m)
unfolding run
revoke_ends now frames later m h alive =
    let gone = round_revoke now frames m h in
    let rest = run-revoked later (round now (opened frames) m) gone in
    elim (Bool-cases (name m.agent.machine.state == name revoked)) [
      | inl same ↦ absurd (alive (name_inj m.agent.machine.state revoked same))
      | inr other ↦ rw (run, other) (ap (λ x. x.agent.machine.state) rest ∙ gone, rest)
    ]
