-- ===== src/Websocket/Alive.antt =====
-- Attempts of internal/websocket/manager.go while the agent is not revoked.
use hive_agent.Prelude.{
  ℕ, String, ◌≡◌, ◌≢◌, refl, sym, ap, ◌∙◌, inl, inr, false, none, some, List, [], ◌∷◌, ◌++◌, arith,
  All, Bool-cases, ◌==◌,
}
use hive_agent.State.{AgentState, connecting, online, offline, revoked, name}
use hive_agent.State.Diagram.{name_inj}
use hive_agent.Agent.{Agent, move}
use hive_agent.Agent.Moves.{state-move}
use hive_agent.Registration.Payload.{CredentialRotation}
use hive_agent.Websocket.{
  Dial, dial_error, disconnected, run, count_reconnect, Frame, command, credential_rotation, revoke,
  other_type, opened, Manager, handshake_of, rotate, serve, open_tunnel, connect_and_serve, round,
}
use hive_agent.Websocket.Tunnel.{connecting_manager, handshake-agent, serve-fixed, is_revoke}

rotate-agent : (r : CredentialRotation) (m : Manager) → (rotate r m).agent ≡ m.agent
unfolding rotate
rotate-agent r m = ground arith

-- Messages that are no revocation leave the machine alone.
serve_alive-agent :
    (now : ℕ) (frames : List Frame) (m : Manager)
    → All (λ f. is_revoke f ≡ false) frames
    → (serve now frames m).agent ≡ m.agent
unfolding serve rotate
serve_alive-agent now [] m h = refl
serve_alive-agent now (command (some cmd) ∷ rest) m h =
    serve_alive-agent now rest (record m { started = m.started ++ cmd ∷ [] }) h.1
serve_alive-agent now (command none ∷ rest) m h = serve_alive-agent now rest m h.1
serve_alive-agent now (credential_rotation (some r) ∷ rest) m h =
    serve_alive-agent now rest (rotate r m) h.1 ∙ rotate-agent r m
serve_alive-agent now (credential_rotation none ∷ rest) m h = serve_alive-agent now rest m h.1
serve_alive-agent now (revoke ∷ rest) m h = absurd (cc (h.0))
serve_alive-agent now (other_type kind ∷ rest) m h = serve_alive-agent now rest m h.1

alive_next :
    (a : Agent) (next : AgentState) (reason : String) (now : ℕ)
    → a.machine.state ≢ revoked
    → next ≢ revoked
    → (move a next reason now).machine.state ≢ revoked
alive_next a next reason now h other gone = elim (state-move a next reason now) [
  | inl same ↦ h (sym same ∙ gone)
  | inr (there, _) ↦ other (sym there ∙ gone)
]

disconnected_alive :
    (now : ℕ) (m : Manager)
    → m.agent.machine.state ≢ revoked
    → (disconnected now m).agent.machine.state ≢ revoked
disconnected_alive now m h = elim (Bool-cases (name m.agent.machine.state == name revoked)) [
  | inl gone ↦ absurd (h (name_inj m.agent.machine.state revoked gone))
  | inr here ↦
      rw here
        (alive_next (count_reconnect m.agent) offline "websocket disconnected" now h (λ e. cc e))
]

-- A session without a revocation does not revoke the agent.
pub round_alive :
    (now : ℕ) (frames : List Frame) (m : Manager)
    → m.agent.machine.state ≢ revoked
    → All (λ f. is_revoke f ≡ false) frames
    → (round now (opened frames) m).agent.machine.state ≢ revoked
unfolding connect_and_serve
round_alive now frames m h quiet =
    let m' = connecting_manager now m in
    let tried = record m' { dialed = m'.dialed ++ handshake_of m' ∷ [] } in
    let same = serve_alive-agent now frames (open_tunnel now tried) quiet in
    let opening =
      alive_next m.agent connecting "opening secure websocket tunnel" now h (λ e. cc e) in
    let alive = alive_next m'.agent online "websocket connected" now opening (λ e. cc e) in
    disconnected_alive now (connect_and_serve now (opened frames) m')
      (λ e. alive (sym (ap (λ (a : Agent). a.machine.state) same) ∙ e))

pub run_alive :
    (now : ℕ) (dial : Dial) (later : List (ℕ × Dial)) (m : Manager)
    → m.agent.machine.state ≢ revoked
    → run ((now, dial) ∷ later) m ≡ run later (round now dial m)
unfolding run
run_alive now dial later m h = elim (Bool-cases (name m.agent.machine.state == name revoked)) [
  | inl gone ↦ absurd (h (name_inj m.agent.machine.state revoked gone))
  | inr here ↦ rw (run, here) refl
]

-- An attempt dials once, with the token and the endpoint of its start.
pub round-dialed :
    (now : ℕ) (dial : Dial) (m : Manager)
    → (round now dial m).dialed ≡ m.dialed ++ handshake_of m ∷ []
unfolding connect_and_serve
round-dialed now (dial_error text) m =
    ap (λ h. m.dialed ++ h ∷ []) (handshake-agent m (connecting_manager now m).agent)
round-dialed now (opened frames) m =
    let m' = connecting_manager now m in
    let tried = record m' { dialed = m'.dialed ++ handshake_of m' ∷ [] } in
    let (_, _, dialed, _) = serve-fixed now frames (open_tunnel now tried) in
    dialed ∙ ap (λ h. m.dialed ++ h ∷ []) (handshake-agent m (connecting_manager now m).agent)
