-- ===== src/Wire/Sessions.antt =====
-- A whole session of the tunnel of internal/websocket/manager.go, as the control plane writes it and
-- as the loop of `connectAndServe` reads it.
mod Examples
use hive_agent.Prelude.{
  ℕ, String, ◌≡◌, refl, sym, ap, ◌∙◌, inl, inr, some, List, [], ◌∷◌, ◌++◌, map, ◌==◌, if◌then◌else◌,
  Bool-cases, arith, eq_iff, not,
}
use hive_agent.Commands.Run as Commands
use hive_agent.Holmes.Types.{AgentCommand}
use hive_agent.Registration.Payload.{CredentialRotation}
use hive_agent.Websocket.{Frame, command, credential_rotation, revoke, Manager, serve, rotate}
use hive_agent.Registration.Client.{apply_rotation}
use hive_agent.Agent.{move}
use mathlib.Core.List.{append-nil, append_assoc}
use hive_agent.Wire.{Codec, Json, no_members, member, members, text}
use hive_agent.Wire.Messages.{encode_command, encode_rotation}
use hive_agent.Wire.Frames.{envelope, read_frame, read_frames}
use hive_agent.Wire.RoundTrip.{received, read_frame-encode_command, decode-encode_rotation}

-- The messages that the loop knows.
pub data Sent : Type 0 where
  a_command : AgentCommand → Sent
  a_rotation : CredentialRotation → Sent
  a_revocation : Sent

module _ (c : Codec) where
  abbrev pub written : Sent → Json
  written (a_command cmd) = envelope "command" (encode_command c cmd)
  written (a_rotation r) = envelope "credential_rotation" (encode_rotation r)
  written a_revocation = members (member "type" (text "revoke") no_members)

  abbrev pub heard : Sent → Frame
  heard (a_command cmd) = command (some (received c cmd))
  heard (a_rotation r) = credential_rotation (some r)
  heard a_revocation = revoke

  read_frame-written : (s : Sent) → read_frame c (written s) ≡ some (heard s)
  unfolding read_frame
  read_frame-written (a_command cmd) = read_frame-encode_command c cmd
  read_frame-written (a_rotation r) = rw (decode-encode_rotation r) refl
  read_frame-written a_revocation = refl

  -- Whatever commands, rotations and revocations the control plane writes, in whatever order, the loop
  -- reads exactly these messages in this order: each command with its id, its name and its parameters
  -- as the codec carries them, each rotation with all of its fields.
  pub read_frames-written : (l : List Sent) → read_frames c (map written l) ≡ map heard l
  unfolding read_frames
  read_frames-written [] = refl
  read_frames-written (s ∷ l) = rw (read_frames, read_frame-written s, read_frames-written l) refl

-- The commands that are written before the first revocation.
abbrev pub commands_of : List Sent → List AgentCommand
commands_of [] = []
commands_of (a_command cmd ∷ l) = cmd ∷ commands_of l
commands_of (a_rotation r ∷ l) = commands_of l
commands_of (a_revocation ∷ l) = []

-- The last token of a rotation before the first revocation, or the one before.
abbrev pub token_after : List Sent → String → String
token_after [] token = token
token_after (a_command cmd ∷ l) token = token_after l token
token_after (a_rotation r ∷ l) token = token_after l (if r.jwt == "" then token else r.jwt)
token_after (a_revocation ∷ l) token = token

rotate_lem :
    (r : CredentialRotation) (m : Manager)
    → ((rotate r m).started ≡ m.started)
      × ((rotate r m).session.token ≡ (if r.jwt == "" then m.session.token else r.jwt))
unfolding rotate apply_rotation
rotate_lem r m = elim (Bool-cases (r.ws_endpoint == "")) [
  | inl e ↦ elim (Bool-cases (r.jwt == "")) [
    | inl f ↦ rw (rotate, e, f) (refl, refl)
    | inr f ↦ rw (rotate, e, f) (refl, refl)
  ]
  | inr e ↦ elim (Bool-cases (r.jwt == "")) [
    | inl f ↦ rw (rotate, e, f) (refl, refl)
    | inr f ↦ rw (rotate, e, f) (refl, refl)
  ]
]

serve-heard :
    (c : Codec) (now : ℕ) (l : List Sent) (m : Manager)
    → ((serve now (map (heard c) l) m).started ≡ m.started ++ map (received c) (commands_of l))
      × ((serve now (map (heard c) l) m).session.token ≡ token_after l m.session.token)
unfolding serve move
serve-heard c now [] m = (sym (append-nil m.started), refl)
serve-heard c now (a_command cmd ∷ l) m =
    let (started, token) =
      serve-heard c now l (record m { started = m.started ++ received c cmd ∷ [] }) in
    (
      started ∙ append_assoc m.started (received c cmd ∷ []) (map (received c) (commands_of l)),
      token,
    )
serve-heard c now (a_rotation r ∷ l) m =
    let (started, token) = serve-heard c now l (rotate r m) in
    let (same, rotated) = rotate_lem r m in
    (
      started ∙ ap (λ (s : List Commands.Request). s ++ map (received c) (commands_of l)) same,
      token ∙ ap (λ (t : String). token_after l t) rotated,
    )
serve-heard c now (a_revocation ∷ l) m = (sym (append-nil m.started), refl)

-- Whatever commands, rotations and revocations the control plane writes, in whatever order, the
-- tunnel starts exactly the commands before the first revocation, in their order, each with its id,
-- its name and its parameters as the codec carries them, and ends with the last token of the
-- rotations before the first revocation.
pub serve-written :
    (c : Codec) (now : ℕ) (l : List Sent) (m : Manager)
    → ((serve now (read_frames c (map (written c) l)) m).started
        ≡ m.started ++ map (received c) (commands_of l))
      × ((serve now (read_frames c (map (written c) l)) m).session.token
          ≡ token_after l m.session.token)
serve-written c now l m = rw (read_frames-written c l) (serve-heard c now l m)
