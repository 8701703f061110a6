-- ===== src/Websocket/Rotation.antt =====
-- What a credential rotation changes for the next attempt of internal/websocket/manager.go.
use mathlib.Core.List.{append_assoc}
use hive_agent.Websocket.Alive.{round-dialed, round_alive, run_alive}
use hive_agent.Prelude.{
  ℕ, ◌≡◌, ◌≢◌, refl, ap, ◌∙◌, Bool, true, false, none, some, List, [], ◌∷◌, ◌++◌, arith, All,
  All-append, eq_iff,
}
use hive_agent.Prelude.Sorting.{All-imp}
use hive_agent.State.{revoked}
use hive_agent.Registration.Payload.{CredentialRotation}
use hive_agent.Registration.Client.{bearer, apply_rotation, tunnel_url}
use hive_agent.Websocket.{
  Dial, run, Frame, command, credential_rotation, revoke, other_type, opened, Manager, endpoint_of,
  handshake_of, rotate, serve, open_tunnel, connect_and_serve, round,
}
use hive_agent.Websocket.Tunnel.{connecting_manager, handshake-agent, serve-fixed, is_revoke}

abbrev is_rotation : Frame → Bool
is_rotation (credential_rotation (some r)) = true
is_rotation _ = false

serve-append :
    (now : ℕ) (before later : List Frame) (m : Manager)
    → All (λ f. is_revoke f ≡ false) before
    → serve now (before ++ later) m ≡ serve now later (serve now before m)
unfolding serve
serve-append now [] later m h = refl
serve-append now (command (some cmd) ∷ rest) later m h =
    serve-append now rest later (record m { started = m.started ++ cmd ∷ [] }) h.1
serve-append now (command none ∷ rest) later m h = serve-append now rest later m h.1
serve-append now (credential_rotation (some r) ∷ rest) later m h =
    serve-append now rest later (rotate r m) h.1
serve-append now (credential_rotation none ∷ rest) later m h = serve-append now rest later m h.1
serve-append now (revoke ∷ rest) later m h = absurd (cc (h.0))
serve-append now (other_type kind ∷ rest) later m h = serve-append now rest later m h.1

handshake-started :
    (m : Manager) (cmds : List _) → handshake_of (record m { started = cmds }) ≡ handshake_of m
unfolding endpoint_of
handshake-started m cmds = refl

-- Messages that are no rotation leave the next handshake alone.
serve_quiet-handshake :
    (now : ℕ) (frames : List Frame) (m : Manager)
    → All (λ f. is_rotation f ≡ false) frames
    → handshake_of (serve now frames m) ≡ handshake_of m
unfolding serve
serve_quiet-handshake now [] m h = refl
serve_quiet-handshake now (command (some cmd) ∷ rest) m h =
    serve_quiet-handshake now rest (record m { started = m.started ++ cmd ∷ [] }) h.1
    ∙ handshake-started m _
serve_quiet-handshake now (command none ∷ rest) m h = serve_quiet-handshake now rest m h.1
serve_quiet-handshake now (credential_rotation (some r) ∷ rest) m h = absurd (cc (h.0))
serve_quiet-handshake now (credential_rotation none ∷ rest) m h =
    serve_quiet-handshake now rest m h.1
serve_quiet-handshake now (revoke ∷ rest) m h = handshake-agent m _
serve_quiet-handshake now (other_type kind ∷ rest) m h = serve_quiet-handshake now rest m h.1

rotate-handshake :
    (r : CredentialRotation) (m : Manager)
    → r.jwt ≢ ""
    → r.ws_endpoint ≢ ""
    → handshake_of (rotate r m) ≡ record {
      endpoint = r.ws_endpoint;
      authorization = bearer r.jwt;
      cluster = m.reg.cluster_id;
    }
unfolding rotate endpoint_of apply_rotation tunnel_url
rotate-handshake r m j w = ground (arith, eq_iff r.jwt "", eq_iff r.ws_endpoint "")

round-handshake :
    (now : ℕ) (frames : List Frame) (m : Manager)
    → handshake_of (round now (opened frames) m)
      ≡ handshake_of (
          serve now frames (
            open_tunnel now (record m {
              agent = (connecting_manager now m).agent;
              dialed = m.dialed ++ handshake_of (connecting_manager now m) ∷ [];
            })))
unfolding connect_and_serve endpoint_of
round-handshake now frames m = refl

module _ (now : ℕ) (before after : List Frame) (r : CredentialRotation) (m : Manager)
    (j : r.jwt ≢ "") (w : r.ws_endpoint ≢ "") (b : All (λ f. is_revoke f ≡ false) before)
    (a : All (λ f. (is_rotation f ≡ false) × (is_revoke f ≡ false)) after) where
  abbrev frames : List Frame
  frames = before ++ credential_rotation (some r) ∷ after

  rotated-handshake : handshake_of (round now (opened frames) m) ≡ record {
    endpoint = r.ws_endpoint;
    authorization = bearer r.jwt;
    cluster = m.reg.cluster_id;
  }
  unfolding serve
  rotated-handshake =
      let m' = open_tunnel now (record m {
        agent = (connecting_manager now m).agent;
        dialed = m.dialed ++ handshake_of (connecting_manager now m) ∷ [];
      }) in
      let mid = serve now before m' in
      let (_, _, _, id) = serve-fixed now before m' in
      round-handshake now frames m
      ∙ ap handshake_of (serve-append now before (credential_rotation (some r) ∷ after) m' b)
      ∙ serve_quiet-handshake now after (rotate r mid) (All-imp _ _ after (λ f h. h.0) a)
      ∙ rotate-handshake r mid j w
      ∙ ap (λ c. record { endpoint = r.ws_endpoint; authorization = bearer r.jwt; cluster = c }) id

  -- After a session with a rotation that has a token and an endpoint, on an agent that is not
  -- revoked, with no revocation before it, and neither a revocation nor another rotation after it,
  -- `Run` dials again, and that endpoint, with that token and with the same cluster id.
  pub rotation_next :
      (now' : ℕ) (dial : Dial)
      → m.agent.machine.state ≢ revoked
      → (run ((now, opened frames) ∷ (now', dial) ∷ []) m).dialed
        ≡ m.dialed
          ++ handshake_of m
            ∷ record {
              endpoint = r.ws_endpoint;
              authorization = bearer r.jwt;
              cluster = m.reg.cluster_id;
            }
            ∷ []
  unfolding run
  rotation_next now' dial h =
      let next = round now (opened frames) m in
      let quiet =
        All-append _ before (credential_rotation (some r) ∷ after) b
          (refl, All-imp _ _ after (λ f h. h.1) a) in
      ap (λ (m : Manager). m.dialed) (run_alive now (opened frames) ((now', dial) ∷ []) m h)
      ∙ ap (λ (m : Manager). m.dialed)
          (run_alive now' dial [] next (round_alive now frames m h quiet))
      ∙ round-dialed now' dial next
      ∙ ap (λ l. l ++ handshake_of next ∷ []) (round-dialed now (opened frames) m)
      ∙ append_assoc m.dialed (handshake_of m ∷ []) (handshake_of next ∷ [])
      ∙ ap (λ h. m.dialed ++ handshake_of m ∷ h ∷ []) rotated-handshake
