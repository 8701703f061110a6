-- ===== src/Registration/Tokens.antt =====
-- The token store under the calls of internal/registration/client.go.
use hive_agent.Prelude.{
  String, ◌≡◌, ◌≢◌, refl, inl, inr, none, List, ◌++◌, All, arith, ◌==◌, eq_iff, if◌then◌else◌,
  Option-cases, Bool-cases,
}
use hive_agent.Registration.Payload.{HttpRequest, Body, CredentialRotation, Response, zero_response}
use hive_agent.Registration.Retry.{Session, retry}
use hive_agent.Registration.Client.{
  Client, post_jwt, refresh_op, refresh, apply_rotation, tunnel_url, with_url,
}
use hive_agent.Registration.Runs.{Accepted}
use hive_agent.Registration.Requests.{
  retry-Exchange, refresh_request, refresh_op-Posts, post_jwt-Exchange,
}

-- A refresh sends nothing but copies of one request with the token of the start. If it fails, the
-- token stays. If it succeeds, the server accepted a copy, and the token is the one of the answer,
-- or stays where the answer has none.
pub refresh-Exchange :
    (c : Client) (s : Session)
    → (x : List HttpRequest) × ((refresh c s).1.sent ≡ s.sent ++ x)
      × All (λ q. q ≡ refresh_request c s) x
      × ((refresh c s).0.1 ≢ none → (refresh c s).1.token ≡ s.token)
      × ((refresh c s).0.1 ≡ none
          → Accepted c.net (refresh_request c s)
            × ((refresh c s).1.token
                ≡ (if (refresh c s).0.0.jwt == "" then s.token else (refresh c s).0.0.jwt)))
unfolding refresh
refresh-Exchange c s =
    let s0 = record s { out = zero_response } in
    let op = refresh_op c in
    let ex = retry-Exchange c (refresh_request c s) s0 op (refresh_op-Posts c s0) in
    elim (Option-cases (retry c.backoff c.net op s0).0) [
      | inl fine ↦ elim (Bool-cases ((retry c.backoff c.net op s0).1.out.jwt == "")) [
        | inl empty ↦
            rw (fine, refresh, empty)
              (
                ex.sends.requests,
                ex.sends.sent,
                ex.sends.same,
                λ ne. absurd (ne refl),
                λ _. (ex.accepted fine, ex.sends.token),
              )
        | inr given ↦
            rw (fine, refresh, given)
              (
                ex.sends.requests,
                ex.sends.sent,
                ex.sends.same,
                λ ne. absurd (ne refl),
                λ _. (ex.accepted fine, refl),
              )
      ]
      | inr (e, failed) ↦
          rw (failed, refresh)
            (ex.sends.requests, ex.sends.sent, ex.sends.same, λ _. ex.sends.token, λ p. absurd (cc))
    ]

-- The calls that the agent makes after its registration.
pub data Use : Type 0 where
  posted : String → Body → Use
  refreshed : Use
  rotated : CredentialRotation → Use

unfoldable pub use_session : Client → Use → Session → Session
use_session c (posted path body) s = (post_jwt c path body s).1
use_session c refreshed s = (refresh c s).1
use_session c (rotated r) s = apply_rotation r s

pub rotation_keeps :
    (r : CredentialRotation) (s : Session) → s.token ≢ "" → (apply_rotation r s).token ≢ ""
unfolding apply_rotation
rotation_keeps r s h = ground (arith, eq_iff r.jwt "")

refresh_keeps : (c : Client) (s : Session) → s.token ≢ "" → (refresh c s).1.token ≢ ""
refresh_keeps c s h =
    let (x, _, _, failed, fine) = refresh-Exchange c s in
    elim (Option-cases (refresh c s).0.1) [
      | inl e ↦ let (_, t) = fine e in ground (arith, t, eq_iff (refresh c s).0.0.jwt "")
      | inr (x, e) ↦ let t = failed (λ p. cc) in ground (arith, t)
    ]

unfoldable pub use_all : Client → List Use → Session → Session
use_all c List.[] s = s
use_all c (List.◌∷◌ u later) s = use_all c later (use_session c u s)

use_keeps : (c : Client) (u : Use) (s : Session) → s.token ≢ "" → (use_session c u s).token ≢ ""
unfolding use_session
use_keeps c (posted path body) s h = let t = (post_jwt-Exchange c path body s).sends.token in rw t h
use_keeps c refreshed s h = refresh_keeps c s h
use_keeps c (rotated r) s h = rotation_keeps r s h

-- Once the store holds a token, no posts, refreshes and rotations, in any order and with any answers,
-- leave it without one.
pub token_never_lost :
    (c : Client) (calls : List Use) (s : Session) → s.token ≢ "" → (use_all c calls s).token ≢ ""
unfolding use_all
token_never_lost c List.[] s h = h
token_never_lost c (List.◌∷◌ u later) s h =
    token_never_lost c later (use_session c u s) (use_keeps c u s h)

-- The address that a registration returns for the tunnel is its WebSocket URL, whichever of the two
-- the server sent; it is empty only if the server sent neither.
pub tunnel_url-with_url :
    (r : Response)
    → (tunnel_url (with_url r) ≡ (with_url r).websocket_url)
      × (tunnel_url (with_url r) ≡ tunnel_url r)
      × (tunnel_url r ≡ "" → (r.websocket_url ≡ "") × (r.ws_endpoint ≡ ""))
unfolding tunnel_url
tunnel_url-with_url r = ground (arith, eq_iff r.websocket_url "", eq_iff r.ws_endpoint "")
