-- ===== src/Registration/Requests.antt =====
-- What the client of internal/registration/client.go puts on the wire.
use hive_agent.Prelude.{
  ◌<◌, String, ◌≡◌, refl, inl, inr, ap, subst, ◌≢◌, All, Option, none, List, [], ◌∷◌, ◌++◌, arith,
  Option-cases,
}
use hive_agent.Registration.Payload.{
  HttpRequest, ApiError, Body, Request, Response, zero_response, no_body,
}
use hive_agent.Registration.Retry.{Session, Verdict, success, Op, guarded, retry, Reply}
use hive_agent.Registration.Client.{
  Client, register_request, register_op, register_verdict, with_capabilities, with_url, register,
  jwt_request, path_verdict, post_op, post_jwt, refresh_op, refresh_verdict,
}
use hive_agent.Registration.Runs.{
  Retried-keeps, Retried-success, Sends, Sends-refl, Sends-snoc, Sends-stay, Accepted,
}

-- What a call leaves: copies of one request were sent with the token of the start, and if there was no
-- error, the server accepted one of them.
pub record Exchange (c : Client) (q : HttpRequest) (s : Session) (r : Option ApiError × Session)
    : Type 0 where
  pub sends : Sends q s r.1
  pub accepted : r.0 ≡ none → Accepted c.net q

-- An operation that posts `q` in every state with the token of `s`.
pub record Posts (c : Client) (q : HttpRequest) (s : Session) (op : Op) : Type 0 where
  pub sends_one :
      (t : Session)
      → t.token ≡ s.token
      → ((op t).1.token ≡ t.token) × ((op t).1.sent ≡ t.sent ++ q ∷ [])
  pub success_of :
      (t : Session)
      → t.token ≡ s.token
      → (op t).0 ≡ success
      → ((c.net.ask t.attempt q).error ≡ none) × ((c.net.ask t.attempt q).status < 300)

guarded-Sends :
    (c : Client) (q : HttpRequest) (s : Session) (op : Op)
    → Posts c q s op
    → (t : Session) → Sends q s t
    → Sends q s (guarded c.net op t).1
unfolding guarded
guarded-Sends c q s op p t h = elim (Option-cases (c.net.ctx_err t.attempt)) [
  | inl live ↦
      let (a, b) = p.sends_one t h.token in rw (live, guarded) (Sends-snoc q s t (op t).1 h a b)
  | inr (e, dead) ↦ rw (dead, guarded) (Sends-stay q s t _ h refl refl)
]

guarded_success :
    (c : Client) (op : Op) (t : Session)
    → (guarded c.net op t).0 ≡ success
    → (c.net.ctx_err t.attempt ≡ none) × ((op t).0 ≡ success)
unfolding guarded
guarded_success c op t e = ground arith

pub retry-Exchange :
    (c : Client) (q : HttpRequest) (s : Session) (op : Op)
    → Posts c q s op
    → Exchange c q s (retry c.backoff c.net op s)
unfolding retry
retry-Exchange c q s op p =
    let run = c.backoff.runs (guarded c.net op) s in
    record {
      sends = Retried-keeps (Sends q s) (guarded-Sends c q s op p) run (Sends-refl q s);
      accepted = λ n.
          let (t, h, e) =
            Retried-success (Sends q s) (guarded-Sends c q s op p) run (Sends-refl q s) n in
          let (live, fine) = guarded_success c op t (ap (λ (x : Verdict × Session). x.0) e) in
          let (no_error, status) = p.success_of t h.token fine in
          record { attempt = t.attempt; live = live; no_error = no_error; status = status };
    }

path_verdict-success :
    (path : String) (r : Reply)
    → path_verdict path r ≡ success
    → (r.error ≡ none) × (r.status < 300)
path_verdict-success path r h = ground arith

same_token :
    (c : Client) (path : String) (body : Body) (s t : Session)
    → t.token ≡ s.token
    → jwt_request c path body t ≡ jwt_request c path body s
same_token c path body s t h = rw h

-- The answer that makes an attempt a success.
abbrev IsFine : Reply → Type 0
IsFine r = (r.error ≡ none) × (r.status < 300)

post_op-Posts :
    (c : Client) (path : String) (body : Body) (s : Session)
    → Posts c (jwt_request c path body s) s (post_op c path body)
unfolding post_op
post_op-Posts c path body s = record {
  sends_one = λ t h. (refl, ap (λ q. t.sent ++ q ∷ []) (same_token c path body s t h));
  success_of = λ t h e.
      subst (λ q. IsFine (c.net.ask t.attempt q)) (same_token c path body s t h)
        (path_verdict-success path (c.net.ask t.attempt (jwt_request c path body t)) e);
}

-- Every authenticated post (capabilities, heartbeat, inventory) sends nothing but copies of one
-- request, to its path, with the token in the store at the start; it leaves the token alone; and it
-- reports success only if the server accepted a copy before the context was done.
pub post_jwt-Exchange :
    (c : Client) (path : String) (body : Body) (s : Session)
    → Exchange c (jwt_request c path body s) s (post_jwt c path body s)
unfolding post_jwt
post_jwt-Exchange c path body s =
    retry-Exchange c (jwt_request c path body s) s (post_op c path body)
      (post_op-Posts c path body s)

register_verdict-success : (r : Reply) → register_verdict r ≡ success → IsFine r
register_verdict-success r h = ground arith

register_op-Posts :
    (c : Client) (req : Request) (s : Session)
    → Posts c (register_request c req) s (register_op c req)
unfolding register_op
register_op-Posts c req s = record {
  sends_one = λ t h. (refl, refl);
  success_of = λ t h e. register_verdict-success (c.net.ask t.attempt (register_request c req)) e;
}

refresh_verdict-success : (r : Reply) → refresh_verdict r ≡ success → IsFine r
refresh_verdict-success r h = ground arith

abbrev pub refresh_request : Client → Session → HttpRequest
refresh_request c s = jwt_request c "/api/v1/agents/token/refresh" no_body s

pub refresh_op-Posts : (c : Client) (s : Session) → Posts c (refresh_request c s) s (refresh_op c)
unfolding refresh_op
refresh_op-Posts c s = record {
  sends_one = λ t h. (refl, ap (λ q. t.sent ++ q ∷ []) (same_token c _ no_body s t h));
  success_of = λ t h e.
      subst (λ q. IsFine (c.net.ask t.attempt q)) (same_token c _ no_body s t h)
        (refresh_verdict-success (c.net.ask t.attempt (refresh_request c t)) e);
}

jwt-with_url : (r : Response) → r.jwt ≡ (with_url r).jwt
jwt-with_url r = ground arith

-- Registration sends nothing but copies of one request without a token, whose capabilities are those
-- of the agent if none were given; without an error the server accepted one of them, and the store
-- then holds the token that was returned; with an error the store is as it was.
pub register-Exchange :
    (c : Client) (req : Request) (s : Session)
    → (x : List HttpRequest) × ((register c req s).1.sent ≡ s.sent ++ x)
      × All (λ q. q ≡ register_request c (with_capabilities req)) x
      × ((register c req s).0.1 ≡ none
          → Accepted c.net (register_request c (with_capabilities req))
            × ((register c req s).1.token ≡ (register c req s).0.0.jwt))
      × ((register c req s).0.1 ≢ none → (register c req s).1.token ≡ s.token)
unfolding register
register-Exchange c req s =
    let s0 = record s { out = zero_response } in
    let op = register_op c (with_capabilities req) in
    let ex =
      retry-Exchange c (register_request c (with_capabilities req)) s0 op
        (register_op-Posts c (with_capabilities req) s0) in
    elim (Option-cases (retry c.backoff c.net op s0).0) [
      | inl fine ↦
          rw (fine, register)
            (
              ex.sends.requests,
              ex.sends.sent,
              ex.sends.same,
              λ _. (ex.accepted fine, jwt-with_url _),
              λ ne. absurd (ne refl),
            )
      | inr (e, failed) ↦
          rw (failed, register)
            (ex.sends.requests, ex.sends.sent, ex.sends.same, λ p. absurd (cc), λ _. ex.sends.token)
    ]
