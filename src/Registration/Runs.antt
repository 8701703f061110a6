-- ===== src/Registration/Runs.antt =====
-- What every run of the backoff library's `Retry` keeps, and how a successful one ends.
use hive_agent.Prelude.{
  ℕ, ◌<◌, ◌≡◌, refl, sym, ap, ◌∙◌, subst, Option, none, List, [], ◌∷◌, ◌++◌, All,
}
use mathlib.Core.List.{append_assoc, append-nil}
use hive_agent.Registration.Payload.{HttpRequest, ApiError}
use hive_agent.Registration.Retry.{
  Network, Session, Verdict, success, Op, Retried, done, stopped, gave_up, again,
}

kept_by {ℓ} :
    (P : Session → Type ℓ) (op : Op)
    → ((s : Session) → P s → P (op s).1)
    → {v : Verdict} {s s' : Session} → op s ≡ (v, s')
    → P s
    → P s'
kept_by P op keeps {s} e h = subst P (ap (λ (x : Verdict × Session). x.1) e) (keeps s h)

module _ {ℓ} {op : Op} {r : Option ApiError × Session} (P : Session → Type ℓ)
    (keeps : (s : Session) → P s → P (op s).1) where
  -- What each attempt keeps holds at the end.
  pub Retried-keeps : {s : Session} → Retried op r s → P s → P r.1
  Retried-keeps (done s' e q) h =
      subst (λ (x : Option ApiError × Session). P x.1) (sym q) (kept_by P op keeps e h)
  Retried-keeps (stopped x s' e q) h =
      subst (λ (x : Option ApiError × Session). P x.1) (sym q) (kept_by P op keeps e h)
  Retried-keeps (gave_up x s' e q) h =
      subst (λ (x : Option ApiError × Session). P x.1) (sym q) (kept_by P op keeps e h)
  Retried-keeps (again x s' e later) h = Retried-keeps later (kept_by P op keeps e h)

  -- A run without an error ends with a successful attempt.
  pub Retried-success :
      {s : Session}
      → Retried op r s
      → P s
      → r.0 ≡ none
      → (s0 : Session) × P s0 × (op s0 ≡ (success, r.1))
  Retried-success {s} (done s' e q) h n = (s, h, rw q e)
  Retried-success (stopped x s' e q) h n = absurd (cc)
  Retried-success (gave_up x s' e q) h n = absurd (cc)
  Retried-success (again x s' e later) h n = Retried-success later (kept_by P op keeps e h) n

-- From `s` to `t` only copies of one request were sent, with the same token.
pub record Sends (q : HttpRequest) (s t : Session) : Type 0 where
  pub token : t.token ≡ s.token
  pub requests : List HttpRequest
  pub sent : t.sent ≡ s.sent ++ requests
  pub same : All (λ x. x ≡ q) requests

pub Sends-refl : (q : HttpRequest) (s : Session) → Sends q s s
Sends-refl q s = record { token = refl; requests = []; sent = sym (append-nil s.sent); same = tt }

All-snoc :
    (q : HttpRequest) (l : List HttpRequest) → All (λ x. x ≡ q) l → All (λ x. x ≡ q) (l ++ q ∷ [])
All-snoc q [] h = (refl, tt)
All-snoc q (x ∷ l) h = (h.0, All-snoc q l h.1)

-- One more copy.
pub Sends-snoc :
    (q : HttpRequest) (s t u : Session)
    → Sends q s t
    → u.token ≡ t.token
    → u.sent ≡ t.sent ++ q ∷ []
    → Sends q s u
Sends-snoc q s t u h tok e = record {
  token = tok ∙ h.token;
  requests = h.requests ++ q ∷ [];
  sent = e ∙ ap (λ l. l ++ q ∷ []) h.sent ∙ append_assoc s.sent h.requests (q ∷ []);
  same = All-snoc q h.requests h.same;
}

-- Nothing more.
pub Sends-stay :
    (q : HttpRequest) (s t u : Session)
    → Sends q s t
    → u.token ≡ t.token
    → u.sent ≡ t.sent
    → Sends q s u
Sends-stay q s t u h tok e = record {
  token = tok ∙ h.token;
  requests = h.requests;
  sent = e ∙ h.sent;
  same = h.same;
}

-- Some attempt, made before the context was done, was answered without an error and with a status
-- below 300.
pub record Accepted (net : Network) (q : HttpRequest) : Type 0 where
  pub attempt : ℕ
  pub live : net.ctx_err attempt ≡ none
  pub no_error : (net.ask attempt q).error ≡ none
  pub status : (net.ask attempt q).status < 300
