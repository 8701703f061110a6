-- ===== src/Registration/Retry.antt =====
-- The state of a call of internal/registration/client.go, the HTTP exchange, and `retry`. The HTTP
-- library and the backoff library are not part of the repository: they are `Network` and `Backoff`.
use hive_agent.Prelude.{ℕ, ◌+◌, String, ◌≡◌, Option, none, some, List, [], ◌∷◌, ◌++◌}
use hive_agent.Registration.Payload.{Response, HttpRequest, ApiError, context_done}

-- What the HTTP library gives back: an error, the status and text of the answer, and what decoding the
-- answer makes of the result variable.
pub record Reply : Type 0 where
  pub error : Option String
  pub status : ℕ
  pub text : String
  pub decode : Response → Response

-- The environment of the n-th attempt: the answer to a request, and the context's error.
pub record Network : Type 0 where
  pub ask : ℕ → HttpRequest → Reply
  pub ctx_err : ℕ → Option String

-- The token store, the number of attempts made, the requests sent, and the variable `out`.
pub record Session : Type 0 where
  pub token : String
  pub attempt : ℕ
  pub sent : List HttpRequest
  pub out : Response

-- How an attempt ends: `transient` is an error that is tried again, `permanent` one that is not.
pub data Verdict : Type 0 where
  success : Verdict
  transient : ApiError → Verdict
  permanent : ApiError → Verdict

abbrev pub Op : Type 0
Op = Session → Verdict × Session

-- The runs of `backoff.Retry`: it returns on success and on a permanent error, and after any other
-- error it gives up or tries again. `r` is what it returns.
pub data Retried (op : Op) (r : Option ApiError × Session) : Session → Type 0 where
  done : {s : Session} (s' : Session) → op s ≡ (success, s') → r ≡ (none, s') → Retried op r s
  stopped :
      {s : Session} (e : ApiError) (s' : Session)
      → op s ≡ (permanent e, s')
      → r ≡ (some e, s')
      → Retried op r s
  gave_up :
      {s : Session} (e : ApiError) (s' : Session)
      → op s ≡ (transient e, s')
      → r ≡ (some e, s')
      → Retried op r s
  again :
      {s : Session} (e : ApiError) (s' : Session)
      → op s ≡ (transient e, s')
      → Retried op r s'
      → Retried op r s

-- `backoff.Retry` with the bounded elapsed time that `retry` gives it: it returns, by such a run.
pub record Backoff : Type 0 where
  pub retry_op : Op → Session → Option ApiError × Session
  pub runs : (op : Op) (s : Session) → Retried op (retry_op op s) s

-- the closure of `retry`, which looks at the context first
unfoldable pub guarded : Network → Op → Op
guarded net op s = elim (net.ctx_err s.attempt) [
  | some e ↦ (permanent (context_done e), record s { attempt = s.attempt + 1 })
  | none ↦ op s
]

unfoldable pub retry : Backoff → Network → Op → Session → Option ApiError × Session
unfolding guarded
retry b net op s = b.retry_op (guarded net op) s

-- A post with no result variable.
unfoldable pub post : Network → HttpRequest → Session → Reply × Session
post net req s =
    (net.ask s.attempt req, record s { attempt = s.attempt + 1; sent = s.sent ++ req ∷ [] })

-- A post with `SetResult(&out)`.
unfoldable pub post_into : Network → HttpRequest → Session → Reply × Session
post_into net req s =
    let reply = net.ask s.attempt req in
    (
      reply,
      record s { attempt = s.attempt + 1; sent = s.sent ++ req ∷ []; out = reply.decode s.out },
    )
