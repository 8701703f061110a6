-- ===== src/Executor/Sent.antt =====
-- What `Send` of internal/websocket/manager.go hands to the connections of what the goroutines of
-- internal/executor/executor.go pass to it, and a goroutine that is not interrupted.
use hive_agent.Prelude.{
  ℕ, String, ◌≡◌, refl, sym, ap, ◌∙◌, inl, inr, Option, some, List, [], ◌∷◌, ◌++◌, map, get_elem?,
  Option-cases,
}
use hive_agent.Prelude.Int.{ℤ}
use hive_agent.Value.{Float64}
use hive_agent.Kube.Api.{Clientset}
use hive_agent.Commands.Run.{Request, Clock}
use hive_agent.Executor.{Message, Executor}
use hive_agent.Executor.Jobs.{
  Phase, starting, executing, counting, answering, finished, Crew, Event, arrives, connects, works,
  send, tell, turn, happen, happen_all,
}

abbrev pub texts : List (ℕ × Message) → List Message
texts l = map (λ x. x.1) l

texts-append :
    (l : List (ℕ × Message)) (i : ℕ) (msg : Message)
    → texts (l ++ (i, msg) ∷ []) ≡ texts l ++ msg ∷ []
texts-append [] i msg = refl
texts-append (x ∷ l) i msg = ap (λ r. x.1 ∷ r) (texts-append l i msg)

-- A connection is stored, and what was handed over is what was passed.
record IsConnected (crew : Crew) : Type 0 where
  stored : (c : ℕ) × (crew.conn ≡ some c)
  handed : texts crew.written ≡ texts crew.passed

module _ (wild : Float64 → ℤ) (e : Executor) (write_json : ℕ → Message → Option String) where
  tell-IsConnected :
      (i : ℕ) (msg : Message) (crew : Crew)
      → IsConnected crew
      → IsConnected (tell write_json i msg crew)
  unfolding tell send
  tell-IsConnected i msg crew h =
      let (c, stored) = h.stored in
      record {
        stored = (c, stored);
        handed = rw stored (
            texts-append crew.written c msg
            ∙ ap (λ l. l ++ msg ∷ []) h.handed
            ∙ sym (texts-append crew.passed i msg));
      }

  kept-IsConnected :
      (crew crew' : Crew)
      → IsConnected crew
      → (crew'.conn ≡ crew.conn) × (crew'.written ≡ crew.written) × (crew'.passed ≡ crew.passed)
      → IsConnected crew'
  kept-IsConnected crew crew' h (conn, written, passed) = record {
    stored = (h.stored.0, conn ∙ h.stored.1);
    handed = ap texts written ∙ h.handed ∙ ap texts (sym passed);
  }

  turn-IsConnected :
      (now : ℕ) (kube : Clientset) (clock : Clock) (i : ℕ) (request : Request) (phase : Phase)
      (crew : Crew)
      → IsConnected crew
      → IsConnected (
          turn wild e write_json now kube clock i
            (record { request = request; phase = phase })
            crew)
  unfolding turn
  turn-IsConnected now kube clock i cmd starting crew h =
      tell-IsConnected i _ _ (kept-IsConnected crew _ h (refl, refl, refl))
  turn-IsConnected now kube clock i cmd executing crew h =
      kept-IsConnected crew _ h (refl, refl, refl)
  turn-IsConnected now kube clock i cmd (counting res) crew h =
      kept-IsConnected crew _ h (refl, refl, refl)
  turn-IsConnected now kube clock i cmd (answering res) crew h =
      tell-IsConnected i _ _ (kept-IsConnected crew _ h (refl, refl, refl))
  turn-IsConnected now kube clock i cmd finished crew h = h

  happen-IsConnected :
      (x : Event) (crew : Crew) → IsConnected crew → IsConnected (happen wild e write_json x crew)
  unfolding happen
  happen-IsConnected (arrives cmd) crew h = kept-IsConnected crew _ h (refl, refl, refl)
  happen-IsConnected (connects c) crew h = record { stored = (c, refl); handed = h.handed }
  happen-IsConnected (works i now kube clock) crew h = elim (Option-cases (get_elem? crew.jobs i)) [
    | inl none_there ↦ rw (happen, none_there) h
    | inr (job, there) ↦
        rw (happen, there) (turn-IsConnected now kube clock i job.request job.phase crew h)
  ]

  all-IsConnected :
      (events : List Event) (crew : Crew)
      → IsConnected crew
      → IsConnected (happen_all wild e write_json events crew)
  all-IsConnected [] crew h = h
  all-IsConnected (x ∷ later) crew h =
      all-IsConnected later (happen wild e write_json x crew) (happen-IsConnected x crew h)

  -- Once a connection is stored, and if all that was passed to `Send` so far was handed to a
  -- connection, then this stays so: whatever happens, `Send` hands every message that it is given to
  -- the connection stored last, in the order in which it is called, also after reconnects.
  pub send_hands :
      (events : List Event) (crew : Crew) (c : ℕ)
      → crew.conn ≡ some c
      → texts crew.written ≡ texts crew.passed
      → texts (happen_all wild e write_json events crew).written
        ≡ texts (happen_all wild e write_json events crew).passed
  send_hands events crew c stored handed =
      (all-IsConnected events crew (record { stored = (c, stored); handed = handed })).handed
