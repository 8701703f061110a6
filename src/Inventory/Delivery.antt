-- ===== src/Inventory/Delivery.antt =====
-- What a step of internal/inventory/inventory.go sends.
use hive_agent.Prelude.Sorting.{All-imp}
use hive_agent.Registration.Requests.{post_jwt-Exchange}
use hive_agent.Prelude.{
  Bool, All, true, ◌≢◌, String, ◌≡◌, refl, sym, ap, inl, inr, List, [], ◌∷◌, ◌++◌, arith, length,
  ltb, leb, Bool-cases,
}
use mathlib.Core.List.{append-nil}
use hive_agent.Registration.Payload.{InventoryEvent, Body, inventory_body, HttpRequest}
use hive_agent.Registration.Retry.{Session}
use hive_agent.Registration.Client.{Client, inventory_delta, post_jwt}
use hive_agent.Telemetry.{Metrics}
use hive_agent.Inventory.{Runner, send, receive, tick, batch_size}
use hive_agent.Inventory.Steps.{Step, informed, received, ticked, step, taken, posted, runner}

abbrev delta_body : String → List InventoryEvent → Body
delta_body id events = inventory_body (record { cluster_id = id; events = events })

-- From `s` to `t` nothing was sent but posts of these events, and nothing at all if there are none.
pub record Delivered (id : String) (events : List InventoryEvent) (s t : Session) : Type 0 where
  pub requests : List HttpRequest
  pub sent : t.sent ≡ s.sent ++ requests
  pub bodies : All (λ q. q.body ≡ delta_body id events) requests
  pub quiet : events ≡ [] → requests ≡ []

nothing-Delivered :
    (id : String) (events : List InventoryEvent) (s : Session) → Delivered id events s s
nothing-Delivered id events s = record {
  requests = [];
  sent = sym (append-nil s.sent);
  bodies = tt;
  quiet = λ _. refl;
}

session-send :
    (c : Client) (r : Runner) (s : Session)
    → (send c r s).1
      ≡ (post_jwt c "/api/v1/agents/inventory/delta" (delta_body r.cluster_id r.batch) s).1
unfolding send inventory_delta
session-send c r s = ground arith

send-Delivered :
    (c : Client) (r : Runner) (s : Session)
    → r.batch ≢ []
    → Delivered r.cluster_id r.batch s (send c r s).1
send-Delivered c r s some_left =
    let body = delta_body r.cluster_id r.batch in
    let ex = post_jwt-Exchange c "/api/v1/agents/inventory/delta" body s in
    rw session-send (record {
      requests = ex.sends.requests;
      sent = ex.sends.sent;
      bodies = All-imp _ _ ex.sends.requests (λ q e. ap (λ q. q.body) e) ex.sends.same;
      quiet = λ e. absurd (some_left e);
    })

snoc_ne : (l : List InventoryEvent) (x : InventoryEvent) → (l ++ x ∷ []) ≢ []
snoc_ne [] x e = ground (arith, e)
snoc_ne (y ∷ l) x e = ground (arith, e)

some_of : (l : List InventoryEvent) → ltb 0 (length l) ≡ true → l ≢ []
some_of l h e = ground (arith, h, ap length e)

receive-Delivered :
    (c : Client) (id : String) (queue batch : List InventoryEvent) (m : Metrics) (down : Bool)
    (s : Session)
    → Delivered id
        (taken (runner id queue batch m down) queue)
        s
        (receive c (runner id queue batch m down) s).1
unfolding receive
receive-Delivered c id [] batch m down s = nothing-Delivered id [] s
receive-Delivered c id (ev ∷ later) batch m down s =
    elim (Bool-cases (leb batch_size (length (batch ++ ev ∷ [])))) [
      | inl full ↦
          rw (receive, full)
            (send-Delivered c (runner id later (batch ++ ev ∷ []) m down) s (snoc_ne batch ev))
      | inr room ↦ rw (receive, room) (nothing-Delivered id [] s)
    ]

step-Delivered :
    (c : Client) (x : Step) (r : Runner) (s : Session)
    → Delivered r.cluster_id (posted x r) s (step c x r s).1
unfolding step
step-Delivered c (informed res n now) r s = nothing-Delivered r.cluster_id [] s
step-Delivered c received r s =
    receive-Delivered c r.cluster_id r.queue r.batch r.metrics r.crashed s
step-Delivered c ticked r s = elim (Bool-cases (ltb 0 (length r.batch))) [
  | inl some_left ↦ rw (tick, some_left) (send-Delivered c r s (some_of r.batch some_left))
  | inr none_left ↦ rw (tick, none_left) (nothing-Delivered r.cluster_id r.batch s)
]

-- Each step sends what `posted` says.
abbrev pub Deliveries : Client → List Step → Runner → Session → Type 0
Deliveries c [] r s = Unit
Deliveries c (x ∷ later) r s =
    Delivered r.cluster_id (posted x r) s (step c x r s).1
    × Deliveries c later (step c x r s).0 (step c x r s).1

pub run-Deliveries :
    (c : Client) (steps : List Step) (r : Runner) (s : Session) → Deliveries c steps r s
run-Deliveries c [] r s = tt
run-Deliveries c (x ∷ later) r s =
    (step-Delivered c x r s, run-Deliveries c later (step c x r s).0 (step c x r s).1)
