-- ===== src/Inventory/Flow.antt =====
-- The events of internal/inventory/inventory.go on their way through the queue and the batch.
use hive_agent.Prelude.{
  Bool, String, ◌≡◌, refl, sym, ap, ◌∙◌, inl, inr, false, List, [], ◌∷◌, ◌++◌, arith, length, ltb,
  leb, Bool-cases,
}
use mathlib.Core.List.{append_assoc, append-nil}
use hive_agent.Registration.Payload.{InventoryEvent}
use hive_agent.Registration.Retry.{Session}
use hive_agent.Registration.Client.{Client}
use hive_agent.Telemetry.{Metrics}
use hive_agent.Inventory.{
  handle, made_event, Runner, offer, enqueue, send, receive, tick, queue_capacity, batch_size,
}
use hive_agent.Inventory.Steps.{
  Made-cases, made_of, Step, informed, received, ticked, step, accepted_event, accepted, taken,
  posted, run, all_accepted, all_posted, runner,
}
use hive_agent.Inventory.Bounds.{send-fields}
use hive_agent.Inventory.Delivery.{Deliveries, run-Deliveries}

-- The events that wait, oldest first.
abbrev pub pending : Runner → List InventoryEvent
pending r = r.batch ++ r.queue

send-pending : (c : Client) (r : Runner) (s : Session) → pending (send c r s).0 ≡ r.queue
send-pending c r s = let (same, none_left) = send-fields c r s in rw (same, none_left) refl

offer-flow :
    (x : InventoryEvent) (r : Runner)
    → pending r ++ accepted_event r (made_event x) ≡ pending (offer x r)
unfolding offer
offer-flow x r = elim (Bool-cases (ltb (length r.queue) queue_capacity)) [
  | inl room ↦ rw (offer, room) (append_assoc r.batch r.queue (x ∷ []))
  | inr full ↦ rw (offer, full) (append-nil (pending r))
]

pub empty_of : (l : List InventoryEvent) → ltb 0 (length l) ≡ false → l ≡ []
empty_of [] h = refl
empty_of (x ∷ l) h = absurd (ground (arith, h))

receive-flow :
    (c : Client) (id : String) (queue batch : List InventoryEvent) (m : Metrics) (down : Bool)
    (s : Session)
    → (batch ++ queue) ++ []
      ≡ taken (runner id queue batch m down) queue
        ++ pending (receive c (runner id queue batch m down) s).0
unfolding receive
receive-flow c id [] batch m down s = append-nil (batch ++ [])
receive-flow c id (ev ∷ later) batch m down s =
    elim (Bool-cases (leb batch_size (length (batch ++ ev ∷ [])))) [
      | inl full ↦
          rw (receive, full, append-nil, send-pending) (sym (append_assoc batch (ev ∷ []) later))
      | inr room ↦ rw (receive, room, append-nil) (sym (append_assoc batch (ev ∷ []) later))
    ]

-- A step keeps the order: what was pending and what it accepts is what it posts and what is pending.
step-flow :
    (c : Client) (x : Step) (r : Runner) (s : Session)
    → pending r ++ accepted x r ≡ posted x r ++ pending (step c x r s).0
unfolding step
step-flow c (informed res n now) r s = elim (Made-cases (made_of res n now r)) [
  | inl e ↦ rw (handle, enqueue, e) (append-nil (pending r))
  | inr (inl e) ↦ rw (handle, enqueue, e) (append-nil (pending r))
  | inr (inr (x, e)) ↦ rw (handle, enqueue, e) (offer-flow x r)
]
step-flow c received r s = receive-flow c r.cluster_id r.queue r.batch r.metrics r.crashed s
step-flow c ticked r s = elim (Bool-cases (ltb 0 (length r.batch))) [
  | inl some_left ↦ rw (tick, some_left, send-pending) (append-nil (pending r))
  | inr none_left ↦
      rw (tick, none_left)
        (append-nil (pending r) ∙ ap (λ l. l ++ pending r) (sym (empty_of r.batch none_left)))
]

events-flow :
    (c : Client) (steps : List Step) (r : Runner) (s : Session)
    → pending r ++ all_accepted c steps r s ≡ all_posted c steps r s ++ pending (run c steps r s).0
unfolding run all_accepted all_posted
events-flow c [] r s = append-nil (pending r)
events-flow c (x ∷ later) r s =
    let r' = (step c x r s).0 in
    let s' = (step c x r s).1 in
    sym (append_assoc (pending r) (accepted x r) (all_accepted c later r' s'))
    ∙ ap (λ l. l ++ all_accepted c later r' s') (step-flow c x r s)
    ∙ append_assoc (posted x r) (pending r') (all_accepted c later r' s')
    ∙ ap (λ l. posted x r ++ l) (events-flow c later r' s')
    ∙ sym (append_assoc (posted x r) (all_posted c later r' s') (pending (run c later r' s').0))

-- Whatever the informers report and in whatever order the turns of `flush` come, the events pending at
-- first and those accepted are, in this order, those handed to a post, whether it succeeds or not, and
-- those pending at the end; and each step sends nothing but copies of a post of exactly the events
-- that it hands over.
pub run-flow :
    (c : Client) (steps : List Step) (r : Runner) (s : Session)
    → (pending r ++ all_accepted c steps r s
        ≡ all_posted c steps r s ++ pending (run c steps r s).0)
      × Deliveries c steps r s
run-flow c steps r s = (events-flow c steps r s, run-Deliveries c steps r s)
