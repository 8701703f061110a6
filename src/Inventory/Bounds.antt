-- ===== src/Inventory/Bounds.antt =====
-- The bounds of the queue and of the batch in internal/inventory/inventory.go.
use hive_agent.Prelude.{
  ◌≤◌, ◌<◌, ◌≡◌, ap, inl, inr, List, [], ◌∷◌, ◌++◌, arith, length, ltb, leb, length-append,
  Bool-cases,
}
use hive_agent.Registration.Payload.{InventoryEvent}
use hive_agent.Registration.Retry.{Session}
use hive_agent.Registration.Client.{Client}
use hive_agent.Inventory.{
  Runner, offer, enqueue, handle, send, receive, tick, queue_capacity, batch_size,
}
use hive_agent.Inventory.Steps.{
  Step, informed, received, ticked, step, made_of, run, List-cases, Made-cases,
}

-- The queue is within its capacity and the batch is not full.
pub record IsBounded (r : Runner) : Type 0 where
  pub queue_bound : length r.queue ≤ queue_capacity
  pub batch_bound : length r.batch < batch_size

pub send-fields :
    (c : Client) (r : Runner) (s : Session)
    → ((send c r s).0.queue ≡ r.queue) × ((send c r s).0.batch ≡ [])
unfolding send
send-fields c r s = ground arith

send-IsBounded :
    (c : Client) (r : Runner) (s : Session)
    → length r.queue ≤ queue_capacity
    → IsBounded (send c r s).0
send-IsBounded c r s h =
    let (same, none_left) = send-fields c r s in
    record { queue_bound = rw same h; batch_bound = rw none_left (omega arith) }

offer-IsBounded : (event : InventoryEvent) (r : Runner) → IsBounded r → IsBounded (offer event r)
unfolding offer
offer-IsBounded event r h = elim (Bool-cases (ltb (length r.queue) queue_capacity)) [
  | inl room ↦
      rw (offer, room)
        (record {
          queue_bound = ground (arith, length-append r.queue (event ∷ []));
          batch_bound = h.batch_bound;
        })
  | inr full ↦
      rw (offer, full) (record { queue_bound = h.queue_bound; batch_bound = h.batch_bound })
]

step-IsBounded :
    (c : Client) (x : Step) (r : Runner) (s : Session) → IsBounded r → IsBounded (step c x r s).0
unfolding step
step-IsBounded c (informed res n now) r s h = elim (Made-cases (made_of res n now r)) [
  | inl e ↦ rw (handle, enqueue, e) h
  | inr (inl e) ↦
      rw (handle, enqueue, e) (record { queue_bound = h.queue_bound; batch_bound = h.batch_bound })
  | inr (inr (x, e)) ↦ rw (handle, enqueue, e) (offer-IsBounded x r h)
]
step-IsBounded c received r s h = elim (List-cases r.queue) [
  | inl e ↦ rw (receive, e) h
  | inr (ev, later, e) ↦
      let short = length later ≤ queue_capacity in
      elim (Bool-cases (leb batch_size (length (r.batch ++ ev ∷ [])))) [
        | inl full ↦ rw (receive, e, full) (send-IsBounded c _ s (ground (arith, e, ap length e)))
        | inr room ↦
            rw (receive, e, room)
              (record { queue_bound = ground (arith, e, ap length e); batch_bound = ground arith })
      ]
]
step-IsBounded c ticked r s h = elim (Bool-cases (ltb 0 (length r.batch))) [
  | inl some_left ↦ rw (tick, some_left) (send-IsBounded c r s h.queue_bound)
  | inr none_left ↦ rw (tick, none_left) h
]

-- The queue never exceeds its capacity, and between two turns the batch is never full.
pub run-IsBounded :
    (c : Client) (steps : List Step) (r : Runner) (s : Session)
    → IsBounded r
    → IsBounded (run c steps r s).0
unfolding run
run-IsBounded c [] r s h = h
run-IsBounded c (x ∷ later) r s h =
    run-IsBounded c later (step c x r s).0 (step c x r s).1 (step-IsBounded c x r s h)
