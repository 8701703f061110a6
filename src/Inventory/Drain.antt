-- ===== src/Inventory/Drain.antt =====
-- The goroutine of `flush` in internal/inventory/inventory.go empties the queue and the batch.
use hive_agent.Prelude.{
  ℕ, zero, suc, ◌≤◌, ◌≡◌, refl, sym, ap, ◌∙◌, inl, inr, List, [], ◌∷◌, ◌++◌, arith, length, ltb,
  leb, Bool-cases,
}
use mathlib.Core.List.{append-nil}
use hive_agent.Registration.Payload.{InventoryEvent}
use hive_agent.Registration.Retry.{Session}
use hive_agent.Registration.Client.{Client}
use hive_agent.Inventory.{Runner, receive, tick, batch_size}
use hive_agent.Inventory.Bounds.{send-fields}
use hive_agent.Inventory.Steps.{
  Step, received, ticked, step, run, all_accepted, all_posted, List-cases,
}
use hive_agent.Inventory.Flow.{pending, run-flow, empty_of}

-- `n` events are received, and the ticker ticks.
abbrev pub drain : ℕ → List Step
drain zero = ticked ∷ []
drain (suc n) = received ∷ drain n

length-zero : (l : List InventoryEvent) → length l ≤ 0 → l ≡ []
length-zero [] h = refl
length-zero (x ∷ l) h = absurd (omega (arith, h))

tick-pending : (c : Client) (r : Runner) (s : Session) → r.queue ≡ [] → pending (tick c r s).0 ≡ []
unfolding tick
tick-pending c r s e = elim (Bool-cases (ltb 0 (length r.batch))) [
  | inl some_left ↦
      let (same, none_left) = send-fields c r s in rw (tick, some_left, same, none_left) e
  | inr none_left ↦ rw (tick, none_left, empty_of r.batch none_left) e
]

receive-shorter :
    (c : Client) (r : Runner) (s : Session) (n : ℕ)
    → length r.queue ≤ suc n
    → length (receive c r s).0.queue ≤ n
unfolding receive
receive-shorter c r s n h = elim (List-cases r.queue) [
  | inl e ↦ rw (receive, e, e) (ground (arith))
  | inr (x, later, e) ↦ elim (Bool-cases (leb batch_size (length (r.batch ++ x ∷ [])))) [
    | inl full ↦
        rw (receive, e, full)
          (let (same, _) =
              send-fields c (record r { queue = later; batch = r.batch ++ x ∷ [] }) s in
            rw same (ground (arith, h, ap length e)))
    | inr room ↦ rw (receive, e, room) (ground (arith, h, ap length e))
  ]
]

drain-pending :
    (c : Client) (n : ℕ) (r : Runner) (s : Session)
    → length r.queue ≤ n
    → pending (run c (drain n) r s).0 ≡ []
unfolding run step
drain-pending c zero r s h = tick-pending c r s (length-zero r.queue h)
drain-pending c (suc n) r s h =
    drain-pending c n (receive c r s).0 (receive c r s).1 (receive-shorter c r s n h)

drain-accepted : (c : Client) (n : ℕ) (r : Runner) (s : Session) → all_accepted c (drain n) r s ≡ []
unfolding all_accepted
drain-accepted c zero r s = refl
drain-accepted c (suc n) r s = drain-accepted c n (step c received r s).0 (step c received r s).1

-- Every pending event is handed to a post: once the queue's events have been received and the ticker
-- has ticked, nothing is pending, and what was handed over is just what was pending, in its order.
pub drain_posts :
    (c : Client) (n : ℕ) (r : Runner) (s : Session)
    → length r.queue ≤ n
    → (pending (run c (drain n) r s).0 ≡ []) × (all_posted c (drain n) r s ≡ pending r)
drain_posts c n r s h =
    let done = drain-pending c n r s h in
    let (flow, _) = run-flow c (drain n) r s in
    (
      done,
      sym (append-nil (all_posted c (drain n) r s))
          ∙ ap (λ l. all_posted c (drain n) r s ++ l) (sym done)
          ∙ sym flow
          ∙ ap (λ l. pending r ++ l) (drain-accepted c n r s)
          ∙ append-nil (pending r),
    )
