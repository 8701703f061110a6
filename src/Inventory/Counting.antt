-- ===== src/Inventory/Counting.antt =====
-- What the metrics of internal/inventory/inventory.go tell of the events.
use hive_agent.Prelude.{
  ℕ, ◌+◌, ◌≤◌, ◌≡◌, refl, sym, ap, ap₂, ◌∙◌, inl, inr, List, [], ◌∷◌, ◌++◌, arith, length,
  length-append, ltb, leb, Bool-cases, Option-cases,
}
use mathlib.Core.List.{append-nil}
use hive_agent.Registration.Payload.{InventoryEvent, InventoryDeltaPayload}
use hive_agent.Registration.Retry.{Session}
use hive_agent.Registration.Client.{Client, inventory_delta}
use hive_agent.Inventory.{
  Made, skipped, panicked, made_event, handle, Runner, offer, enqueue, send, receive, tick,
  queue_capacity, batch_size,
}
use hive_agent.Inventory.Steps.{
  List-cases, Made-cases, made_of, Step, informed, received, ticked, step, accepted, taken, posted,
  run, all_accepted, all_posted,
}
use hive_agent.Inventory.Flow.{pending, empty_of, run-flow}

abbrev failures : Runner → ℕ
failures r = r.metrics.inventory_failures

abbrev syncs : Runner → ℕ
syncs r = r.metrics.inventory_syncs

abbrev events_of : Made → List InventoryEvent
events_of skipped = []
events_of panicked = []
events_of (made_event e) = e ∷ []

-- The events that a step makes, whether the queue takes them or not.
abbrev made : Step → Runner → List InventoryEvent
made (informed res n now) r = events_of (made_of res n now r)
made received r = []
made ticked r = []

unfoldable pub all_made : Client → List Step → Runner → Session → List InventoryEvent
unfolding step
all_made c [] r s = []
all_made c (x ∷ later) r s = let (r', s') = step c x r s in made x r ++ all_made c later r' s'

-- The counter of failures never falls; where it stays, `n` events have been posted with success.
record Counts (r q : Runner) (n : ℕ) : Type 0 where
  grows : failures r ≤ failures q
  synced : failures q ≡ failures r → syncs q ≡ syncs r + n

send-Counts : (c : Client) (r : Runner) (s : Session) → Counts r (send c r s).0 (length r.batch)
unfolding send
send-Counts c r s =
    let delta : InventoryDeltaPayload = record { cluster_id = r.cluster_id; events = r.batch } in
    elim (Option-cases (inventory_delta c delta s).0) [
      | inl fine ↦ rw (send, fine) (record { grows = omega arith; synced = λ e. refl })
      | inr (x, failed) ↦
          rw (send, failed)
            (record { grows = omega arith; synced = λ e. absurd (omega (arith, e)) })
    ]

still : (r : Runner) (n : ℕ) → n ≡ 0 → Counts r r n
still r n e = record { grows = omega arith; synced = λ h. omega (arith, e) }

receive-Counts :
    (c : Client) (r : Runner) (s : Session) → Counts r (receive c r s).0 (length (taken r r.queue))
unfolding receive
receive-Counts c r s = elim (List-cases r.queue) [
  | inl q ↦ simp (receive, q) (still r 0 refl)
  | inr (ev, later, q) ↦ elim (Bool-cases (leb batch_size (length (r.batch ++ ev ∷ [])))) [
    | inl full ↦
        let r' : Runner = record r { queue = later; batch = r.batch ++ ev ∷ [] } in
        let k = send-Counts c r' s in
        simp (receive, q, full) (record { grows = k.grows; synced = k.synced })
    | inr room ↦ simp (receive, q, room) (record { grows = omega arith; synced = λ h. omega arith })
  ]
]

-- A step that does not count a failure loses no event.
record Keeps (c : Client) (x : Step) (r : Runner) (s : Session) : Type 0 where
  counts : Counts r (step c x r s).0 (length (posted x r))
  takes : failures (step c x r s).0 ≡ failures r → accepted x r ≡ made x r

step-Keeps : (c : Client) (x : Step) (r : Runner) (s : Session) → Keeps c x r s
unfolding step
step-Keeps c (informed res n now) r s = elim (Made-cases (made_of res n now r)) [
  | inl e ↦ record { counts = rw (handle, enqueue, e) (still r 0 refl); takes = λ h. rw e refl }
  | inr (inl e) ↦ record {
    counts = rw (handle, enqueue, e) (record { grows = omega arith; synced = λ h. omega arith });
    takes = λ h. rw e refl;
  }
  | inr (inr (x, e)) ↦ elim (Bool-cases (ltb (length r.queue) queue_capacity)) [
    | inl room ↦ record {
      counts =
          rw (handle, enqueue, e, offer, room)
            (record { grows = omega arith; synced = λ h. omega arith });
      takes = λ h. rw (e, room) refl;
    }
    | inr full ↦ record {
      counts =
          rw (handle, enqueue, e, offer, full)
            (record { grows = omega arith; synced = λ h. absurd (omega (arith, h)) });
      takes = λ h. absurd (omega (arith, rw (handle, enqueue, e, offer, full) at h));
    }
  ]
]
step-Keeps c received r s = record { counts = receive-Counts c r s; takes = λ h. refl }
step-Keeps c ticked r s = elim (Bool-cases (ltb 0 (length r.batch))) [
  | inl some_left ↦ record { counts = rw (tick, some_left) (send-Counts c r s); takes = λ h. refl }
  | inr none_left ↦ record {
    counts =
        rw (tick, none_left)
          (still r (length r.batch)
            (ap (λ (l : List InventoryEvent). length l) (empty_of r.batch none_left)));
    takes = λ h. refl;
  }
]

-- A sequence of steps that does not count a failure loses no event either.
record KeepsAll (c : Client) (steps : List Step) (r : Runner) (s : Session) : Type 0 where
  counts : Counts r (run c steps r s).0 (length (all_posted c steps r s))
  takes :
      failures (run c steps r s).0 ≡ failures r → all_accepted c steps r s ≡ all_made c steps r s

run-KeepsAll : (c : Client) (steps : List Step) (r : Runner) (s : Session) → KeepsAll c steps r s
unfolding run all_accepted all_posted all_made
run-KeepsAll c [] r s = record { counts = still r 0 refl; takes = λ h. refl }
run-KeepsAll c (x ∷ later) r s =
    let (r', s') = step c x r s in
    let one = step-Keeps c x r s in
    let all = run-KeepsAll c later r' s' in
    let first : failures (run c later r' s').0 ≡ failures r → failures r' ≡ failures r =
      λ h. omega (arith, h, one.counts.grows, all.counts.grows) in
    let rest : failures (run c later r' s').0 ≡ failures r
        → failures (run c later r' s').0 ≡ failures r' =
      λ h. omega (arith, h, one.counts.grows, all.counts.grows) in
    record {
      counts = record {
        grows = omega (arith, one.counts.grows, all.counts.grows);
        synced = λ h. omega (
          arith,
          one.counts.synced (first h),
          all.counts.synced (rest h),
          length-append (posted x r) (all_posted c later r' s'),
        );
      };
      takes = λ h.
          ap₂ (λ (k l : List InventoryEvent). k ++ l) (one.takes (first h)) (all.takes (rest h));
    }

-- While the counter of inventory failures stays where it is, nothing is lost: once nothing is
-- pending, the events that were handed to posts are those pending at first and all that the
-- informers' calls made since, in this order, and the counter of synced events has grown by exactly
-- their number.
pub unfailing :
    (c : Client) (steps : List Step) (r : Runner) (s : Session)
    → (run c steps r s).0.metrics.inventory_failures ≡ r.metrics.inventory_failures
    → pending (run c steps r s).0 ≡ []
    → (all_posted c steps r s ≡ pending r ++ all_made c steps r s)
      × ((run c steps r s).0.metrics.inventory_syncs
          ≡ r.metrics.inventory_syncs + length (pending r ++ all_made c steps r s))
unfailing c steps r s same none_left =
    let all = run-KeepsAll c steps r s in
    let (flow, _) = run-flow c steps r s in
    let handed : all_posted c steps r s ≡ pending r ++ all_made c steps r s =
      sym (append-nil (all_posted c steps r s))
      ∙ ap (λ (l : List InventoryEvent). all_posted c steps r s ++ l) (sym none_left)
      ∙ sym flow
      ∙ ap (λ (l : List InventoryEvent). pending r ++ l) (all.takes same) in
    (
      handed,
      all.counts.synced same
          ∙ ap (λ (l : List InventoryEvent). r.metrics.inventory_syncs + length l) handed,
    )
