-- ===== src/Inventory/Steps.antt =====
-- Sequences of the informers' calls and of the turns of `flush` in internal/inventory/inventory.go.
use hive_agent.Prelude.{
  ℕ, String, ◌≡◌, refl, inl, inr, ◌⊎◌, Bool, List, [], ◌∷◌, ◌++◌, if◌then◌else◌, length, ltb, leb,
}
use hive_agent.Registration.Payload.{InventoryEvent}
use hive_agent.Registration.Retry.{Session}
use hive_agent.Registration.Client.{Client}
use hive_agent.Telemetry.{Metrics}
use hive_agent.Inventory.Objects.{Resource, binding_of}
use hive_agent.Inventory.{
  Notice, Made, skipped, panicked, made_event, handle, op_of, object_in, Runner, event_of, receive,
  tick, queue_capacity, batch_size,
}

-- What happens to a runner: an informer's call, or a turn of `flush`.
pub data Step : Type 0 where
  informed : Resource → Notice → ℕ → Step
  received : Step
  ticked : Step

-- A step, and the batches that it posts.
unfoldable pub step : Client → Step → Runner → Session → Runner × Session
unfolding handle receive tick
step c (informed res n now) r s = (handle res n now r, s)
step c received r s = receive c r s
step c ticked r s = tick c r s

-- The events that a step takes into the queue.
abbrev pub accepted_event : Runner → Made → List InventoryEvent
accepted_event r skipped = []
accepted_event r panicked = []
accepted_event r (made_event e) = if ltb (length r.queue) queue_capacity then e ∷ [] else []

abbrev pub made_of : Resource → Notice → ℕ → Runner → Made
made_of res n now r = event_of r.cluster_id (binding_of res) (op_of n) (object_in n) now

abbrev pub accepted : Step → Runner → List InventoryEvent
accepted (informed res n now) r = accepted_event r (made_of res n now r)
accepted received r = []
accepted ticked r = []

-- The events that a step posts, in order.
abbrev pub taken : Runner → List InventoryEvent → List InventoryEvent
taken r [] = []
taken r (ev ∷ later) =
    let batch = r.batch ++ ev ∷ [] in if leb batch_size (length batch) then batch else []

abbrev pub posted : Step → Runner → List InventoryEvent
posted (informed res n now) r = []
posted received r = taken r r.queue
posted ticked r = r.batch

unfoldable pub run : Client → List Step → Runner → Session → Runner × Session
unfolding step
run c [] r s = (r, s)
run c (x ∷ later) r s = let (r', s') = step c x r s in run c later r' s'

unfoldable pub all_accepted : Client → List Step → Runner → Session → List InventoryEvent
unfolding step
all_accepted c [] r s = []
all_accepted c (x ∷ later) r s =
    let (r', s') = step c x r s in accepted x r ++ all_accepted c later r' s'

unfoldable pub all_posted : Client → List Step → Runner → Session → List InventoryEvent
unfolding step
all_posted c [] r s = []
all_posted c (x ∷ later) r s = let (r', s') = step c x r s in posted x r ++ all_posted c later r' s'

abbrev pub runner : String → List InventoryEvent → List InventoryEvent → Metrics → Bool → Runner
runner id queue batch m down = record {
  cluster_id = id;
  queue = queue;
  batch = batch;
  metrics = m;
  crashed = down;
}

pub List-cases {ℓ} : {A : Type ℓ} (l : List A) → (l ≡ []) ⊎ ((x : A) × (xs : List A) × (l ≡ x ∷ xs))
List-cases [] = inl refl
List-cases (x ∷ xs) = inr (x, xs, refl)

pub Made-cases :
    (m : Made) → (m ≡ skipped) ⊎ ((m ≡ panicked) ⊎ ((e : InventoryEvent) × (m ≡ made_event e)))
Made-cases skipped = inl refl
Made-cases panicked = inr (inl refl)
Made-cases (made_event e) = inr (inr (e, refl))
