-- ===== src/Inventory.antt =====
-- internal/inventory/inventory.go: the queue of deltas, the batch and the posts. The informers call
-- `enqueue`; `flush` is one goroutine, and each of its turns is a step here.
pub mod Objects
pub mod Agreement
pub mod Steps
pub mod Bounds
pub mod Delivery
pub mod Flow
pub mod Drain
pub mod Counting
pub mod Alive
mod Examples
use hive_agent.Prelude.{
  ℕ, ◌+◌, String, Bool, true, false, Option, none, some, List, [], ◌∷◌, ◌++◌, ◌==◌, not,
  if◌then◌else◌, length, ltb, leb,
}
use hive_agent.Value.{Object, string}
use hive_agent.Kube.Api.{Meta}
use hive_agent.Inventory.Objects.{RuntimeObject, accessor, Mapper, Binding, Resource, binding_of}
use hive_agent.Value.Fields.{literal}
use hive_agent.Telemetry.{Metrics}
use hive_agent.Registration.Payload.{InventoryEvent, InventoryDeltaPayload, ApiError}
use hive_agent.Registration.Retry.{Session}
use hive_agent.Registration.Client.{Client, inventory_delta}

-- What an informer hands over.
pub data Informed : Type 0 where
  runtime_object : RuntimeObject → Informed
  deleted_final_state_unknown : Option RuntimeObject → Informed
  other_object : Informed

-- A call of one of the three functions that `bind` gives to an informer.
pub data Notice : Type 0 where
  added : Informed → Notice
  updated : Informed → Informed → Notice
  deleted : Informed → Notice

-- `crashed` says whether a mapper has panicked, which ends the program.
pub record Runner : Type 0 where
  pub cluster_id : String
  pub queue : List InventoryEvent
  pub batch : List InventoryEvent
  pub metrics : Metrics
  pub crashed : Bool

abbrev pub new : String → Metrics → Runner
new cluster_id m = record {
  cluster_id = cluster_id;
  queue = [];
  batch = [];
  metrics = m;
  crashed = false;
}

-- the type assertions at the start of `enqueue`
abbrev pub as_runtime_object : Informed → Option RuntimeObject
as_runtime_object (runtime_object o) = some o
as_runtime_object (deleted_final_state_unknown o) = o
as_runtime_object other_object = none

abbrev pub tombstone : Meta → Object
tombstone m =
    literal
      (("name", string m.name) ∷ ("namespace", string m.namespace) ∷ ("uid", string m.uid) ∷ [])

-- What `enqueue` makes of an object: nothing where it returns early, a panic of the mapper, or an
-- event.
pub data Made : Type 0 where
  skipped : Made
  panicked : Made
  made_event : InventoryEvent → Made

abbrev pub object_of : String → Mapper → RuntimeObject → Meta → Option Object
object_of op mapper ro m = if not (op == "delete") then mapper ro else some (tombstone m)

unfoldable pub event_of : String → Binding → String → Informed → ℕ → Made
unfolding accessor
event_of cluster_id b op obj now = elim (as_runtime_object obj) [
  | none ↦ skipped
  | some ro ↦ elim (accessor ro) [
    | none ↦ skipped
    | some m ↦ elim (object_of op b.mapper ro m) [
      | none ↦ panicked
      | some o ↦ made_event (record {
        cluster_id = cluster_id;
        kind = b.kind;
        operation = op;
        resource_version = m.resource_version;
        object_map = o;
        timestamp = now;
      })
    ]
  ]
]

abbrev pub queue_capacity : ℕ
queue_capacity = 4096

abbrev pub batch_size : ℕ
batch_size = 200

abbrev pub count_failure : Metrics → Metrics
count_failure m = record m { inventory_failures = m.inventory_failures + 1 }

-- the `select` with its `default`
unfoldable pub offer : InventoryEvent → Runner → Runner
offer event r =
    if ltb (length r.queue) queue_capacity
    then record r { queue = r.queue ++ event ∷ [] }
    else record r { metrics = count_failure r.metrics }

unfoldable pub enqueue : Binding → String → Informed → ℕ → Runner → Runner
unfolding event_of offer
enqueue b op obj now r = elim (event_of r.cluster_id b op obj now) [
  | skipped ↦ r
  | panicked ↦ record r { crashed = true }
  | made_event e ↦ offer e r
]

abbrev pub op_of : Notice → String
op_of (added obj) = "upsert"
op_of (updated old obj) = "upsert"
op_of (deleted obj) = "delete"

abbrev pub object_in : Notice → Informed
object_in (added obj) = obj
object_in (updated old obj) = obj
object_in (deleted obj) = obj

-- the functions of `bind`
unfoldable pub handle : Resource → Notice → ℕ → Runner → Runner
unfolding enqueue
handle res n now r = enqueue (binding_of res) (op_of n) (object_in n) now r

unfoldable pub send : Client → Runner → Session → Runner × Session
send c r s =
    let events = r.batch in
    let (failure, s') =
      inventory_delta c (record { cluster_id = r.cluster_id; events = events }) s in
    elim failure [
      | some _ ↦ (record r { batch = []; metrics = count_failure r.metrics }, s')
      | none ↦ (
        record r {
          batch = [];
          metrics = record r.metrics {
            inventory_syncs = r.metrics.inventory_syncs + length events;
          };
        },
        s',
      )
    ]

-- The case `ev := <-r.queue` of `flush`; it is not taken while the queue is empty.
unfoldable pub receive : Client → Runner → Session → Runner × Session
unfolding send
receive c r s = elim r.queue [
  | [] ↦ (r, s)
  | ev ∷ later ↦
      let r' = record r { queue = later; batch = r.batch ++ ev ∷ [] } in
      if leb batch_size (length r'.batch) then send c r' s else (r', s)
]

-- The case `<-ticker.C` of `flush`.
unfoldable pub tick : Client → Runner → Session → Runner × Session
unfolding send
tick c r s = if ltb 0 (length r.batch) then send c r s else (r, s)
