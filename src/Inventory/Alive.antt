-- ===== src/Inventory/Alive.antt =====
-- No mapper of internal/inventory/inventory.go panics on what its informer delivers.
use hive_agent.Prelude.{
  ℕ, ◌≡◌, refl, ◌∙◌, inl, inr, false, some, List, [], ◌∷◌, arith, All, String, Option-cases,
  Bool-cases, length, ltb, leb, ◌++◌,
}
use hive_agent.Value.{Object}
use hive_agent.Kube.Api.{
  Meta, Pod, Node, Namespace, Deployment, DaemonSet, StatefulSet, Service, Ingress,
}
use hive_agent.Registration.Retry.{Session}
use hive_agent.Registration.Client.{Client}
use hive_agent.Inventory.Objects.{
  RuntimeObject, pod_object, node_object, namespace_object, deployment_object, replica_set_object,
  daemon_set_object, stateful_set_object, service_object, ingress_object, Resource, pod, node,
  namespace, deployment, replica_set, daemon_set, stateful_set, service, ingress, Binding,
  binding_of, accessor, meta_obj, pod_obj, node_obj, deployment_obj, service_obj, ingress_obj,
}
use hive_agent.Inventory.{
  Informed, runtime_object, Notice, added, updated, deleted, Runner, panicked, event_of, offer,
  enqueue, handle, send, receive, tick, as_runtime_object, queue_capacity, batch_size,
}
use hive_agent.Registration.Payload.{InventoryEvent}
use hive_agent.Inventory.Steps.{Made-cases, List-cases, Step, informed, received, ticked, step, run}

-- The documented behaviour of a typed informer: its objects have its type.
pub data Delivers : Resource → RuntimeObject → Type 0 where
  a_pod : {p : Pod} → Delivers pod (pod_object p)
  a_node : {n : Node} → Delivers node (node_object n)
  a_namespace : {n : Namespace} → Delivers namespace (namespace_object n)
  a_deployment : {d : Deployment} → Delivers deployment (deployment_object d)
  a_replica_set : {m : Meta} → Delivers replica_set (replica_set_object m)
  a_daemon_set : {d : DaemonSet} → Delivers daemon_set (daemon_set_object d)
  a_stateful_set : {s : StatefulSet} → Delivers stateful_set (stateful_set_object s)
  a_service : {s : Service} → Delivers service (service_object s)
  an_ingress : {address : String} {i : Ingress} → Delivers ingress (ingress_object address i)

-- Added and updated objects have the informer's type; of a deleted one nothing is asked.
abbrev pub TypedNotice : Resource → Notice → Type 0
TypedNotice res (added obj) = (o : RuntimeObject) × (obj ≡ runtime_object o) × Delivers res o
TypedNotice res (updated old obj) = (o : RuntimeObject) × (obj ≡ runtime_object o) × Delivers res o
TypedNotice res (deleted obj) = Unit

abbrev pub TypedStep : Step → Type 0
TypedStep (informed res n now) = TypedNotice res n
TypedStep received = Unit
TypedStep ticked = Unit

-- Each mapper that `Run` binds takes the objects of its informer.
mapper-total :
    {res : Resource} {o : RuntimeObject}
    → Delivers res o
    → (m : Object) × ((binding_of res).mapper o ≡ some m)
unfolding meta_obj pod_obj node_obj deployment_obj service_obj ingress_obj
mapper-total a_pod = (_, refl)
mapper-total a_node = (_, refl)
mapper-total a_namespace = (_, refl)
mapper-total a_deployment = (_, refl)
mapper-total a_replica_set = (_, refl)
mapper-total a_daemon_set = (_, refl)
mapper-total a_stateful_set = (_, refl)
mapper-total a_service = (_, refl)
mapper-total an_ingress = (_, refl)

offer-crashed : (x : InventoryEvent) (r : Runner) → (offer x r).crashed ≡ r.crashed
unfolding offer
offer-crashed x r = elim (Bool-cases (ltb (length r.queue) queue_capacity)) [
  | inl room ↦ rw (offer, room) refl
  | inr full ↦ rw (offer, full) refl
]

-- Without a panic, an informer's call leaves the flag.
enqueue-crashed :
    (b : Binding) (op : String) (obj : Informed) (now : ℕ) (r : Runner)
    → (event_of r.cluster_id b op obj now ≡ panicked → ⊥)
    → (enqueue b op obj now r).crashed ≡ r.crashed
unfolding enqueue
enqueue-crashed b op obj now r calm = elim (Made-cases (event_of r.cluster_id b op obj now)) [
  | inl e ↦ rw (enqueue, e) refl
  | inr (inl e) ↦ absurd (calm e)
  | inr (inr (x, e)) ↦ rw (enqueue, e) (offer-crashed x r)
]

upsert-calm :
    (id : String) (res : Resource) (o : RuntimeObject) (now : ℕ)
    → Delivers res o
    → event_of id (binding_of res) "upsert" (runtime_object o) now ≡ panicked
    → ⊥
unfolding event_of
upsert-calm id res o now d h =
    let (m, e) = mapper-total d in
    elim (Option-cases (accessor o)) [
      | inl n ↦ absurd (ground (arith, h, n))
      | inr (x, n) ↦ absurd (ground (arith, h, n, e))
    ]

delete-calm :
    (id : String) (res : Resource) (obj : Informed) (now : ℕ)
    → event_of id (binding_of res) "delete" obj now ≡ panicked
    → ⊥
unfolding event_of
delete-calm id res obj now h = elim (Option-cases (as_runtime_object obj)) [
  | inl e ↦ absurd (ground (arith, h, e))
  | inr (o, e) ↦ elim (Option-cases (accessor o)) [
    | inl n ↦ absurd (ground (arith, h, e, n))
    | inr (x, n) ↦ absurd (ground (arith, h, e, n))
  ]
]

send-crashed : (c : Client) (r : Runner) (s : Session) → (send c r s).0.crashed ≡ r.crashed
unfolding send
send-crashed c r s = ground arith

receive-crashed : (c : Client) (r : Runner) (s : Session) → (receive c r s).0.crashed ≡ r.crashed
unfolding receive
receive-crashed c r s = elim (List-cases r.queue) [
  | inl e ↦ rw (receive, e) refl
  | inr (x, later, e) ↦ elim (Bool-cases (leb batch_size (length (r.batch ++ x ∷ [])))) [
    | inl full ↦
        rw (receive, e, full)
          (send-crashed c (record r { queue = later; batch = r.batch ++ x ∷ [] }) s)
    | inr room ↦ rw (receive, e, room) refl
  ]
]

step-crashed :
    (c : Client) (x : Step) (r : Runner) (s : Session)
    → TypedStep x
    → (step c x r s).0.crashed ≡ r.crashed
unfolding step handle tick
step-crashed c (informed res (added obj) now) r s (o, same, d) =
    enqueue-crashed (binding_of res) "upsert" obj now r
      (rw same (upsert-calm r.cluster_id res o now d))
step-crashed c (informed res (updated old obj) now) r s (o, same, d) =
    enqueue-crashed (binding_of res) "upsert" obj now r
      (rw same (upsert-calm r.cluster_id res o now d))
step-crashed c (informed res (deleted obj) now) r s typed =
    enqueue-crashed (binding_of res) "delete" obj now r (delete-calm r.cluster_id res obj now)
step-crashed c received r s typed = receive-crashed c r s
step-crashed c ticked r s typed = elim (Bool-cases (ltb 0 (length r.batch))) [
  | inl some_left ↦ rw (tick, some_left) (send-crashed c r s)
  | inr none_left ↦ rw (tick, none_left) refl
]

-- If each informer delivers objects of its own type only, then no sequence of calls and turns makes
-- a mapper panic, whatever deletions bring, tombstones without a usable object included.
pub run-alive :
    (c : Client) (steps : List Step) (r : Runner) (s : Session)
    → All TypedStep steps
    → r.crashed ≡ false
    → (run c steps r s).0.crashed ≡ false
unfolding run
run-alive c [] r s typed alive = alive
run-alive c (x ∷ later) r s typed alive =
    run-alive c later (step c x r s).0 (step c x r s).1 typed.1
      (step-crashed c x r s typed.0 ∙ alive)
