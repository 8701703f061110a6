-- ===== src/Inventory/Examples.antt =====
-- Events through internal/inventory/inventory.go.
use hive_agent.Prelude.{String, ◌+◌, ◌≤◌, none, length, ◌≡◌, refl, some, List, [], ◌∷◌, ◌++◌, arith}
use hive_agent.Telemetry.{new_metrics}
use hive_agent.Registration.Client.{inventory_delta}
use hive_agent.Inventory.Objects.{pod, pod_object, pod_obj}
use hive_agent.Inventory.{
  runtime_object, other_object, deleted_final_state_unknown, Notice, added, deleted, Runner, new,
}
use hive_agent.Inventory.Steps.{Step, informed, received, ticked, run, all_accepted, all_posted}
use hive_agent.Inventory.Bounds.{IsBounded, run-IsBounded}
use hive_agent.Inventory.Delivery.{Deliveries}
use hive_agent.Inventory.Flow.{pending, run-flow}
use hive_agent.Inventory.Counting.{all_made, unfailing}
use hive_agent.Inventory.Drain.{drain, drain_posts}
use hive_agent.Samples.{client, session, looping_pod, meta_of}
use hive_agent.Kube.Api.{Ingress}

abbrev runner : Runner
runner = new "c1" new_metrics

abbrev pod_added : Notice
pod_added = added (runtime_object (pod_object looping_pod))

abbrev steps : List Step
steps =
    informed pod pod_added 1
    ∷ informed pod (added other_object) 2
    ∷ received
    ∷ informed pod (deleted (deleted_final_state_unknown (some (pod_object looping_pod)))) 3
    ∷ ticked
    ∷ received
    ∷ []

posts_one : (run client steps runner session).0.metrics.inventory_syncs ≡ 1
unfolding run inventory_delta pod_obj
posts_one = refl

run-flow_example :
    ([] ++ all_accepted client steps runner session
      ≡ all_posted client steps runner session ++ pending (run client steps runner session).0)
    × Deliveries client steps runner session
run-flow_example = run-flow client steps runner session

runner-IsBounded : IsBounded runner
runner-IsBounded = record { queue_bound = omega arith; batch_bound = omega arith }

run-IsBounded_example : IsBounded (run client steps runner session).0
run-IsBounded_example = run-IsBounded client steps runner session runner-IsBounded

abbrev waiting : Runner
waiting = (run client (informed pod pod_added 1 ∷ []) runner session).0

one_waits : length waiting.queue ≤ 1
unfolding run pod_obj
one_waits = omega arith

drain_posts_example :
    (pending (run client (drain 1) waiting session).0 ≡ [])
    × (all_posted client (drain 1) waiting session ≡ pending waiting)
drain_posts_example = drain_posts client 1 waiting session one_waits

abbrev typed_steps : List Step
typed_steps =
    informed pod pod_added 1
    ∷ received
    ∷ informed pod (deleted (deleted_final_state_unknown none)) 3
    ∷ informed pod (deleted other_object) 3
    ∷ ticked
    ∷ []

abbrev ingress_of : String → Ingress
ingress_of class = record { meta = meta_of "web"; class_name = some class }

-- A pod is added and removed, and both events are posted.
abbrev served_steps : List Step
served_steps =
    informed pod pod_added 1
    ∷ received
    ∷ informed pod (deleted (runtime_object (pod_object looping_pod))) 3
    ∷ received
    ∷ ticked
    ∷ []

none_failed :
    (run client served_steps runner session).0.metrics.inventory_failures
    ≡ runner.metrics.inventory_failures
unfolding run inventory_delta pod_obj
none_failed = refl

none_pending : pending (run client served_steps runner session).0 ≡ []
unfolding run inventory_delta pod_obj
none_pending = refl

unfailing_example :
    (all_posted client served_steps runner session
      ≡ pending runner ++ all_made client served_steps runner session)
    × ((run client served_steps runner session).0.metrics.inventory_syncs
        ≡ runner.metrics.inventory_syncs
          + length (pending runner ++ all_made client served_steps runner session))
unfailing_example = unfailing client served_steps runner session none_failed none_pending
