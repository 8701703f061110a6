-- ===== src/Kube/Maps.antt =====
-- The maps that internal/kubernetes/client.go makes of the API's objects.
use hive_agent.Prelude.{String, [], ◌∷◌, length}
use hive_agent.Prelude.GoMap.{GoMap}
use hive_agent.Prelude.Int.{pos}
use hive_agent.Value.{
  Object, string, boolean, int, int32, string_pointer, labels, statuses, conditions,
}
use hive_agent.Value.Fields.{set_field, literal}
use hive_agent.Kube.Api.{
  Pod, Node, Deployment, StatefulSet, DaemonSet, Service, Ingress, Namespace, Event,
}
use hive_agent.Kube.Health.{node_ready}

unfoldable pub base : String → String → String → String → GoMap String → Object
base name namespace uid rv labels_of = literal (
    ("name", string name)
    ∷ ("namespace", string namespace)
    ∷ ("uid", string uid)
    ∷ ("resourceVersion", string rv)
    ∷ ("labels", labels labels_of)
    ∷ [])

unfoldable pub pod_map : Pod → Object
unfolding base set_field
pod_map p =
    let m = base p.name p.namespace p.uid p.resource_version p.labels in
    let m1 = set_field m "phase" (string p.phase) in
    let m2 = set_field m1 "nodeName" (string p.node_name) in
    let m3 = set_field m2 "containers" (int (pos (length p.containers))) in
    set_field m3 "containerStatuses" (statuses p.container_statuses)

unfoldable pub node_map : Node → Object
unfolding base set_field node_ready
node_map n =
    let m = base n.name "" n.uid n.resource_version n.labels in
    let m1 = set_field m "ready" (boolean (node_ready n)) in
    set_field m1 "version" (string n.kubelet_version)

unfoldable pub deployment_map : Deployment → Object
unfolding base set_field
deployment_map d =
    let m = base d.name d.namespace d.uid d.resource_version d.labels in
    let m1 = set_field m "replicas" (int32 d.replicas) in
    set_field m1 "availableReplicas" (int32 d.available_replicas)

unfoldable pub service_map : Service → Object
unfolding base set_field
service_map s =
    set_field (base s.name s.namespace s.uid s.resource_version s.labels) "type" (string s.kind)

unfoldable pub ingress_map : Ingress → Object
unfolding base set_field
ingress_map i =
    set_field (base i.name i.namespace i.uid i.resource_version i.labels) "class"
      (string_pointer i.class_name)

-- the map that `GetNamespaces` makes in its loop
unfoldable pub namespace_map : Namespace → Object
unfolding base set_field
namespace_map n =
    set_field (base n.name "" n.uid n.resource_version n.labels) "phase" (string n.phase)

-- the map that `GetStatefulSets` makes in its loop
unfoldable pub stateful_set_map : StatefulSet → Object
unfolding base set_field
stateful_set_map s =
    let m = base s.name s.namespace s.uid s.resource_version s.labels in
    let m1 = set_field m "replicas" (int32 s.replicas) in
    set_field m1 "readyReplicas" (int32 s.ready_replicas)

-- the map that `GetDaemonSets` makes in its loop
unfoldable pub daemon_set_map : DaemonSet → Object
unfolding base set_field
daemon_set_map d =
    let m = base d.name d.namespace d.uid d.resource_version d.labels in
    let m1 = set_field m "desiredNumberScheduled" (int32 d.desired_number_scheduled) in
    set_field m1 "numberReady" (int32 d.number_ready)

-- the map that `GetEvents` makes in its loop
unfoldable pub event_map : Event → Object
event_map e = literal (
    ("name", string e.name)
    ∷ ("namespace", string e.namespace)
    ∷ ("reason", string e.reason)
    ∷ ("message", string e.message)
    ∷ ("type", string e.kind)
    ∷ ("involvedObject", string e.involved_object)
    ∷ ("resourceVersion", string e.resource_version)
    ∷ [])

-- the map that `GetNodeConditions` makes in its loop
unfoldable pub node_conditions_map : Node → Object
node_conditions_map n = literal (
    ("name", string n.name)
    ∷ ("uid", string n.uid)
    ∷ ("resourceVersion", string n.resource_version)
    ∷ ("conditions", conditions n.conditions)
    ∷ [])
