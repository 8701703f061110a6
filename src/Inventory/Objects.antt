-- ===== src/Inventory/Objects.antt =====
-- The objects that the informers of internal/inventory/inventory.go deliver, and the mappers
-- `metaObj` to `ingressObj`. A mapper's type assertion panics on an object of another type: `none`.
use hive_agent.Prelude.{String, Option, none, some, [], ◌∷◌}
use hive_agent.Value.{Object, string, int32, labels}
use hive_agent.Value.Fields.{set_field, literal}
use hive_agent.Kube.Api.{
  Meta, Pod, Node, Namespace, Deployment, DaemonSet, StatefulSet, Service, Ingress,
}

-- `runtime.Object`, by its dynamic type. An ingress comes with the text that `fmt` prints of the
-- address at which its class name stands; `list_object` is one that has no metadata of its own.
pub data RuntimeObject : Type 0 where
  pod_object : Pod → RuntimeObject
  node_object : Node → RuntimeObject
  namespace_object : Namespace → RuntimeObject
  deployment_object : Deployment → RuntimeObject
  replica_set_object : Meta → RuntimeObject
  daemon_set_object : DaemonSet → RuntimeObject
  stateful_set_object : StatefulSet → RuntimeObject
  service_object : Service → RuntimeObject
  ingress_object : String → Ingress → RuntimeObject
  list_object : RuntimeObject

-- `metav1.Accessor`
unfoldable pub accessor : RuntimeObject → Option Meta
accessor (pod_object p) = some p.meta
accessor (node_object n) = some n.meta
accessor (namespace_object n) = some n.meta
accessor (deployment_object d) = some d.meta
accessor (replica_set_object m) = some m
accessor (daemon_set_object d) = some d.meta
accessor (stateful_set_object s) = some s.meta
accessor (service_object s) = some s.meta
accessor (ingress_object address i) = some i.meta
accessor list_object = none

abbrev pub Mapper : Type 0
Mapper = RuntimeObject → Option Object

abbrev pub meta_map : Meta → Object
meta_map m = literal (
    ("name", string m.name)
    ∷ ("namespace", string m.namespace)
    ∷ ("uid", string m.uid)
    ∷ ("resourceVersion", string m.resource_version)
    ∷ ("labels", labels m.labels)
    ∷ [])

-- With the error of `Accessor` dropped, the calls on a nil interface panic.
unfoldable pub meta_obj : Mapper
unfolding accessor
meta_obj o = elim (accessor o) [ none ↦ none | some m ↦ some (meta_map m) ]

unfoldable pub pod_obj : Mapper
unfolding set_field
pod_obj (pod_object p) =
    let m = meta_map p.meta in
    some (set_field (set_field m "phase" (string p.phase)) "nodeName" (string p.node_name))
pod_obj _ = none

unfoldable pub node_obj : Mapper
unfolding set_field
node_obj (node_object n) = some (set_field (meta_map n.meta) "version" (string n.kubelet_version))
node_obj _ = none

unfoldable pub deployment_obj : Mapper
unfolding set_field
deployment_obj (deployment_object d) =
    let m = set_field (meta_map d.meta) "replicas" (int32 d.replicas) in
    some (set_field m "availableReplicas" (int32 d.available_replicas))
deployment_obj _ = none

unfoldable pub service_obj : Mapper
unfolding set_field
service_obj (service_object s) = some (set_field (meta_map s.meta) "type" (string s.kind))
service_obj _ = none

-- `fmt.Sprint` of a pointer to a string prints the address, or "<nil>".
abbrev pub sprint_pointer : String → Option String → String
sprint_pointer address none = "<nil>"
sprint_pointer address (some class) = address

unfoldable pub ingress_obj : Mapper
unfolding set_field
ingress_obj (ingress_object address i) =
    some (set_field (meta_map i.meta) "class" (string (sprint_pointer address i.class_name)))
ingress_obj _ = none

-- What `bind` is called with.
pub record Binding : Type 0 where
  pub kind : String
  pub mapper : Mapper

-- The nine informers of `Run`.
pub data Resource : Type 0 where
  pod node namespace deployment replica_set daemon_set stateful_set service ingress : Resource

-- the calls of `bind` in `Run`
abbrev pub binding_of : Resource → Binding
binding_of pod = record { kind = "pod"; mapper = pod_obj }
binding_of node = record { kind = "node"; mapper = node_obj }
binding_of namespace = record { kind = "namespace"; mapper = meta_obj }
binding_of deployment = record { kind = "deployment"; mapper = deployment_obj }
binding_of replica_set = record { kind = "replicaset"; mapper = meta_obj }
binding_of daemon_set = record { kind = "daemonset"; mapper = meta_obj }
binding_of stateful_set = record { kind = "statefulset"; mapper = meta_obj }
binding_of service = record { kind = "service"; mapper = service_obj }
binding_of ingress = record { kind = "ingress"; mapper = ingress_obj }
