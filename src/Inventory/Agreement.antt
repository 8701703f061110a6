-- ===== src/Inventory/Agreement.antt =====
-- What the mappers of internal/inventory/inventory.go keep of an object.
use hive_agent.Prelude.{String, ◌≡◌, refl, some, arith}
use hive_agent.Value.{Value, Object}
use hive_agent.Value.Fields.{get_field, set_field}
use hive_agent.Kube.Api.{Pod, Deployment, Service, Ingress}
use hive_agent.Kube.Maps.{base, pod_map, deployment_map, service_map}
use hive_agent.Inventory.Objects.{
  pod_object, deployment_object, service_object, ingress_object, pod_obj, deployment_obj,
  service_obj, ingress_obj,
}

-- Every entry of the first map is an entry of the second.
abbrev pub Within : Object → Object → Type 0
Within small large =
    (k : String) (v : Value) → get_field small k ≡ some v → get_field large k ≡ some v

-- An upsert of a pod, a deployment or a service carries only entries that the query for the same object
-- shows too, with the same values.
pub objects-Within :
    ((p : Pod) → (m : Object) × (pod_obj (pod_object p) ≡ some m) × Within m (pod_map p))
    × ((d : Deployment)
        → (m : Object) × (deployment_obj (deployment_object d) ≡ some m)
          × Within m (deployment_map d))
    × ((s : Service)
        → (m : Object) × (service_obj (service_object s) ≡ some m) × Within m (service_map s))
unfolding pod_obj deployment_obj service_obj pod_map deployment_map service_map base set_field
    get_field
objects-Within = (
  (λ p. (_, refl, λ k v h. ground (arith, h))),
  (λ d. (_, refl, λ k v h. ground (arith, h))),
  (λ s. (_, refl, λ k v h. ground (arith, h))),
)

-- The event of an ingress never tells its class: for two ingresses with the same metadata that both
-- have a class, whatever the classes are, the mapper makes the same map of the same address.
pub ingress_obj-forgets :
    (address a b : String) (i j : Ingress)
    → i.meta ≡ j.meta
    → i.class_name ≡ some a
    → j.class_name ≡ some b
    → ingress_obj (ingress_object address i) ≡ ingress_obj (ingress_object address j)
unfolding ingress_obj
ingress_obj-forgets address a b i j m p q = rw (p, q, m) refl
