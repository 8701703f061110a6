-- ===== src/Kube/Usage.antt =====
-- `GetResourceUsage` and `ClusterMetadata` of internal/kubernetes/client.go. The four sums are `int64`
-- and wrap; a sum is kept as its bit pattern.
use hive_agent.Prelude.{
  ℕ, ◌+◌, ◌%◌, ◌^◌, String, Option, none, some, List, [], ◌∷◌, ◌==◌, if◌then◌else◌, length,
}
use hive_agent.Prelude.GoMap.{lookup}
use hive_agent.Prelude.Int.{pos, of_bits}
use hive_agent.Prelude.Result.{Result, ok, ◌>>=◌}
use hive_agent.Value.{Object, string, int, int64}
use hive_agent.Value.Fields.{literal}
use hive_agent.Kube.Api.{Clientset, Pod, Container, Quantity}
use hive_agent.Kube.Queries.{ns}

pub record Usage : Type 0 where
  pub cpu_requests : ℕ
  pub cpu_limits : ℕ
  pub memory_requests : ℕ
  pub memory_limits : ℕ

-- `+=` on an `int64`, if the key is there
abbrev pub add_if : (Quantity → ℕ) → Option Quantity → ℕ → ℕ
add_if read none n = n
add_if read (some q) n = (n + read q) % 2 ^ 64

-- the body of the inner loop
unfoldable pub add_container : Container → Usage → Usage
unfolding lookup
add_container ctr u = record {
  cpu_requests = add_if (λ q. q.milli_value) (lookup "cpu" ctr.requests) u.cpu_requests;
  cpu_limits = add_if (λ q. q.milli_value) (lookup "cpu" ctr.limits) u.cpu_limits;
  memory_requests = add_if (λ q. q.value) (lookup "memory" ctr.requests) u.memory_requests;
  memory_limits = add_if (λ q. q.value) (lookup "memory" ctr.limits) u.memory_limits;
}

unfoldable pub add_containers : List Container → Usage → Usage
unfolding add_container
add_containers [] u = u
add_containers (ctr ∷ rest) u = add_containers rest (add_container ctr u)

unfoldable pub add_pods : List Pod → Usage → Usage
unfolding add_containers
add_pods [] u = u
add_pods (p ∷ rest) u = add_pods rest (add_containers p.containers u)

abbrev pub no_usage : Usage
no_usage = record { cpu_requests = 0; cpu_limits = 0; memory_requests = 0; memory_limits = 0 }

unfoldable pub get_resource_usage : Clientset → String → Result Object
unfolding ns add_pods
get_resource_usage c namespace = do
  pods ← c.pods (ns namespace)
  let u = add_pods pods no_usage
  ok (
      literal (
        ("namespace", string namespace)
        ∷ ("podCount", int (pos (length pods)))
        ∷ ("cpuRequestsMilli", int64 (of_bits u.cpu_requests))
        ∷ ("cpuLimitsMilli", int64 (of_bits u.cpu_limits))
        ∷ ("memoryRequestsBytes", int64 (of_bits u.memory_requests))
        ∷ ("memoryLimitsBytes", int64 (of_bits u.memory_limits))
        ∷ []))

pub record Metadata : Type 0 where
  pub kubernetes_version : String
  pub cluster_uid : String
  pub node_count : ℕ

-- `short_hash` stands for the first eight bytes of the SHA-256 sum in hexadecimal.
unfoldable pub cluster_metadata : (String → String) → Clientset → Result Metadata
cluster_metadata short_hash c = do
  version ← c.server_version
  system ← c.namespace "kube-system"
  nodes ← c.nodes
  ok (record {
    kubernetes_version = version;
    cluster_uid = if system.uid == "" then short_hash version else system.uid;
    node_count = length nodes;
  })
