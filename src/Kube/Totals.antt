-- ===== src/Kube/Totals.antt =====
-- What the sums of `GetResourceUsage` in internal/kubernetes/client.go come to.
use hive_agent.Prelude.{
  ℕ, ◌+◌, ◌%◌, ◌^◌, ◌<◌, String, ◌≡◌, refl, ◌∙◌, Option, none, some, List, [], ◌∷◌, arith, length,
  sum_by,
}
use hive_agent.Prelude.GoMap.{lookup}
use hive_agent.Prelude.Int.{pos, of_bits}
use hive_agent.Prelude.Result.{ok}
use hive_agent.Value.{string, int, int64}
use hive_agent.Value.Fields.{literal}
use hive_agent.Kube.Api.{Clientset, Pod, Container, Quantity}
use hive_agent.Kube.Queries.{ns}
use hive_agent.Kube.Usage.{
  Usage, no_usage, add_if, add_container, add_containers, add_pods, get_resource_usage,
}

-- A resource of a container, and what is read of its quantity; nothing where it is not given.
abbrev pub amount : (Quantity → ℕ) → Option Quantity → ℕ
amount read none = 0
amount read (some q) = read q

abbrev pub total : (Quantity → ℕ) → (Container → Option Quantity) → List Pod → ℕ
total read get = sum_by (λ p. sum_by (λ ctr. amount read (get ctr)) p.containers)

module _ (read : Quantity → ℕ) (get : Container → Option Quantity) where
  -- One of the four sums over the containers of a pod, and over the pods.
  field_sum : List Container → ℕ → ℕ
  field_sum [] n = n
  field_sum (ctr ∷ rest) n = field_sum rest (add_if read (get ctr) n)

  pods_sum : List Pod → ℕ → ℕ
  pods_sum [] n = n
  pods_sum (p ∷ rest) n = pods_sum rest (field_sum p.containers n)

  add_if-amount :
      (o : Option Quantity) (n : ℕ) → n < 2 ^ 64 → add_if read o n ≡ (n + amount read o) % 2 ^ 64
  add_if-amount none n h = omega arith
  add_if-amount (some q) n h = refl

  field_sum-total :
      (l : List Container) (n : ℕ)
      → n < 2 ^ 64
      → field_sum l n ≡ (n + sum_by (λ ctr. amount read (get ctr)) l) % 2 ^ 64
  unfolding field_sum
  field_sum-total [] n h = omega arith
  field_sum-total (ctr ∷ l) n h = omega (
    arith,
    add_if-amount (get ctr) n h,
    field_sum-total l (add_if read (get ctr) n) (omega (arith, add_if-amount (get ctr) n h)),
  )

  pods_sum-total :
      (l : List Pod) (n : ℕ) → n < 2 ^ 64 → pods_sum l n ≡ (n + total read get l) % 2 ^ 64
  unfolding pods_sum
  pods_sum-total [] n h = omega arith
  pods_sum-total (p ∷ l) n h = omega (
    arith,
    field_sum-total p.containers n h,
    pods_sum-total l (field_sum p.containers n) (omega (arith, field_sum-total p.containers n h)),
  )

abbrev pub milli : Quantity → ℕ
milli q = q.milli_value

abbrev pub whole : Quantity → ℕ
whole q = q.value

abbrev pub cpu_request : Container → Option Quantity
cpu_request ctr = lookup "cpu" ctr.requests

abbrev pub cpu_limit : Container → Option Quantity
cpu_limit ctr = lookup "cpu" ctr.limits

abbrev pub memory_request : Container → Option Quantity
memory_request ctr = lookup "memory" ctr.requests

abbrev pub memory_limit : Container → Option Quantity
memory_limit ctr = lookup "memory" ctr.limits

add_containers-fields :
    (l : List Container) (u : Usage)
    → add_containers l u ≡ record {
      cpu_requests = field_sum milli cpu_request l u.cpu_requests;
      cpu_limits = field_sum milli cpu_limit l u.cpu_limits;
      memory_requests = field_sum whole memory_request l u.memory_requests;
      memory_limits = field_sum whole memory_limit l u.memory_limits;
    }
unfolding add_containers field_sum
add_containers-fields [] u = refl
add_containers-fields (ctr ∷ l) u = add_containers-fields l (add_container ctr u)

add_pods-fields :
    (l : List Pod) (u : Usage)
    → add_pods l u ≡ record {
      cpu_requests = pods_sum milli cpu_request l u.cpu_requests;
      cpu_limits = pods_sum milli cpu_limit l u.cpu_limits;
      memory_requests = pods_sum whole memory_request l u.memory_requests;
      memory_limits = pods_sum whole memory_limit l u.memory_limits;
    }
unfolding add_pods pods_sum
add_pods-fields [] u = refl
add_pods-fields (p ∷ l) u =
    add_pods-fields l (add_containers p.containers u) ∙ rw (add_containers-fields p.containers u)

-- Whatever the quantities, the four sums are the exact totals over all containers of all pods,
-- modulo 2^64.
pub add_pods-totals :
    (l : List Pod)
    → add_pods l no_usage ≡ record {
      cpu_requests = total milli cpu_request l % 2 ^ 64;
      cpu_limits = total milli cpu_limit l % 2 ^ 64;
      memory_requests = total whole memory_request l % 2 ^ 64;
      memory_limits = total whole memory_limit l % 2 ^ 64;
    }
add_pods-totals l =
    add_pods-fields l no_usage
    ∙ ground (
      arith,
      pods_sum-total milli cpu_request l 0 (omega arith),
      pods_sum-total milli cpu_limit l 0 (omega arith),
      pods_sum-total whole memory_request l 0 (omega arith),
      pods_sum-total whole memory_limit l 0 (omega arith),
    )

of_bits-small : (n : ℕ) → n < 2 ^ 63 → of_bits (n % 2 ^ 64) ≡ pos n
of_bits-small n h = ground arith

-- Where the API lists the pods and no total reaches 2^63, `GetResourceUsage` reports the number of
-- pods and the four exact totals.
pub get_resource_usage_exact :
    (c : Clientset) (namespace : String) (l : List Pod)
    → c.pods (ns namespace) ≡ ok l
    → total milli cpu_request l < 2 ^ 63
    → total milli cpu_limit l < 2 ^ 63
    → total whole memory_request l < 2 ^ 63
    → total whole memory_limit l < 2 ^ 63
    → get_resource_usage c namespace
      ≡ ok (
          literal (
            ("namespace", string namespace)
            ∷ ("podCount", int (pos (length l)))
            ∷ ("cpuRequestsMilli", int64 (pos (total milli cpu_request l)))
            ∷ ("cpuLimitsMilli", int64 (pos (total milli cpu_limit l)))
            ∷ ("memoryRequestsBytes", int64 (pos (total whole memory_request l)))
            ∷ ("memoryLimitsBytes", int64 (pos (total whole memory_limit l)))
            ∷ []))
unfolding get_resource_usage
get_resource_usage_exact c namespace l e a b d f =
    rw (e, add_pods-totals l)
      (ground (arith, of_bits-small _ a, of_bits-small _ b, of_bits-small _ d, of_bits-small _ f))
