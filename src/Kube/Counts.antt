-- ===== src/Kube/Counts.antt =====
-- What the health snapshot of internal/kubernetes/client.go counts.
use hive_agent.Prelude.{
  ◌+◌, String, ◌≡◌, refl, inl, inr, Bool, true, not, none, List, [], ◌∷◌, ◌==◌, length, filter_by,
  All, arith, eq_iff, ◌↔◌,
}
use hive_agent.Prelude.Result.{ok, Result-cases}
use hive_agent.Kube.Api.{Clientset, Node, Pod, Deployment, StatefulSet, DaemonSet}
use hive_agent.Kube.Health.{
  HealthSnapshot, node_ready, count_nodes, count_pod, count_pods, health, cluster_health,
}

abbrev pub in_phase : String → Pod → Bool
in_phase phase p = p.phase == phase

count_nodes-counts :
    (l : List Node) (out : HealthSnapshot)
    → count_nodes l out ≡ record out {
      nodes_ready = out.nodes_ready + length (filter_by node_ready l);
      nodes_not_ready = out.nodes_not_ready + length (filter_by (λ n. not (node_ready n)) l);
    }
unfolding count_nodes
count_nodes-counts [] out = ground arith
count_nodes-counts (n ∷ l) out = ground (
  arith,
  count_nodes-counts l (record out { nodes_ready = out.nodes_ready + 1 }),
  count_nodes-counts l (record out { nodes_not_ready = out.nodes_not_ready + 1 }),
)

count_pods-counts :
    (l : List Pod) (out : HealthSnapshot)
    → count_pods l out ≡ record out {
      pods_running = out.pods_running + length (filter_by (in_phase "Running") l);
      pods_pending = out.pods_pending + length (filter_by (in_phase "Pending") l);
      pods_failed = out.pods_failed + length (filter_by (in_phase "Failed") l);
    }
unfolding count_pods
count_pods-counts [] out = ground arith
count_pods-counts (p ∷ l) out = ground (
  arith,
  count_pods-counts l (count_pod p out),
  eq_iff p.phase "Running",
  eq_iff p.phase "Pending",
  eq_iff p.phase "Failed",
  eq_iff "Running" "Pending",
  eq_iff "Running" "Failed",
  eq_iff "Pending" "Failed",
)

-- The answers of the API's five lists, when it gives them all.
pub record Answers (c : Clientset) : Type 0 where
  pub nodes : List Node
  pub pods : List Pod
  pub deployments : List Deployment
  pub stateful_sets : List StatefulSet
  pub daemon_sets : List DaemonSet
  pub nodes_ok : c.nodes ≡ ok nodes
  pub pods_ok : c.pods "" ≡ ok pods
  pub deployments_ok : c.deployments "" ≡ ok deployments
  pub stateful_sets_ok : c.stateful_sets "" ≡ ok stateful_sets
  pub daemon_sets_ok : c.daemon_sets "" ≡ ok daemon_sets

-- The snapshot that these answers ask for.
abbrev pub counted : {c : Clientset} → Answers c → HealthSnapshot
counted a = record {
  nodes_ready = length (filter_by node_ready a.nodes);
  nodes_not_ready = length (filter_by (λ n. not (node_ready n)) a.nodes);
  pods_running = length (filter_by (in_phase "Running") a.pods);
  pods_pending = length (filter_by (in_phase "Pending") a.pods);
  pods_failed = length (filter_by (in_phase "Failed") a.pods);
  deployments = length a.deployments;
  stateful_sets = length a.stateful_sets;
  daemon_sets = length a.daemon_sets;
}

-- When the API answers its five lists, the snapshot counts the nodes by readiness, the pods by the
-- three phases, and the workloads, with no error.
pub health-counted : (c : Clientset) (a : Answers c) → health c ≡ (counted a, none)
unfolding health
health-counted c a =
    rw
      (
        a.nodes_ok, a.pods_ok, a.deployments_ok, a.stateful_sets_ok, a.daemon_sets_ok,
        count_nodes-counts, count_pods-counts,
      )
      (ground arith)

-- Without an error, the API has answered all five lists.
pub health-Answers : (c : Clientset) → (health c).1 ≡ none → Answers c
unfolding health
health-Answers c h = elim (Result-cases c.nodes) [
  | inr (e, p) ↦ absurd (ground arith)
  | inl (nodes, p) ↦ elim (Result-cases (c.pods "")) [
    | inr (e, q) ↦ absurd (ground arith)
    | inl (pods, q) ↦ elim (Result-cases (c.deployments "")) [
      | inr (e, r) ↦ absurd (ground arith)
      | inl (deps, r) ↦ elim (Result-cases (c.stateful_sets "")) [
        | inr (e, s) ↦ absurd (ground arith)
        | inl (ss, s) ↦ elim (Result-cases (c.daemon_sets "")) [
          | inr (e, t) ↦ absurd (ground arith)
          | inl (ds, t) ↦ record {
            nodes = nodes;
            pods = pods;
            deployments = deps;
            stateful_sets = ss;
            daemon_sets = ds;
            nodes_ok = p;
            pods_ok = q;
            deployments_ok = r;
            stateful_sets_ok = s;
            daemon_sets_ok = t;
          }
        ]
      ]
    ]
  ]
]

-- No element of the list passes the test exactly when the filter leaves nothing.
none_pass_iff :
    {A : Type 0} (p q : A → Bool) (l : List A)
    → ((x : A) → q x ≡ not (p x))
    → (length (filter_by q l) ≡ 0) ↔ All (λ x. p x ≡ true) l
none_pass_iff p q [] h = (λ _. tt, λ _. refl)
none_pass_iff p q (x ∷ l) h =
    let (to, from) = none_pass_iff p q l h in
    (λ e. ground (arith, h x, to), λ a. ground (arith, h x, from))

healthy_iff :
    (h : HealthSnapshot)
    → (cluster_health h ≡ "healthy") ↔ ((h.nodes_not_ready ≡ 0) × (h.pods_failed ≡ 0))
unfolding cluster_health
healthy_iff h = (λ e. ground (arith, eq_iff "degraded" "healthy"), λ e. ground arith)

-- Over a healthy API the verdict is "healthy" exactly when every node is ready and no pod is in
-- phase Failed.
pub cluster_health-healthy_iff :
    (c : Clientset) (a : Answers c)
    → (cluster_health (health c).0 ≡ "healthy") ↔ (
        All (λ n. node_ready n ≡ true) a.nodes × All (λ p. not (p.phase == "Failed") ≡ true) a.pods)
cluster_health-healthy_iff c a =
    let nodes = none_pass_iff node_ready (λ n. not (node_ready n)) a.nodes (λ _. refl) in
    let pods =
      none_pass_iff (λ (p : Pod). not (p.phase == "Failed")) (in_phase "Failed") a.pods
        (λ p. ground arith) in
    let (to, from) = healthy_iff (counted a) in
    rw (health-counted c a)
      (λ h. (nodes.0 (to h).0, pods.0 (to h).1), λ h. from (nodes.1 h.0, pods.1 h.1))
