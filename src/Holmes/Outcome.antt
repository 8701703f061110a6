-- ===== src/Holmes/Outcome.antt =====
-- What `Invoke` of internal/holmesprovider/provider.go returns and what it records.
use hive_agent.Prelude.{
  ℕ, ◌<◌, ◌+◌, String, ◌≡◌, ◌≢◌, refl, inl, inr, ◌⊎◌, Bool, false, some, List, [], ◌∷◌, ◌==◌,
  eq_iff, arith, eqb, if◌then◌else◌, length, filter_by, get_elem?, In, All, Bool-cases,
  Option-cases,
}
use hive_agent.Prelude.GoMap.{GoMap, lookup, insert, lookup-insert}
use hive_agent.Holmes.Types.{
  ToolDefinition, ClusterInfo, ToolInvocation, AggregatedResult, AuditRecord,
}
use hive_agent.Holmes.Registry.{tool_of}
use hive_agent.Holmes.Provider.{
  Provider, Dispatcher, Clock, Selected, chosen, refused, ProviderError, resolve_clusters, or_zero,
  count_providers, context_for, cluster_ids, result_at, invoke,
}
use hive_agent.Holmes.Schedules.{schedule_irrelevant}

Selected-cases {ℓ} :
    {A : Type ℓ} (s : Selected A)
    → ((a : A) × (s ≡ chosen a)) ⊎ ((e : ProviderError) × (s ≡ refused e))
Selected-cases (chosen a) = inl (a, refl)
Selected-cases (refused e) = inr (e, refl)

not_empty : (l : List ClusterInfo) → l ≢ [] → eqb (length l) 0 ≡ false
not_empty [] n = absurd (n refl)
not_empty (c ∷ l) n = ground arith

-- The number of records that belong to an answer.
abbrev pub records_due : Bool → Selected AggregatedResult → ℕ
records_due audit (refused e) = 0
records_due audit (chosen answer) = if audit then 1 else 0

-- A call that returns an error is never recorded, and one that answers is recorded exactly once
-- if there is a sink.
pub invoke-records :
    (p : Provider) (clock : Clock) (schedule : List ℕ) (inv : ToolInvocation)
    → length (invoke p clock schedule inv).1 ≡ records_due p.audit (invoke p clock schedule inv).0
unfolding invoke
invoke-records p clock schedule inv = elim (Option-cases p.dispatcher) [
  | inl e ↦ rw (invoke, e) refl
  | inr (d, e) ↦ elim (Option-cases (tool_of p.registry inv.tool)) [
    | inl t ↦ rw (invoke, e, t) refl
    | inr (_, t) ↦ elim (Selected-cases (resolve_clusters p.registry inv.target inv.tool)) [
      | inl (l, s) ↦ elim (Bool-cases (eqb (length l) 0)) [
        | inl n ↦ rw (invoke, e, t, s, n) refl
        | inr n ↦ elim (Bool-cases p.audit) [
          | inl a ↦ rw (invoke, e, t, s, n, a) refl
          | inr a ↦ rw (invoke, e, t, s, n, a) refl
        ]
      ]
      | inr (x, s) ↦ rw (invoke, e, t, s) refl
    ]
  ]
]

-- With a dispatcher, a known tool, and at least one cluster that the target resolves to, the call
-- answers once every goroutine has ended, in whatever order: the slot of each cluster holds its own
-- result, the field `Data` holds the same results, and the context and the record count and name the
-- same clusters.
pub invoke_answers :
    (p : Provider) (d : Dispatcher) (clock : Clock) (schedule : List ℕ) (inv : ToolInvocation)
    (def : ToolDefinition) (l : List ClusterInfo)
    → p.dispatcher ≡ some d
    → tool_of p.registry inv.tool ≡ some def
    → resolve_clusters p.registry inv.target inv.tool ≡ chosen l
    → l ≢ []
    → ((i : ℕ) → i < length l → In i schedule)
    → (answer : AggregatedResult) × ((invoke p clock schedule inv).0 ≡ chosen answer)
      × (length answer.results ≡ length l)
      × ((i : ℕ) (c : ClusterInfo)
          → get_elem? l i ≡ some c
          → get_elem? answer.results i ≡ some (result_at d inv i c))
      × (answer.data_map ≡ ("results", answer.results) ∷ [])
      × (answer.context.cluster_count ≡ length l)
      × All
          (λ (r : AuditRecord). (r.clusters_targeted ≡ cluster_ids l) × (r.result_count ≡ length l))
          (invoke p clock schedule inv).1
unfolding invoke
invoke_answers p d clock schedule inv def l e t s n complete =
    let (long, right) = schedule_irrelevant d inv l schedule complete in
    let some_cluster = not_empty l n in
    elim (Bool-cases p.audit) [
      | inl a ↦
          rw (invoke, e, t, s, some_cluster, a)
            (_, refl, long, right, refl, refl, ((refl, long), tt))
      | inr a ↦ rw (invoke, e, t, s, some_cluster, a) (_, refl, long, right, refl, refl, tt)
    ]

count_providers-lookup :
    (name : String) (l : List ClusterInfo) (m : GoMap ℕ)
    → or_zero (lookup name (count_providers l m))
      ≡ or_zero (lookup name m) + length (filter_by (λ c. c.provider == name) l)
unfolding count_providers
count_providers-lookup name [] m = omega arith
count_providers-lookup name (c ∷ l) m =
    let e =
      count_providers-lookup name l (insert c.provider (or_zero (lookup c.provider m) + 1) m) in
    rw e (
      ground (
        arith,
        eq_iff c.provider name,
        lookup-insert c.provider name (or_zero (lookup c.provider m) + 1) m,
      ))

-- The breakdown gives for each provider the number of the targeted clusters that have it.
pub context_for-breakdown :
    (name : String) (l : List ClusterInfo)
    → or_zero (lookup name (context_for l).provider_breakdown)
      ≡ length (filter_by (λ c. c.provider == name) l)
unfolding context_for lookup
context_for-breakdown name l = omega (arith, count_providers-lookup name l [])
