-- ===== src/Holmes/Targets.antt =====
-- Which clusters a tool call reaches: `resolveClusters` of internal/holmesprovider/provider.go.
use hive_agent.Prelude.{
  String, ◌≡◌, ◌≢◌, refl, ap, inl, inr, ◌↔◌, Bool, true, false, some, List, [], ◌∷◌, map, ◌==◌,
  eq_iff, arith, In, filter_by, length, ltb, mem-filter_by, mem_of-filter_by, Bool-cases,
}
use hive_agent.Holmes.Types.{ClusterInfo, Target}
use hive_agent.Holmes.Registry.{ToolRegistry, has, clusters, cluster_of}
use hive_agent.Holmes.Iteration.{IsKeyed, for_capability-filter}
use hive_agent.Holmes.Members.{mem-clusters_iff}
use hive_agent.Holmes.Provider.{chosen, select_ids, select, supports, resolve_clusters}

-- The explicit ids are accepted exactly when each of them is registered, and then the clusters stand in
-- the order of the ids, one for each.
pub select_ids-chosen_iff :
    (r : ToolRegistry) (ids : List String) (l : List ClusterInfo)
    → (select_ids r ids ≡ chosen l) ↔ (map (cluster_of r) ids ≡ map some l)
unfolding select_ids
select_ids-chosen_iff r [] [] = (λ _. refl, λ _. refl)
select_ids-chosen_iff r [] (c ∷ l) = (λ e. absurd (ground arith), λ e. absurd (ground arith))
select_ids-chosen_iff r (id ∷ ids) [] =
    (λ e. absurd (ground (arith, e)), λ e. absurd (ground arith))
select_ids-chosen_iff r (id ∷ ids) (c ∷ l) =
    let (to, from) = select_ids-chosen_iff r ids l in
    (λ e. ground (arith, to, e), λ e. ground (arith, from, e))

filter_twice :
    (p : ClusterInfo → Bool) (l : List ClusterInfo) → filter_by p (filter_by p l) ≡ filter_by p l
filter_twice p [] = refl
filter_twice p (x ∷ l) = ground (arith, filter_twice p l)

-- A target that names nothing reaches the same clusters as the target `all`.
pub resolve_default-all :
    (r : ToolRegistry) (capability : String)
    → IsKeyed r
    → resolve_clusters r (record { cluster_ids = []; group = ""; all_clusters = false }) capability
      ≡ resolve_clusters r (record { cluster_ids = []; group = ""; all_clusters = true }) capability
unfolding resolve_clusters
resolve_default-all r capability k =
    rw for_capability-filter (ap chosen (filter_twice (supports capability) (clusters r)))

resolve_group :
    (r : ToolRegistry) (target : Target) (capability : String)
    → ltb 0 (length target.cluster_ids) ≡ false
    → (target.group == "") ≡ false
    → resolve_clusters r target capability
      ≡ chosen (
          filter_by (supports capability) (filter_by (λ c. has c.groups target.group) (clusters r)))
unfolding resolve_clusters
resolve_group r target capability e g = rw (resolve_clusters, select, e, g) refl

resolve_any :
    (r : ToolRegistry) (target : Target) (capability : String)
    → IsKeyed r
    → ltb 0 (length target.cluster_ids) ≡ false
    → (target.group == "") ≡ true
    → resolve_clusters r target capability ≡ chosen (filter_by (supports capability) (clusters r))
unfolding resolve_clusters
resolve_any r target capability k e g = elim (Bool-cases target.all_clusters) [
  | inl all ↦ rw (resolve_clusters, select, e, g, all) refl
  | inr none_named ↦
      rw (resolve_clusters, select, e, g, none_named, for_capability-filter)
        (ap chosen (filter_twice (supports capability) (clusters r)))
]

group_named : (target : Target) → (target.group == "") ≡ false → target.group ≢ ""
group_named target e q = ground (arith, eq_iff target.group "", e, q)

mem-filter_by_iff :
    (p : ClusterInfo → Bool) (c : ClusterInfo) (l : List ClusterInfo)
    → In c (filter_by p l) ↔ (In c l × (p c ≡ true))
mem-filter_by_iff p c l = (mem_of-filter_by p c l, λ h. mem-filter_by p c l h.0 h.1)

-- In a keyed registry, without explicit ids, the call reaches exactly the registered clusters that
-- list the capability, and, if a group is given, belong to it.
pub resolve_members :
    (r : ToolRegistry) (target : Target) (capability : String) (c : ClusterInfo)
    → IsKeyed r
    → target.cluster_ids ≡ []
    → (l : List ClusterInfo) × (resolve_clusters r target capability ≡ chosen l)
      × (In c l ↔ (
          (cluster_of r c.cluster_id ≡ some c)
          × (supports capability c ≡ true)
          × (target.group ≢ "" → has c.groups target.group ≡ true)))
resolve_members r target capability c k empty =
    let e : ltb 0 (length target.cluster_ids) ≡ false = rw empty refl in
    let (to, from) = mem-clusters_iff r c k in
    let named = λ (cluster : ClusterInfo). has cluster.groups target.group in
    let (to', from') = mem-filter_by_iff named c (clusters r) in
    elim (Bool-cases (target.group == "")) [
      | inl none_named ↦
          let (to'', from'') = mem-filter_by_iff (supports capability) c (clusters r) in
          (
            _,
            resolve_any r target capability k e none_named,
            (
              (λ m. (
                to (to'' m).0,
                (to'' m).1,
                λ q. absurd (q ((eq_iff target.group "").0 none_named)),
              )),
              (λ h. from'' (from h.0, h.1)),
            ),
          )
      | inr a_group ↦
          let (to'', from'') =
            mem-filter_by_iff (supports capability) c (filter_by named (clusters r)) in
          (
            _,
            resolve_group r target capability e a_group,
            (
              (λ m. (to (to' (to'' m).0).0, (to'' m).1, λ _. (to' (to'' m).0).1)),
              (λ h. from'' (from' (from h.0, h.2 (group_named target a_group)), h.1)),
            ),
          )
    ]
