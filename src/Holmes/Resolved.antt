-- ===== src/Holmes/Resolved.antt =====
-- How `resolveClusters` of internal/holmesprovider/provider.go depends on the registry.
use hive_agent.Prelude.{String, ◌≡◌, refl, ◌∙◌, inl, inr, List, [], ◌∷◌, Option-cases}
use hive_agent.Holmes.Types.{Target}
use hive_agent.Holmes.Registry.{ToolRegistry, cluster_of, get_clusters_for_capability}
use hive_agent.Holmes.Provider.{select_ids, select, resolve_clusters}
use hive_agent.Holmes.Iteration.{IsKeyed, for_capability-filter}
use hive_agent.Holmes.Directory.{SameClusters, clusters-SameClusters}

select_ids-SameClusters :
    (r q : ToolRegistry) (ids : List String)
    → SameClusters r q
    → select_ids r ids ≡ select_ids q ids
unfolding select_ids
select_ids-SameClusters r q [] same = refl
select_ids-SameClusters r q (id ∷ ids) same =
    let rest = select_ids-SameClusters r q ids same in
    elim (Option-cases (cluster_of q id)) [
      | inl e ↦ rw (select_ids, same id ∙ e, e) refl
      | inr (c, e) ↦ rw (select_ids, same id ∙ e, e, rest) refl
    ]

for_capability-SameClusters :
    (r q : ToolRegistry) (capability : String)
    → IsKeyed r
    → IsKeyed q
    → SameClusters r q
    → get_clusters_for_capability r capability ≡ get_clusters_for_capability q capability
for_capability-SameClusters r q capability kr kq same =
    rw
      (
        for_capability-filter r capability kr,
        for_capability-filter q capability kq,
        clusters-SameClusters r q kr kq same,
      )
      refl

select-SameClusters :
    (r q : ToolRegistry) (target : Target) (capability : String)
    → IsKeyed r
    → IsKeyed q
    → SameClusters r q
    → select r target capability ≡ select q target capability
unfolding select
select-SameClusters r q target capability kr kq same =
    rw
      (
        select_ids-SameClusters r q target.cluster_ids same,
        clusters-SameClusters r q kr kq same,
        for_capability-SameClusters r q capability kr kq same,
      )
      refl

-- Two keyed registries in which `Cluster` answers alike for every id resolve every target for every
-- tool to the same clusters in the same order, or to the same error, whatever the order in which
-- their maps hold the agents.
pub resolve_clusters-SameClusters :
    (r q : ToolRegistry) (target : Target) (capability : String)
    → IsKeyed r
    → IsKeyed q
    → SameClusters r q
    → resolve_clusters r target capability ≡ resolve_clusters q target capability
unfolding resolve_clusters
resolve_clusters-SameClusters r q target capability kr kq same =
    rw (resolve_clusters, select-SameClusters r q target capability kr kq same) refl
