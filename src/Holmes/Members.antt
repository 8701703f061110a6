-- ===== src/Holmes/Members.antt =====
-- Which clusters the lists of internal/holmesprovider/registry.go hold.
use hive_agent.Prelude.{String, ◌≡◌, ap, inl, inr, ◌↔◌, some, [], ◌∷◌, eq_iff, arith, In}
use hive_agent.Prelude.GoMap.{GoMap, lookup}
use hive_agent.Prelude.Sorting.{mem-sort_by}
use hive_agent.Holmes.Types.{ClusterInfo}
use hive_agent.Holmes.Registry.{ToolRegistry, values, id_of, clusters, cluster_of}
use hive_agent.Holmes.Iteration.{Keyed, IsKeyed, map_same}

module _ {V : Type 0} (key : V → String) where
  lookup_of-mem : (v : V) (m : GoMap V) → Keyed key m → In v (values m) → lookup (key v) m ≡ some v
  unfolding lookup
  lookup_of-mem v [] h n = absurd n.never
  lookup_of-mem v ((k, w) ∷ m) h (inl e) = ground (arith, eq_iff k (key v), h.0, e, ap key e)
  lookup_of-mem v ((k, w) ∷ m) h (inr n) =
      let found = lookup_of-mem v m h.2 n in ground (arith, eq_iff k (key v), h.1, found)

  mem_of-lookup : (k : String) (v : V) (m : GoMap V) → lookup k m ≡ some v → In v (values m)
  unfolding lookup
  mem_of-lookup k v [] e = absurd (cc)
  mem_of-lookup k v ((j, w) ∷ m) e = ground (arith, mem_of-lookup k v m)

found_of-lookup :
    (r : ToolRegistry) (c : ClusterInfo)
    → lookup c.cluster_id r.cluster_map ≡ some c
    → cluster_of r c.cluster_id ≡ some c
unfolding cluster_of
found_of-lookup r c e = ground (arith, e)

lookup_of-found :
    (r : ToolRegistry) (c : ClusterInfo)
    → cluster_of r c.cluster_id ≡ some c
    → lookup c.cluster_id r.cluster_map ≡ some c
unfolding cluster_of
lookup_of-found r c e = ground (arith, e)

-- In a keyed registry `Clusters` holds exactly the clusters that `Cluster` finds under their own ids.
pub mem-clusters_iff :
    (r : ToolRegistry) (c : ClusterInfo)
    → IsKeyed r
    → In c (clusters r) ↔ (cluster_of r c.cluster_id ≡ some c)
unfolding clusters
mem-clusters_iff r c k =
    let (to, from) = mem-sort_by id_of c (values r.cluster_map) in
    rw map_same (
      (λ m. found_of-lookup r c (lookup_of-mem id_of c r.cluster_map k.clusters_keyed (to m))),
      (λ e. from (mem_of-lookup id_of c.cluster_id c r.cluster_map (lookup_of-found r c e))),
    )
