-- ===== src/Holmes/Iteration.antt =====
-- The order in which Go iterates over a map does not show in what internal/holmesprovider/registry.go
-- returns.
use hive_agent.Prelude.{
  ℕ, String, ◌≡◌, ◌≢◌, refl, sym, ap, none, List, [], ◌∷◌, map, eq_iff, arith, if◌then◌else◌, All,
  filter_by, eqb,
}
use mathlib.Core.List.{Permᴰ}
use hive_agent.Prelude.GoMap.{GoMap, lookup, insert, delete, lookup-insert, lookup-delete}
use hive_agent.Prelude.Sorting.{
  sort_by, Ascending, Distinct, sort_by-perm, sort_by-Ascending, filter_by-sort_by,
}
use hive_agent.Holmes.Types.{ToolDefinition, ClusterInfo}
use hive_agent.Holmes.Registry.{
  ToolRegistry, has, copy_cluster, add_tools, new_tool_registry, register_tool, register_agent,
  unregister_agent, values, id_of, get_clusters_for_capability, list_available_tools, clusters,
}

-- Every value stands under its own key, and no key stands twice.
abbrev pub Keyed {ℓ} : {V : Type ℓ} → (V → String) → GoMap V → Type ℓ
Keyed key [] = Unit
Keyed key ((k, v) ∷ m) = (key v ≡ k) × (lookup k m ≡ none) × Keyed key m

module _ {ℓ} {V : Type ℓ} (key : V → String) where
  Keyed-insert : (v : V) (m : GoMap V) → Keyed key m → Keyed key (insert (key v) v m)
  unfolding insert
  Keyed-insert v [] h = (refl, unfold lookup in refl, tt)
  Keyed-insert v ((k, w) ∷ m) h =
      ground (
        arith,
        Keyed-insert v m h.2,
        eq_iff k (key v),
        eq_iff (key v) k,
        lookup-insert (key v) k v m,
      )

  Keyed-delete : (k : String) (m : GoMap V) → Keyed key m → Keyed key (delete k m)
  unfolding delete
  Keyed-delete k [] h = tt
  Keyed-delete k ((j, w) ∷ m) h = ground (arith, Keyed-delete k m h.2, lookup-delete k j m)

  absent-ne :
      (k : String) (m : GoMap V) → Keyed key m → lookup k m ≡ none → All (λ v. k ≢ key v) (values m)
  unfolding lookup
  absent-ne k [] h e = tt
  absent-ne k ((j, w) ∷ m) h e =
      ((λ q. ground (arith, eq_iff j k, h.0)), absent-ne k m h.2 (ground arith))

  pub Keyed-Distinct : (m : GoMap V) → Keyed key m → Distinct key (values m)
  Keyed-Distinct [] h = tt
  Keyed-Distinct ((k, v) ∷ m) h = ((rw h.0 (absent-ne k m h.2 h.1)), Keyed-Distinct m h.2)

-- Both maps of the registry are keyed by the field that the code uses.
pub record IsKeyed (r : ToolRegistry) : Type 0 where
  pub clusters_keyed : Keyed id_of r.cluster_map
  pub tools_keyed : Keyed (λ (d : ToolDefinition). d.name) r.tool_map

-- The calls that change a registry.
pub data Change : Type 0 where
  tool_registered : ToolDefinition → Change
  agent_registered : ℕ → ClusterInfo → Change
  agent_unregistered : String → Change

unfoldable pub apply : Change → ToolRegistry → ToolRegistry
apply (tool_registered def) r = register_tool def r
apply (agent_registered now info) r = register_agent now info r
apply (agent_unregistered id) r = unregister_agent id r

unfoldable pub apply_all : List Change → ToolRegistry → ToolRegistry
apply_all [] r = r
apply_all (c ∷ later) r = apply_all later (apply c r)

pub apply-IsKeyed : (c : Change) (r : ToolRegistry) → IsKeyed r → IsKeyed (apply c r)
unfolding apply register_tool register_agent unregister_agent
apply-IsKeyed (tool_registered def) r h = record {
  clusters_keyed = h.clusters_keyed;
  tools_keyed = Keyed-insert (λ d. d.name) def r.tool_map h.tools_keyed;
}
apply-IsKeyed (agent_registered now info) r h = record {
  clusters_keyed =
      Keyed-insert id_of (if eqb info.updated_at 0 then record info { updated_at = now } else info)
        r.cluster_map h.clusters_keyed;
  tools_keyed = h.tools_keyed;
}
apply-IsKeyed (agent_unregistered id) r h = record {
  clusters_keyed = Keyed-delete id_of id r.cluster_map h.clusters_keyed;
  tools_keyed = h.tools_keyed;
}

add_tools-Keyed :
    (defs : List ToolDefinition) (m : GoMap ToolDefinition)
    → Keyed (λ d. d.name) m
    → Keyed (λ d. d.name) (add_tools defs m)
unfolding add_tools
add_tools-Keyed [] m h = h
add_tools-Keyed (d ∷ defs) m h =
    add_tools-Keyed defs (insert d.name d m) (Keyed-insert (λ d. d.name) d m h)

apply_all-IsKeyed :
    (changes : List Change) (r : ToolRegistry) → IsKeyed r → IsKeyed (apply_all changes r)
unfolding apply_all
apply_all-IsKeyed [] r h = h
apply_all-IsKeyed (c ∷ later) r h = apply_all-IsKeyed later (apply c r) (apply-IsKeyed c r h)

-- Every registry that is built from tool definitions by any changes is keyed: in both maps each
-- value stands under its own name or id, and only once.
pub built-IsKeyed :
    (defs : List ToolDefinition) (changes : List Change)
    → IsKeyed (apply_all changes (new_tool_registry defs))
unfolding new_tool_registry
built-IsKeyed defs changes =
    apply_all-IsKeyed changes (new_tool_registry defs)
      (record { clusters_keyed = tt; tools_keyed = add_tools-Keyed defs [] tt })

pub map_same : (l : List ClusterInfo) → map copy_cluster l ≡ l
map_same [] = refl
map_same (c ∷ l) = ap (λ r. c ∷ r) (map_same l)

-- In a keyed registry, whatever the order in which Go iterates over the clusters, `Clusters` returns
-- the same list, in strictly ascending order of the ids.
pub clusters_any_order :
    (r : ToolRegistry) (order : List ClusterInfo)
    → IsKeyed r
    → Permᴰ (values r.cluster_map) order
    → (clusters r ≡ sort_by id_of (map copy_cluster order)) × Ascending id_of (clusters r)
unfolding clusters
clusters_any_order r order k p =
    let d = Keyed-Distinct id_of r.cluster_map k.clusters_keyed in
    rw (map_same, map_same) (sort_by-perm id_of p d, sort_by-Ascending id_of _ d)

-- `ListAvailableTools` too returns one list whatever the order of the iteration, in strictly
-- ascending order of the names.
pub tools_any_order :
    (r : ToolRegistry) (order : List ToolDefinition)
    → IsKeyed r
    → Permᴰ (values r.tool_map) order
    → (list_available_tools r ≡ sort_by (λ d. d.name) order)
      × Ascending (λ (d : ToolDefinition). d.name) (list_available_tools r)
unfolding list_available_tools
tools_any_order r order k p =
    let d = Keyed-Distinct (λ (d : ToolDefinition). d.name) r.tool_map k.tools_keyed in
    (sort_by-perm (λ d. d.name) p d, sort_by-Ascending (λ d. d.name) _ d)

-- In a keyed registry the clusters for a capability are those of `Clusters` that list it, in the same
-- order.
pub for_capability-filter :
    (r : ToolRegistry) (capability : String)
    → IsKeyed r
    → get_clusters_for_capability r capability
      ≡ filter_by (λ c. has c.capabilities capability) (clusters r)
unfolding get_clusters_for_capability clusters
for_capability-filter r capability k = rw map_same (
    rw (clusters, map_same)
      (sym (
        filter_by-sort_by id_of (λ c. has c.capabilities capability) (values r.cluster_map)
          (Keyed-Distinct id_of r.cluster_map k.clusters_keyed))))
