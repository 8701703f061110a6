-- ===== src/Holmes/Registry.antt =====
-- internal/holmesprovider/registry.go. Every method holds the mutex from its first line to its return.
-- The copies that `copyCluster` makes guard against aliasing, and values here are never shared.
use hive_agent.Prelude.{
  ℕ, String, Bool, Option, none, some, List, [], ◌∷◌, map, ◌==◌, if◌then◌else◌, any, filter_by, eqb,
}
use hive_agent.Prelude.GoMap.{GoMap, lookup, insert, delete}
use hive_agent.Prelude.Sorting.{sort_by}
use hive_agent.Holmes.Types.{ToolDefinition, ClusterInfo}

pub record ToolRegistry : Type 0 where
  pub cluster_map : GoMap ClusterInfo
  pub tool_map : GoMap ToolDefinition

unfoldable pub has : List String → String → Bool
has values want = any values (λ value. value == want)

-- the copies have the same fields
abbrev pub copy_cluster : ClusterInfo → ClusterInfo
copy_cluster info = info

-- the loop over the definitions
unfoldable pub add_tools : List ToolDefinition → GoMap ToolDefinition → GoMap ToolDefinition
add_tools [] tools = tools
add_tools (def ∷ rest) tools = add_tools rest (insert def.name def tools)

unfoldable pub new_tool_registry : List ToolDefinition → ToolRegistry
unfolding add_tools
new_tool_registry definitions = record { cluster_map = []; tool_map = add_tools definitions [] }

unfoldable pub register_tool : ToolDefinition → ToolRegistry → ToolRegistry
register_tool def r = record r { tool_map = insert def.name def r.tool_map }

-- `now` is the clock; 0 stands for the zero time.
unfoldable pub register_agent : ℕ → ClusterInfo → ToolRegistry → ToolRegistry
register_agent now info r =
    let stamped = if eqb info.updated_at 0 then record info { updated_at = now } else info in
    record r { cluster_map = insert stamped.cluster_id stamped r.cluster_map }

unfoldable pub unregister_agent : String → ToolRegistry → ToolRegistry
unregister_agent cluster_id r = record r { cluster_map = delete cluster_id r.cluster_map }

unfoldable pub get_capabilities : ToolRegistry → String → List String
get_capabilities r cluster_id = elim (lookup cluster_id r.cluster_map) [
  | none ↦ []
  | some info ↦ info.capabilities
]

-- The values of a map, in the order of an iteration.
abbrev pub values {ℓ} : {V : Type ℓ} → GoMap V → List V
values m = map (λ entry. entry.1) m

abbrev pub id_of : ClusterInfo → String
id_of c = c.cluster_id

unfoldable pub get_clusters_for_capability : ToolRegistry → String → List ClusterInfo
unfolding has
get_clusters_for_capability r capability =
    sort_by id_of (
      map copy_cluster
        (filter_by (λ info. has info.capabilities capability) (values r.cluster_map)))

unfoldable pub list_available_tools : ToolRegistry → List ToolDefinition
list_available_tools r = sort_by (λ def. def.name) (values r.tool_map)

unfoldable pub tool_of : ToolRegistry → String → Option ToolDefinition
tool_of r name = lookup name r.tool_map

unfoldable pub cluster_of : ToolRegistry → String → Option ClusterInfo
cluster_of r cluster_id = elim (lookup cluster_id r.cluster_map) [
  | none ↦ none
  | some info ↦ some (copy_cluster info)
]

unfoldable pub clusters : ToolRegistry → List ClusterInfo
clusters r = sort_by id_of (map copy_cluster (values r.cluster_map))
