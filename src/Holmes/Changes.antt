-- ===== src/Holmes/Changes.antt =====
-- What registrations and removals of internal/holmesprovider/registry.go change for `Cluster`,
-- `Tool` and `Clusters`.
use hive_agent.Prelude.{
  ℕ, String, ◌≡◌, refl, sym, ap, ◌∙◌, inl, inr, some, none, arith, eqb, eq_iff, eq_refl,
  if◌then◌else◌, List, [], ◌∷◌, Bool-cases, ◌==◌, Option,
}
use hive_agent.Prelude.GoMap.{GoMap, lookup, insert, delete, lookup-insert, lookup-delete}
use hive_agent.Holmes.Types.{ClusterInfo, ToolDefinition}
use hive_agent.Holmes.Registry.{
  ToolRegistry, register_agent, unregister_agent, register_tool, cluster_of, tool_of,
  get_capabilities, add_tools, new_tool_registry, get_capabilities,
}
use hive_agent.Holmes.Iteration.{
  Change, tool_registered, agent_registered, agent_unregistered, apply,
}

-- What `RegisterAgent` stores.
abbrev pub stamp : ℕ → ClusterInfo → ClusterInfo
stamp now info = record info { updated_at = if eqb info.updated_at 0 then now else info.updated_at }

stamped-stamp :
    (now : ℕ) (info : ClusterInfo)
    → (if eqb info.updated_at 0 then record info { updated_at = now } else info) ≡ stamp now info
stamped-stamp now info = elim (Bool-cases (eqb info.updated_at 0)) [
  | inl e ↦ rw e refl
  | inr e ↦ rw e refl
]

-- `Cluster` reads the map.
cluster_of-lookup : (r : ToolRegistry) (id : String) → cluster_of r id ≡ lookup id r.cluster_map
unfolding cluster_of
cluster_of-lookup r id = ground arith

register-map :
    (now : ℕ) (info : ClusterInfo) (r : ToolRegistry)
    → (register_agent now info r).cluster_map
      ≡ insert info.cluster_id (stamp now info) r.cluster_map
unfolding register_agent
register-map now info r = rw (stamped-stamp now info) refl

pub cluster_of-register :
    (now : ℕ) (info : ClusterInfo) (r : ToolRegistry) (id : String)
    → cluster_of (register_agent now info r) id
      ≡ (if info.cluster_id == id then some (stamp now info) else cluster_of r id)
cluster_of-register now info r id =
    cluster_of-lookup (register_agent now info r) id
    ∙ ap (lookup id) (register-map now info r)
    ∙ lookup-insert info.cluster_id id (stamp now info) r.cluster_map
    ∙ rw (cluster_of-lookup r id) refl

pub cluster_of-unregister :
    (gone : String) (r : ToolRegistry) (id : String)
    → cluster_of (unregister_agent gone r) id ≡ (if gone == id then none else cluster_of r id)
unfolding unregister_agent
cluster_of-unregister gone r id =
    cluster_of-lookup (unregister_agent gone r) id
    ∙ lookup-delete gone id r.cluster_map
    ∙ rw (cluster_of-lookup r id) refl

tool_of-register :
    (def : ToolDefinition) (r : ToolRegistry) (name : String)
    → tool_of (register_tool def r) name ≡ (if def.name == name then some def else tool_of r name)
unfolding register_tool tool_of
tool_of-register def r name = lookup-insert def.name name def r.tool_map

-- The changes of a registry, the latest first.
abbrev pub history : List Change → ToolRegistry → ToolRegistry
history [] r = r
history (c ∷ earlier) r = apply c (history earlier r)

-- The latest word on a cluster.
abbrev pub latest_cluster : List Change → String → Option ClusterInfo
latest_cluster [] id = none
latest_cluster (tool_registered def ∷ earlier) id = latest_cluster earlier id
latest_cluster (agent_registered now info ∷ earlier) id =
    if info.cluster_id == id then some (stamp now info) else latest_cluster earlier id
latest_cluster (agent_unregistered gone ∷ earlier) id =
    if gone == id then none else latest_cluster earlier id

-- The last of the definitions with a name.
abbrev pub last_tool : List ToolDefinition → String → Option ToolDefinition
last_tool [] name = none
last_tool (def ∷ rest) name = elim (last_tool rest name) [
  | some later ↦ some later
  | none ↦ if def.name == name then some def else none
]

-- The latest word on a tool; the definitions that the registry was made with come first.
abbrev pub latest_tool : List Change → List ToolDefinition → String → Option ToolDefinition
latest_tool [] defs name = last_tool defs name
latest_tool (tool_registered def ∷ earlier) defs name =
    if def.name == name then some def else latest_tool earlier defs name
latest_tool (agent_registered now info ∷ earlier) defs name = latest_tool earlier defs name
latest_tool (agent_unregistered gone ∷ earlier) defs name = latest_tool earlier defs name

lookup-add_tools :
    (defs : List ToolDefinition) (m : GoMap ToolDefinition) (name : String)
    → lookup name (add_tools defs m)
      ≡ elim (last_tool defs name) [ some def ↦ some def | none ↦ lookup name m ]
unfolding add_tools
lookup-add_tools [] m name = refl
lookup-add_tools (def ∷ rest) m name =
    ground
      (arith, lookup-add_tools rest (insert def.name def m) name, lookup-insert def.name name def m)

capabilities-cluster :
    (r : ToolRegistry) (id : String)
    → get_capabilities r id ≡ elim (cluster_of r id) [ none ↦ [] | some info ↦ info.capabilities ]
unfolding get_capabilities cluster_of
capabilities-cluster r id = ground arith

history-cluster :
    (defs : List ToolDefinition) (changes : List Change) (id : String)
    → cluster_of (history changes (new_tool_registry defs)) id ≡ latest_cluster changes id
unfolding new_tool_registry cluster_of apply register_tool lookup
history-cluster defs [] id = refl
history-cluster defs (tool_registered def ∷ earlier) id = history-cluster defs earlier id
history-cluster defs (agent_registered now info ∷ earlier) id =
    cluster_of-register now info (history earlier (new_tool_registry defs)) id
    ∙ rw (history-cluster defs earlier id) refl
history-cluster defs (agent_unregistered gone ∷ earlier) id =
    cluster_of-unregister gone (history earlier (new_tool_registry defs)) id
    ∙ rw (history-cluster defs earlier id) refl

history-tool :
    (defs : List ToolDefinition) (changes : List Change) (name : String)
    → tool_of (history changes (new_tool_registry defs)) name ≡ latest_tool changes defs name
unfolding new_tool_registry tool_of apply register_agent unregister_agent lookup
history-tool defs [] name = lookup-add_tools defs [] name ∙ ground arith
history-tool defs (tool_registered def ∷ earlier) name =
    tool_of-register def (history earlier (new_tool_registry defs)) name
    ∙ rw (history-tool defs earlier name) refl
history-tool defs (agent_registered now info ∷ earlier) name = history-tool defs earlier name
history-tool defs (agent_unregistered gone ∷ earlier) name = history-tool defs earlier name

-- A registry answers by the latest word, whatever was registered and removed since it was made:
-- `Cluster` gives the last registration of the id with its time filled in, unless a removal came
-- after it, `GetCapabilities` gives the capabilities of that cluster, and `Tool` gives the last
-- definition of the name.
pub registry-latest :
    (defs : List ToolDefinition) (changes : List Change)
    → ((id : String)
        → (cluster_of (history changes (new_tool_registry defs)) id ≡ latest_cluster changes id)
          × (get_capabilities (history changes (new_tool_registry defs)) id
              ≡ elim (latest_cluster changes id) [ none ↦ [] | some info ↦ info.capabilities ]))
      × ((name : String)
          → tool_of (history changes (new_tool_registry defs)) name ≡ latest_tool changes defs name)
registry-latest defs changes = (
  λ id. (
    history-cluster defs changes id,
    capabilities-cluster _ id ∙ rw (history-cluster defs changes id) refl,
  ),
  λ name. history-tool defs changes name,
)

delete_absent : (key : String) (m : GoMap ClusterInfo) → lookup key m ≡ none → delete key m ≡ m
unfolding lookup delete
delete_absent key [] h = refl
delete_absent key ((k, v) ∷ rest) h = ground (arith, h, delete_absent key rest)

delete-insert :
    (key : String) (v : ClusterInfo) (m : GoMap ClusterInfo)
    → lookup key m ≡ none
    → delete key (insert key v m) ≡ m
unfolding lookup insert delete
delete-insert key v [] h = ground (arith, eq_iff key key)
delete-insert key v ((k, w) ∷ rest) h = ground (arith, h, delete-insert key v rest, eq_iff k key)

-- A registration and the removal of the same cluster cancel: where the registry has no cluster with
-- the id, `Cluster` finds the registered one in between, and afterwards the registry is what it was.
pub register_unregister :
    (now : ℕ) (info : ClusterInfo) (r : ToolRegistry)
    → cluster_of r info.cluster_id ≡ none
    → (cluster_of (register_agent now info r) info.cluster_id ≡ some (stamp now info))
      × (unregister_agent info.cluster_id (register_agent now info r) ≡ r)
unfolding unregister_agent register_agent
register_unregister now info r h =
    let absent = sym (cluster_of-lookup r info.cluster_id) ∙ h in
    (
      cluster_of-register now info r info.cluster_id ∙ rw (eq_refl info.cluster_id) refl,
      rw (stamped-stamp now info)
          (rw (delete-insert info.cluster_id (stamp now info) r.cluster_map absent) refl),
    )
