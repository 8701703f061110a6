-- ===== src/Holmes/Examples.antt =====
-- A registry and a provider of internal/holmesprovider with two clusters.
use hive_agent.Prelude.{
  ℕ, String, ◌<◌, ◌≡◌, ◌≢◌, ◌↔◌, refl, true, false, none, some, List, [], ◌∷◌, arith, length,
  get_elem?, All, In, inl, inr, ◌==◌, eq_iff, subst, Bool-cases,
}
use hive_agent.Prelude.Int.{pos}
use hive_agent.Prelude.Sorting.{sort_by}
use hive_agent.Prelude.GoMap.{lookup}
use hive_agent.Value.{nil}
use hive_agent.Holmes.Types.{
  ToolDefinition, ClusterInfo, Target, ToolInvocation, AggregatedResult, AuditRecord,
}
use hive_agent.Holmes.Tools.{kubernetes_tool_definitions, tool, empty_params}
use hive_agent.Holmes.Registry.{
  ToolRegistry, has, new_tool_registry, tool_of, cluster_of, clusters, get_capabilities,
}
use hive_agent.Holmes.Provider.{
  Provider, Dispatcher, Clock, chosen, supports, resolve_clusters, cluster_ids, result_at, invoke,
}
use hive_agent.Holmes.Iteration.{
  IsKeyed, Change, agent_registered, agent_unregistered, tool_registered,
}
use hive_agent.Holmes.Changes.{history, latest_cluster, latest_tool, registry-latest}
use hive_agent.Holmes.Directory.{SameClusters}
use hive_agent.Holmes.Resolved.{resolve_clusters-SameClusters}
use hive_agent.Holmes.Targets.{resolve_members}
use hive_agent.Holmes.Outcome.{records_due, invoke-records, invoke_answers}

abbrev east : ClusterInfo
east = record {
  cluster_id = "east";
  cluster_name = "East";
  provider = "gke";
  groups = "prod" ∷ [];
  capabilities = "get_nodes" ∷ [];
  updated_at = 3;
}

abbrev west : ClusterInfo
west = record {
  cluster_id = "west";
  cluster_name = "West";
  provider = "eks";
  groups = [];
  capabilities = "get_nodes" ∷ "get_pods" ∷ [];
  updated_at = 4;
}

abbrev nodes_tool : ToolDefinition
nodes_tool = tool "get_nodes" "List Kubernetes nodes." empty_params

abbrev changes : List Change
changes = agent_registered 9 west ∷ agent_registered 9 east ∷ []

abbrev registry : ToolRegistry
registry = record {
  cluster_map = ("west", west) ∷ ("east", east) ∷ [];
  tool_map = ("get_nodes", nodes_tool) ∷ [];
}

registry-IsKeyed : IsKeyed registry
unfolding lookup
registry-IsKeyed = record {
  clusters_keyed = (refl, refl, (refl, refl, tt));
  tools_keyed = (refl, refl, tt);
}

abbrev prod : Target
prod = record { cluster_ids = []; group = "prod"; all_clusters = false }

resolve_members_example :
    (l : List ClusterInfo) × (resolve_clusters registry prod "get_nodes" ≡ chosen l)
    × (In east l ↔ (
        (cluster_of registry "east" ≡ some east)
        × (supports "get_nodes" east ≡ true)
        × (¬ (prod.group ≡ "") → has ("prod" ∷ []) "prod" ≡ true)))
resolve_members_example = resolve_members registry prod "get_nodes" east registry-IsKeyed refl

abbrev dispatcher : Dispatcher
dispatcher = record {
  dispatch_tool = λ i cluster command. (
    record {
      cluster_id = cluster.cluster_id;
      cluster_name = cluster.cluster_name;
      command = command.command;
      request_id = command.request_id;
      timestamp = 7;
      data_value = nil;
      status = "success";
      error = "";
      duration_millis = pos 2;
    },
    none,
  );
  now = λ i. 8;
}

abbrev provider : Provider
provider = record { registry = registry; dispatcher = some dispatcher; audit = true }

abbrev clock : Clock
clock = record { finished = 9; elapsed = pos 5; audited = 10 }

abbrev invocation : ToolInvocation
invocation = record {
  request_id = "r1";
  tool = "get_nodes";
  target = record { cluster_ids = []; group = ""; all_clusters = true };
  parameters = none;
}

invoke-records_example :
    length (invoke provider clock (1 ∷ 0 ∷ []) invocation).1
    ≡ records_due true (invoke provider clock (1 ∷ 0 ∷ []) invocation).0
invoke-records_example = invoke-records provider clock (1 ∷ 0 ∷ []) invocation

knows_tool : tool_of registry "get_nodes" ≡ some nodes_tool
unfolding tool_of lookup
knows_tool = refl

both_resolved : resolve_clusters registry invocation.target "get_nodes" ≡ chosen (east ∷ west ∷ [])
unfolding resolve_clusters clusters sort_by
both_resolved = refl

not_none : (east ∷ west ∷ []) ≢ []
not_none e = ground (arith, e)

both_end : (i : ℕ) → i < 2 → In i (1 ∷ 0 ∷ [])
both_end i h = ground (arith, h)

invoke_answers_example :
    (answer : AggregatedResult) × ((invoke provider clock (1 ∷ 0 ∷ []) invocation).0
      ≡ chosen answer)
    × (length answer.results ≡ 2)
    × ((i : ℕ) (c : ClusterInfo)
        → get_elem? (east ∷ west ∷ []) i ≡ some c
        → get_elem? answer.results i ≡ some (result_at dispatcher invocation i c))
    × (answer.data_map ≡ ("results", answer.results) ∷ [])
    × (answer.context.cluster_count ≡ 2)
    × All
        (λ (r : AuditRecord).
          (r.clusters_targeted ≡ cluster_ids (east ∷ west ∷ [])) × (r.result_count ≡ 2))
        (invoke provider clock (1 ∷ 0 ∷ []) invocation).1
invoke_answers_example =
    invoke_answers provider dispatcher clock (1 ∷ 0 ∷ []) invocation nodes_tool (east ∷ west ∷ [])
      refl knows_tool both_resolved not_none both_end

-- the latest change first
abbrev recent : List Change
recent =
    agent_unregistered "west"
    ∷ agent_registered 12 (record east { updated_at = 0 })
    ∷ tool_registered nodes_tool
    ∷ agent_registered 9 west
    ∷ []

east_latest : latest_cluster recent "east" ≡ some (record east { updated_at = 12 })
east_latest = refl

registry-latest_example :
    ((id : String)
      → (cluster_of (history recent (new_tool_registry kubernetes_tool_definitions)) id
          ≡ latest_cluster recent id)
        × (get_capabilities (history recent (new_tool_registry kubernetes_tool_definitions)) id
            ≡ elim (latest_cluster recent id) [ none ↦ [] | some info ↦ info.capabilities ]))
    × ((name : String)
        → tool_of (history recent (new_tool_registry kubernetes_tool_definitions)) name
          ≡ latest_tool recent kubernetes_tool_definitions name)
registry-latest_example = registry-latest kubernetes_tool_definitions recent

abbrev north : ClusterInfo
north = record east { cluster_id = "north"; updated_at = 0 }

north_absent : cluster_of registry "north" ≡ none
unfolding cluster_of lookup
north_absent = refl

-- the same clusters in another order
abbrev swapped : ToolRegistry
swapped = record registry { cluster_map = ("east", east) ∷ ("west", west) ∷ [] }

swapped-IsKeyed : IsKeyed swapped
unfolding lookup
swapped-IsKeyed = record {
  clusters_keyed = (refl, refl, (refl, refl, tt));
  tools_keyed = (refl, refl, tt);
}

swapped-SameClusters : SameClusters registry swapped
unfolding cluster_of lookup
swapped-SameClusters id = elim (Bool-cases ("west" == id)) [
  | inl e ↦
      let same : "west" ≡ id = (eq_iff "west" id).0 e in
      subst (λ (k : String). cluster_of registry k ≡ cluster_of swapped k) same refl
  | inr e ↦ elim (Bool-cases ("east" == id)) [
    | inl f ↦ rw (cluster_of, e, f) refl
    | inr f ↦ rw (cluster_of, e, f) refl
  ]
]

resolve_clusters-SameClusters_example :
    resolve_clusters registry prod "get_nodes" ≡ resolve_clusters swapped prod "get_nodes"
resolve_clusters-SameClusters_example =
    resolve_clusters-SameClusters registry swapped prod "get_nodes" registry-IsKeyed swapped-IsKeyed
      swapped-SameClusters
