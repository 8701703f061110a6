-- ===== src/Holmes/Provider.antt =====
-- internal/holmesprovider/provider.go.
use hive_agent.Prelude.{
  ℕ, ◌+◌, String, Bool, Option, none, some, List, [], ◌∷◌, map, ◌==◌, not, if◌then◌else◌, filter_by,
  length, ltb, eqb, set, replicate, get_elem?,
}
use hive_agent.Prelude.GoMap.{GoMap, lookup, insert}
use hive_agent.Prelude.Int.{ℤ}
use hive_agent.Value.{object, empty, nil}
use hive_agent.Holmes.Types.{
  ToolDefinition, ClusterInfo, Target, ToolInvocation, AgentCommand, AgentResult, NormalizedResult,
  InvestigationContext, AggregatedResult, AuditRecord,
}
use hive_agent.Holmes.Registry.{
  ToolRegistry, has, tool_of, cluster_of, clusters, get_clusters_for_capability, new_tool_registry,
  list_available_tools,
}
use hive_agent.Holmes.Tools.{kubernetes_tool_definitions}

pub data ProviderError : Type 0 where
  no_dispatcher : ProviderError
  unknown_tool : String → ProviderError
  not_registered : String → ProviderError
  no_clusters : String → ProviderError

pub data Selected {ℓ} (A : Type ℓ) : Type ℓ where
  chosen : A → Selected A
  refused : ProviderError → Selected A

-- What the dispatcher answers to the i-th goroutine, its error if it has one, and the clock there. The
-- dispatcher is an interface that the control plane implements.
pub record Dispatcher : Type 0 where
  pub dispatch_tool : ℕ → ClusterInfo → AgentCommand → AgentResult × Option String
  pub now : ℕ → ℕ

-- The clock of `Invoke`, at the end of the calls, and the milliseconds since its start.
pub record Clock : Type 0 where
  pub finished : ℕ
  pub elapsed : ℤ
  pub audited : ℕ

-- `audit` says whether the provider has a sink.
pub record Provider : Type 0 where
  pub registry : ToolRegistry
  pub dispatcher : Option Dispatcher
  pub audit : Bool

-- `NewProvider`; the registry is `none` where it is nil.
unfoldable pub new_provider : Option ToolRegistry → Option Dispatcher → Bool → Provider
new_provider (some r) dispatcher audit = record {
  registry = r;
  dispatcher = dispatcher;
  audit = audit;
}
new_provider none dispatcher audit = record {
  registry = new_tool_registry kubernetes_tool_definitions;
  dispatcher = dispatcher;
  audit = audit;
}

unfoldable pub list_tools : Provider → List ToolDefinition
unfolding list_available_tools
list_tools p = list_available_tools p.registry

-- the loop over `target.ClusterIDs`
unfoldable pub select_ids : ToolRegistry → List String → Selected (List ClusterInfo)
unfolding cluster_of
select_ids r [] = chosen []
select_ids r (id ∷ ids) =
    let rest = select_ids r ids in
    elim (cluster_of r id) [
      | none ↦ refused (not_registered id)
      | some cluster ↦ elim rest [ chosen l ↦ chosen (cluster ∷ l) | refused e ↦ refused e ]
    ]

-- the clusters that the target names, before the filter by capability
unfoldable pub select : ToolRegistry → Target → String → Selected (List ClusterInfo)
unfolding select_ids has
select r target capability =
    if ltb 0 (length target.cluster_ids)
    then select_ids r target.cluster_ids
    else if not (target.group == "")
    then chosen (filter_by (λ cluster. has cluster.groups target.group) (clusters r))
    else if target.all_clusters
    then chosen (clusters r)
    else chosen (get_clusters_for_capability r capability)

abbrev pub supports : String → ClusterInfo → Bool
supports capability cluster = has cluster.capabilities capability

unfoldable pub resolve_clusters : ToolRegistry → Target → String → Selected (List ClusterInfo)
unfolding select
resolve_clusters r target capability = elim (select r target capability) [
  | refused e ↦ refused e
  | chosen selected ↦ chosen (filter_by (supports capability) selected)
]

unfoldable pub normalize : ClusterInfo → String → AgentResult → Option String → ℕ → NormalizedResult
normalize cluster command result (some text) now = record {
  cluster_id = cluster.cluster_id;
  cluster_name = cluster.cluster_name;
  provider = cluster.provider;
  command = command;
  timestamp = now;
  data_value = object empty;
  status = "failed";
  error = text;
}
normalize cluster command result none now = record {
  cluster_id = cluster.cluster_id;
  cluster_name = cluster.cluster_name;
  provider = cluster.provider;
  command = command;
  timestamp = if eqb result.timestamp 0 then now else result.timestamp;
  data_value = result.data_value;
  status = result.status;
  error = result.error;
}

abbrev pub or_zero : Option ℕ → ℕ
or_zero none = 0
or_zero (some n) = n

-- the loop of `contextFor`: `ctx.ProviderBreakdown[cluster.Provider]++`
unfoldable pub count_providers : List ClusterInfo → GoMap ℕ → GoMap ℕ
count_providers [] breakdown = breakdown
count_providers (c ∷ rest) breakdown =
    count_providers rest (insert c.provider (or_zero (lookup c.provider breakdown) + 1) breakdown)

unfoldable pub context_for : List ClusterInfo → InvestigationContext
unfolding count_providers
context_for l = record { cluster_count = length l; provider_breakdown = count_providers l [] }

abbrev pub cluster_ids : List ClusterInfo → List String
cluster_ids = map (λ c. c.cluster_id)

-- The zero value with which `make` fills the slice of results.
abbrev pub zero_result : NormalizedResult
zero_result = record {
  cluster_id = "";
  cluster_name = "";
  provider = "";
  command = "";
  timestamp = 0;
  data_value = nil;
  status = "";
  error = "";
}

abbrev pub command_of : ToolInvocation → AgentCommand
command_of inv = record {
  request_id = inv.request_id;
  command = inv.tool;
  parameters = inv.parameters;
}

-- the value that the goroutine of index `i` writes
unfoldable pub result_at : Dispatcher → ToolInvocation → ℕ → ClusterInfo → NormalizedResult
unfolding normalize
result_at d inv i cluster =
    let (result, failure) = d.dispatch_tool i cluster (command_of inv) in
    normalize cluster inv.tool result failure (d.now i)

-- The goroutine of index `i` ends: `results[idx] = normalize(…)`.
abbrev pub finish :
    Dispatcher
    → ToolInvocation
    → List ClusterInfo
    → ℕ
    → List NormalizedResult
    → List NormalizedResult
finish d inv l i results = elim (get_elem? l i) [
  | none ↦ results
  | some cluster ↦ set results i (result_at d inv i cluster)
]

-- The goroutines end in the order of the schedule.
unfoldable pub run_schedule :
    Dispatcher
    → ToolInvocation
    → List ClusterInfo
    → List ℕ
    → List NormalizedResult
    → List NormalizedResult
run_schedule d inv l [] results = results
run_schedule d inv l (i ∷ later) results = run_schedule d inv l later (finish d inv l i results)

-- The result of `Invoke`, and the records that the audit sink receives.
unfoldable pub invoke :
    Provider → Clock → List ℕ → ToolInvocation → Selected AggregatedResult × List AuditRecord
unfolding resolve_clusters context_for run_schedule tool_of
invoke p clock schedule inv = elim p.dispatcher [
  | none ↦ (refused no_dispatcher, [])
  | some d ↦ elim (tool_of p.registry inv.tool) [
    | none ↦ (refused (unknown_tool inv.tool), [])
    | some _ ↦ elim (resolve_clusters p.registry inv.target inv.tool) [
      | refused e ↦ (refused e, [])
      | chosen l ↦
          if eqb (length l) 0
          then (refused (no_clusters inv.tool), [])
          else (let results = run_schedule d inv l schedule (replicate (length l) zero_result) in
              (
                chosen (record {
                  request_id = inv.request_id;
                  tool = inv.tool;
                  timestamp = clock.finished;
                  context = context_for l;
                  results = results;
                  data_map = ("results", results) ∷ [];
                }),
                if p.audit
                    then record {
                      request_id = inv.request_id;
                      tool = inv.tool;
                      clusters_targeted = cluster_ids l;
                      duration_ms = clock.elapsed;
                      result_count = length results;
                      timestamp = clock.audited;
                    }
                      ∷ []
                    else [],
              ))
    ]
  ]
]
