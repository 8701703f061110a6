-- ===== src/Holmes/Types.antt =====
-- The types of internal/holmesprovider/types.go.
use hive_agent.Prelude.{ℕ, String, Bool, Option, List}
use hive_agent.Prelude.GoMap.{GoMap}
use hive_agent.Prelude.Int.{ℤ}
use hive_agent.Value.{Value, Object}

pub record ToolDefinition : Type 0 where
  pub name : String
  pub description : String
  pub parameters : Object

pub record ClusterInfo : Type 0 where
  pub cluster_id : String
  pub cluster_name : String
  pub provider : String
  pub groups : List String
  pub capabilities : List String
  pub updated_at : ℕ

pub record Target : Type 0 where
  pub cluster_ids : List String
  pub group : String
  pub all_clusters : Bool

pub record ToolInvocation : Type 0 where
  pub request_id : String
  pub tool : String
  pub target : Target
  pub parameters : Option Object

pub record AgentCommand : Type 0 where
  pub request_id : String
  pub command : String
  pub parameters : Option Object

pub record AgentResult : Type 0 where
  pub cluster_id : String
  pub cluster_name : String
  pub command : String
  pub request_id : String
  pub timestamp : ℕ
  pub data_value : Value
  pub status : String
  pub error : String
  pub duration_millis : ℤ

pub record NormalizedResult : Type 0 where
  pub cluster_id : String
  pub cluster_name : String
  pub provider : String
  pub command : String
  pub timestamp : ℕ
  pub data_value : Value
  pub status : String
  pub error : String

pub record InvestigationContext : Type 0 where
  pub cluster_count : ℕ
  pub provider_breakdown : GoMap ℕ

-- `data_map` is the field `Data`, whose values are of type `any`; only slices of results are put there.
pub record AggregatedResult : Type 0 where
  pub request_id : String
  pub tool : String
  pub timestamp : ℕ
  pub context : InvestigationContext
  pub results : List NormalizedResult
  pub data_map : GoMap (List NormalizedResult)

pub record AuditRecord : Type 0 where
  pub request_id : String
  pub tool : String
  pub clusters_targeted : List String
  pub duration_ms : ℤ
  pub result_count : ℕ
  pub timestamp : ℕ
