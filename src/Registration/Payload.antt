-- ===== src/Registration/Payload.antt =====
-- The payloads of internal/registration/client.go.
use hive_agent.Prelude.{ℕ, String, Option, List}
use hive_agent.Value.{Object}

pub record Request : Type 0 where
  pub cluster_name : String
  pub provider : String
  pub agent_version : String
  pub kubernetes_version : String
  pub cluster_uid : String
  pub node_count : ℕ
  pub api_key : String
  pub capabilities : List String
  pub state : String

pub record Response : Type 0 where
  pub cluster_id : String
  pub jwt : String
  pub ws_endpoint : String
  pub websocket_url : String

abbrev pub zero_response : Response
zero_response = record { cluster_id = ""; jwt = ""; ws_endpoint = ""; websocket_url = "" }

pub record NodeHealth : Type 0 where
  pub ready : ℕ
  pub not_ready : ℕ

pub record PodHealth : Type 0 where
  pub running : ℕ
  pub pending : ℕ
  pub failed : ℕ

pub record WorkloadHealth : Type 0 where
  pub deployments : ℕ
  pub stateful_sets : ℕ
  pub daemon_sets : ℕ

pub record CapabilitiesPayload : Type 0 where
  pub cluster_id : String
  pub capabilities : List String

pub record HeartbeatPayload : Type 0 where
  pub cluster_id : String
  pub state : String
  pub cluster_health : String
  pub nodes : NodeHealth
  pub pods : PodHealth
  pub workloads : WorkloadHealth
  pub timestamp : ℕ

pub record InventoryEvent : Type 0 where
  pub cluster_id : String
  pub kind : String
  pub operation : String
  pub resource_version : String
  pub object_map : Object
  pub timestamp : ℕ

pub record InventoryDeltaPayload : Type 0 where
  pub cluster_id : String
  pub events : List InventoryEvent

pub record CredentialRotation : Type 0 where
  pub jwt : String
  pub api_key : String
  pub ws_endpoint : String

-- The bodies that the client posts.
pub data Body : Type 0 where
  register_body : Request → Body
  capabilities_body : CapabilitiesPayload → Body
  heartbeat_body : HeartbeatPayload → Body
  inventory_body : InventoryDeltaPayload → Body
  no_body : Body

pub record HttpRequest : Type 0 where
  pub url : String
  pub authorization : Option String
  pub body : Body

-- The errors that the client's functions return.
pub data ApiError : Type 0 where
  transport : String → ApiError
  context_done : String → ApiError
  register_status : ℕ → String → ApiError
  path_status : String → ℕ → ApiError
  refresh_unauthorized : ApiError
  refresh_status : ℕ → ApiError
