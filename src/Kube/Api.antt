-- ===== src/Kube/Api.antt =====
-- The objects of the Kubernetes API, with the fields that internal/kubernetes/client.go and
-- internal/inventory/inventory.go read, and the API itself. The API's client and its types are not
-- part of the repository: `Clientset` is what it answers, and every function of the client takes it.
use hive_agent.Prelude.{ℕ, String, Option, List}
use hive_agent.Prelude.GoMap.{GoMap}
use hive_agent.Prelude.Int.{ℤ}
use hive_agent.Prelude.Result.{Result}

pub record Meta : Type 0 where
  pub name : String
  pub namespace : String
  pub uid : String
  pub resource_version : String
  pub labels : GoMap String

-- A structure of the API that the agent passes on without reading it.
pub record Foreign : Type 0 where
  pub json : String

pub record NodeCondition : Type 0 where
  pub kind : String
  pub status : String
  pub rest : Foreign

pub record Node : Type 0 where
  pub meta : Meta
  pub open meta use *
  pub conditions : List NodeCondition
  pub kubelet_version : String

-- `resource.Quantity`, with the `int64` that its two methods return as bit patterns.
pub record Quantity : Type 0 where
  pub milli_value : ℕ
  pub value : ℕ

pub record Container : Type 0 where
  pub requests : GoMap Quantity
  pub limits : GoMap Quantity

-- `waiting` is `State.Waiting`, with its reason.
pub record ContainerStatus : Type 0 where
  pub name : String
  pub restart_count : ℤ
  pub waiting : Option String
  pub last_termination_state : Foreign

pub record Pod : Type 0 where
  pub meta : Meta
  pub open meta use *
  pub phase : String
  pub node_name : String
  pub containers : List Container
  pub container_statuses : List ContainerStatus

pub record Deployment : Type 0 where
  pub meta : Meta
  pub open meta use *
  pub replicas : ℤ
  pub available_replicas : ℤ
  pub unavailable_replicas : ℤ

pub record StatefulSet : Type 0 where
  pub meta : Meta
  pub open meta use *
  pub replicas : ℤ
  pub ready_replicas : ℤ

pub record DaemonSet : Type 0 where
  pub meta : Meta
  pub open meta use *
  pub desired_number_scheduled : ℤ
  pub number_ready : ℤ

pub record Service : Type 0 where
  pub meta : Meta
  pub open meta use *
  pub kind : String

-- `class_name` is a pointer in the API.
pub record Ingress : Type 0 where
  pub meta : Meta
  pub open meta use *
  pub class_name : Option String

pub record Namespace : Type 0 where
  pub meta : Meta
  pub open meta use *
  pub phase : String

pub record Event : Type 0 where
  pub meta : Meta
  pub open meta use *
  pub reason : String
  pub message : String
  pub kind : String
  pub involved_object : String

-- What the API answers during one operation, which asks each question at most once. A list takes
-- the namespace, "" for all of them.
pub record Clientset : Type 0 where
  pub server_version : Result String
  pub namespace : String → Result Namespace
  pub nodes : Result (List Node)
  pub namespaces : Result (List Namespace)
  pub pods : String → Result (List Pod)
  pub pod : String → String → Result Pod
  pub logs : String → String → String → ℤ → Result String
  pub events : String → Result (List Event)
  pub deployments : String → Result (List Deployment)
  pub stateful_sets : String → Result (List StatefulSet)
  pub daemon_sets : String → Result (List DaemonSet)
  pub services : String → Result (List Service)
  pub ingresses : String → Result (List Ingress)
