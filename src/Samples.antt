-- ===== src/Samples.antt =====
-- Concrete surroundings for the tests: a small cluster, a server that accepts everything, and a
-- backoff that never tries again.
pub mod Booted
pub mod Answering
pub mod Wired
use hive_agent.Prelude.{String, ◌≡◌, refl, Option, none, some, [], ◌∷◌}
use hive_agent.Prelude.Int.{ℤ, pos}
use hive_agent.Prelude.Result.{ok, err}
use hive_agent.Value.{string, Float64}
use hive_agent.Value.Fields.{literal}
use hive_agent.Kube.Api.{Meta, Node, Container, ContainerStatus, Pod, Namespace, Clientset}
use hive_agent.Commands.Run.{Request, Clock}
use hive_agent.Registration.Payload as Payload
use hive_agent.Registration.Retry.{
  Network, Session, Verdict, success, transient, permanent, Op, Retried, done, stopped, gave_up,
  Backoff,
}
use hive_agent.Registration.Client.{Client}

abbrev pub meta_of : String → Meta
meta_of name = record {
  name = name;
  namespace = "shop";
  uid = "u1";
  resource_version = "7";
  labels = [];
}

abbrev pub ready_node : Node
ready_node = record {
  meta = meta_of "n1";
  conditions = record { kind = "Ready"; status = "True"; rest = record { json = "{}" } } ∷ [];
  kubelet_version = "v1.30";
}

abbrev pub web_container : Container
web_container = record {
  requests =
      ("cpu", record { milli_value = 250; value = 1 })
      ∷ ("memory", record { milli_value = 64000; value = 64 })
      ∷ [];
  limits = ("cpu", record { milli_value = 500; value = 1 }) ∷ [];
}

abbrev pub looping_status : ContainerStatus
looping_status = record {
  name = "web";
  restart_count = pos 5;
  waiting = some "CrashLoopBackOff";
  last_termination_state = record { json = "{}" };
}

abbrev pub looping_pod : Pod
looping_pod = record {
  meta = meta_of "web-1";
  phase = "Running";
  node_name = "n1";
  containers = web_container ∷ [];
  container_statuses = looping_status ∷ [];
}

abbrev pub failed_pod : Pod
failed_pod = record {
  meta = meta_of "job-1";
  phase = "Failed";
  node_name = "n1";
  containers = web_container ∷ web_container ∷ [];
  container_statuses = [];
}

abbrev pub kube_system : Namespace
kube_system = record { meta = meta_of "kube-system"; phase = "Active" }

abbrev pub cluster : Clientset
cluster = record {
  server_version = ok "v1.30";
  namespace = λ n. ok kube_system;
  nodes = ok (ready_node ∷ []);
  namespaces = ok (kube_system ∷ []);
  pods = λ n. ok (looping_pod ∷ failed_pod ∷ []);
  pod = λ n p. ok looping_pod;
  logs = λ n p c t. ok "started";
  events = λ n. ok [];
  deployments = λ n. ok [];
  stateful_sets = λ n. ok [];
  daemon_sets = λ n. ok [];
  services = λ n. ok [];
  ingresses = λ n. ok [];
}

-- The same cluster while its list of nodes fails.
abbrev pub broken_cluster : Clientset
broken_cluster = record cluster { nodes = err "timeout" }

abbrev pub wild : Float64 → ℤ
wild f = pos 0

abbrev pub clock : Clock
clock = record { now = 50; elapsed = pos 3 }

abbrev pub pod_request : Request
pod_request = record {
  request_id = "r1";
  command = "get_pod";
  parameters = some (literal (("namespace", string "shop") ∷ ("name", string "web-1") ∷ []));
}

abbrev pub delete_request : Request
delete_request = record { request_id = "r2"; command = "delete_pod"; parameters = none }

abbrev pub answer : Payload.Response
answer = record {
  cluster_id = "c1";
  jwt = "token-1";
  ws_endpoint = "wss://hub/ws";
  websocket_url = "";
}

-- Every request is accepted and answered alike.
abbrev pub accepting : Network
accepting = record {
  ask = λ n req. record { error = none; status = 200; text = "ok"; decode = λ out. answer };
  ctx_err = λ n. none;
}

-- The result of one attempt.
abbrev pub outcome : Verdict × Session → Option Payload.ApiError × Session
outcome (success, s) = (none, s)
outcome (transient e, s) = (some e, s)
outcome (permanent e, s) = (some e, s)

pub outcome-Retried :
    (op : Op) (s : Session) (v : Verdict × Session) → op s ≡ v → Retried op (outcome v) s
outcome-Retried op s (success, s') h = done s' h refl
outcome-Retried op s (transient e, s') h = gave_up e s' h refl
outcome-Retried op s (permanent e, s') h = stopped e s' h refl

abbrev pub one_attempt : Backoff
one_attempt = record {
  retry_op = λ op s. outcome (op s);
  runs = λ op s. outcome-Retried op s (op s) refl;
}

abbrev pub client : Client
client = record { net = accepting; backoff = one_attempt; api_endpoint = "https://hub" }

abbrev pub session : Session
session = record { token = "token-0"; attempt = 0; sent = []; out = Payload.zero_response }
