-- ===== src/Boot.antt =====
-- cmd/agent/main.go: `run` up to the point where it starts the goroutines, and the health server.
pub mod Started
pub mod Lifecycle
pub mod Released
pub mod Launched
mod Examples
use Prim.Native.String as Text
use hive_agent.Prelude.{
  ℕ, String, Bool, true, false, Option, none, some, List, [], ◌∷◌, ◌==◌, if◌then◌else◌,
}
use hive_agent.Prelude.Result.{Result, ok, err}
use hive_agent.Capabilities as Capabilities
use hive_agent.Kube.Api.{Clientset}
use hive_agent.Kube.Usage.{Metadata, cluster_metadata}
use hive_agent.State.{registered, name, snapshot}
use hive_agent.Agent.{Agent, start, move}
use hive_agent.Config.{Config, Viper, load}
use hive_agent.Registration.Payload.{Request, Response, zero_response, ApiError}
use hive_agent.Registration.Retry.{Network, Backoff, Session}
use hive_agent.Registration.Client.{Client, register, register_capabilities}
use hive_agent.Websocket.{Manager}

-- The libraries and the surroundings: the flag `config`, viper, the logger's error for a level, the
-- client of the cluster, the hash, HTTP, the backoff, and the clock.
pub record World : Type 0 where
  pub path : String
  pub viper : Viper
  pub logger_error : String → Option String
  pub in_cluster : Result Clientset
  pub short_hash : String → String
  pub net : Network
  pub backoff : Backoff
  pub now : ℕ

abbrev pub version : String
version = "1.0.0"

pub data StartError : Type 0 where
  library_error : String → StartError
  api_error : ApiError → StartError

-- The token store, the attempts and the tunnel's manager are together in a `Manager`.
pub data Boot : Type 0 where
  failed : StartError → Session → Boot
  running : Config → Clientset → Manager → Boot

abbrev pub new_session : Session
new_session = record { token = ""; attempt = 0; sent = []; out = zero_response }

abbrev pub client_of : World → Config → Client
client_of w cfg = record { net = w.net; backoff = w.backoff; api_endpoint = cfg.api_endpoint }

unfoldable pub request_of : Config → Metadata → Agent → Request
unfolding snapshot
request_of cfg meta a = record {
  cluster_name = cfg.cluster_name;
  provider = cfg.provider;
  agent_version = version;
  kubernetes_version = meta.kubernetes_version;
  cluster_uid = meta.cluster_uid;
  node_count = meta.node_count;
  api_key = cfg.api_key;
  capabilities = Capabilities.all;
  state = name (snapshot a.machine).state;
}

abbrev pub new_manager : Config → Response → Agent → Session → Manager
new_manager cfg reg a s = record {
  api_endpoint = cfg.api_endpoint;
  session = s;
  reg = reg;
  agent = a;
  connected = false;
  dialed = [];
  started = [];
}

-- from `registrar.Register` to the start of the goroutines
unfoldable pub enroll : World → Config → Clientset → Metadata → Boot
unfolding start move request_of register register_capabilities
enroll w cfg kube meta =
    let c = client_of w cfg in
    let a = start w.now in
    let (answer, s) = register c (request_of cfg meta a) new_session in
    elim answer.1 [
      | some e ↦ failed (api_error e) s
      | none ↦
          let a' = move a registered "cluster registered" w.now in
          let (refused, s') = register_capabilities c answer.0.cluster_id Capabilities.all s in
          elim refused [
            | some e ↦ failed (api_error e) s'
            | none ↦ running cfg kube (new_manager cfg answer.0 a' s')
          ]
    ]

unfoldable pub boot : World → Boot
unfolding load cluster_metadata enroll
boot w = elim (load w.viper w.path) [
  | err e ↦ failed (library_error e) new_session
  | ok cfg ↦ elim (w.logger_error cfg.log_level) [
    | some e ↦ failed (library_error e) new_session
    | none ↦ elim w.in_cluster [
      | err e ↦ failed (library_error e) new_session
      | ok kube ↦ elim (cluster_metadata w.short_hash kube) [
        | err e ↦ failed (library_error e) new_session
        | ok meta ↦ enroll w cfg kube meta
      ]
    ]
  ]
]

pub record HttpAnswer : Type 0 where
  pub status : ℕ
  pub body : String

-- The handlers of `healthServer`, but for `/metrics`, which is the library's.
unfoldable pub health_server : Bool → String → HttpAnswer
health_server connected path =
    if path == "/healthz"
    then record { status = 200; body = "{\"status\":\"healthy\"}" }
    else if path == "/readyz"
    then (if connected
        then record { status = 200; body = "{\"status\":\"ready\"}" }
        else record { status = 503; body = "{\"status\":\"not_ready\"}\n" })
    else record { status = 404; body = "not found\n" }

-- What the command line asks for; cobra parses it.
pub data Subcommand : Type 0 where
  root healthz readyz : Subcommand

-- What `main` itself prints and the code with which the process exits.
pub record Exit : Type 0 where
  pub out : String
  pub err_out : String
  pub code : ℕ

-- `main`, over the error that `run` returns, if it is called.
unfoldable pub main : Subcommand → Option String → Exit
main root none = record { out = ""; err_out = ""; code = 0 }
main root (some failure) = record {
  out = "";
  err_out = Text.◌++◌ "hive-agent failed: " (Text.◌++◌ failure "\n");
  code = 1;
}
main healthz failure = record { out = "healthy\n"; err_out = ""; code = 0 }
main readyz failure = record { out = "ready\n"; err_out = ""; code = 0 }
