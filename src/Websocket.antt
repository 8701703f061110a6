-- ===== src/Websocket.antt =====
-- internal/websocket/manager.go: the tunnel. What the dialer and the connection answer is an argument:
-- a `Dial` for each attempt. Commands run in goroutines of their own (Executor.antt); here they are
-- only started. Compression does not bear on this state;
-- the deadlines and pings are in Deadlines.antt.
pub mod Tunnel
pub mod Alive
pub mod Rotation
pub mod Deadlines
mod Examples
use Prim.Native.String as Text
use hive_agent.Prelude.Text.{replace_first}
use hive_agent.Prelude.{
  ℕ, ◌+◌, String, Bool, true, false, not, Option, none, some, List, [], ◌∷◌, ◌++◌, ◌==◌,
  if◌then◌else◌,
}
use hive_agent.Commands.Run.{Request}
use hive_agent.State.{connecting, online, offline, revoked, name}
use hive_agent.Telemetry.{Metrics}
use hive_agent.Agent.{Agent, move}
use hive_agent.Registration.Payload.{Response, CredentialRotation}
use hive_agent.Registration.Retry.{Session}
use hive_agent.Registration.Client.{bearer, tunnel_url, apply_rotation}

-- A message as `ReadJSON` gives it; the payload is `none` where it does not decode.
pub data Frame : Type 0 where
  command : Option Request → Frame
  credential_rotation : Option CredentialRotation → Frame
  revoke : Frame
  other_type : String → Frame

-- One attempt: an error of the dialer, or the messages that are read before the read fails.
pub data Dial : Type 0 where
  dial_error : String → Dial
  opened : List Frame → Dial

-- The endpoint, the bearer of the token, and the cluster id that the dialer gets.
pub record Handshake : Type 0 where
  pub endpoint : String
  pub authorization : String
  pub cluster : String

-- `api_endpoint` is of the configuration, `session` holds the token store; `dialed` and `started`
-- record what the dialer and the executor were called with.
pub record Manager : Type 0 where
  pub api_endpoint : String
  pub session : Session
  pub reg : Response
  pub agent : Agent
  pub connected : Bool
  pub dialed : List Handshake
  pub started : List Request

unfoldable pub endpoint_of : Manager → String
unfolding tunnel_url
endpoint_of m =
    let endpoint = tunnel_url m.reg in
    if endpoint == ""
    then Text.◌++◌ (replace_first m.api_endpoint "https://" "wss://") "/ws"
    else endpoint

abbrev pub handshake_of : Manager → Handshake
handshake_of m = record {
  endpoint = endpoint_of m;
  authorization = bearer m.session.token;
  cluster = m.reg.cluster_id;
}

abbrev pub set_tunnel : ℕ → Agent → Agent
set_tunnel value a = record a { metrics = record a.metrics { tunnel_connected = value } }

-- the case "credential_rotation"
unfoldable pub rotate : CredentialRotation → Manager → Manager
unfolding apply_rotation
rotate rotation m =
    let applied = record m { session = apply_rotation rotation m.session } in
    if not (rotation.ws_endpoint == "")
    then record applied {
      reg = record m.reg {
        ws_endpoint = rotation.ws_endpoint;
        websocket_url = rotation.ws_endpoint;
      };
    }
    else applied

-- The loop that reads; it ends with an error in every case.
unfoldable pub serve : ℕ → List Frame → Manager → Manager
unfolding rotate move
serve now [] m = m
serve now (command (some cmd) ∷ later) m =
    serve now later (record m { started = m.started ++ cmd ∷ [] })
serve now (command none ∷ later) m = serve now later m
serve now (credential_rotation (some rotation) ∷ later) m = serve now later (rotate rotation m)
serve now (credential_rotation none ∷ later) m = serve now later m
serve now (revoke ∷ later) m = record m { agent = move m.agent revoked "agent key revoked" now }
serve now (other_type kind ∷ later) m = serve now later m

-- What `connectAndServe` does before it reads, once the dialer has a connection.
abbrev pub open_tunnel : ℕ → Manager → Manager
open_tunnel now m = record m {
  connected = true;
  agent = set_tunnel 1 (move m.agent online "websocket connected" now);
}

-- `connectAndServe`, which never returns nil; the deferred call sets the gauge back.
unfoldable pub connect_and_serve : ℕ → Dial → Manager → Manager
unfolding serve endpoint_of move
connect_and_serve now dial m =
    let tried = record m { dialed = m.dialed ++ handshake_of m ∷ [] } in
    elim dial [
      | dial_error _ ↦ tried
      | opened frames ↦
          let served = serve now frames (open_tunnel now tried) in
          record served { agent = set_tunnel 0 served.agent }
    ]

abbrev pub count_reconnect : Agent → Agent
count_reconnect a = record a {
  metrics = record a.metrics { tunnel_reconnects = a.metrics.tunnel_reconnects + 1 };
}

-- What the loop of `Run` does after `connectAndServe` has failed.
abbrev pub disconnected : ℕ → Manager → Manager
disconnected now m =
    let a = count_reconnect m.agent in
    record m {
      connected = false;
      agent =
          if not (name a.machine.state == name revoked)
          then move a offline "websocket disconnected" now
          else a;
    }

abbrev pub round : ℕ → Dial → Manager → Manager
round now dial m = disconnected now (
    connect_and_serve now dial
      (record m { agent = move m.agent connecting "opening secure websocket tunnel" now }))

-- `Run` until the context is done, which is after the given attempts.
unfoldable pub run : List (ℕ × Dial) → Manager → Manager
unfolding connect_and_serve move
run [] m = m
run ((now, dial) ∷ later) m =
    let m' = run later (round now dial m) in
    if name m.agent.machine.state == name revoked then m else m'
