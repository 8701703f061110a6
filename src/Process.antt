-- ===== src/Process.antt =====
-- The two goroutines of cmd/agent/main.go that share the machine and the metrics: `Run` of
-- internal/websocket/manager.go and `Run` of internal/heartbeat/heartbeat.go. A turn of a goroutine
-- is what it does up to its next use of something shared, and turns come in any order.
pub mod Stages
pub mod Sound
pub mod Tunnel
pub mod Revoked
pub mod Reached
pub mod Ready
pub mod Context
pub mod Degraded
pub mod Token
mod Examples
use hive_agent.Prelude.{
  ℕ, String, Bool, true, false, none, some, List, [], ◌∷◌, ◌++◌, ◌==◌, if◌then◌else◌,
}
use hive_agent.Kube.Api.{Clientset}
use hive_agent.Kube.Health.{HealthSnapshot, health}
use hive_agent.State.{AgentState, connecting, online, degraded, offline, revoked, name}
use hive_agent.Agent.{move}
use hive_agent.Registration.Payload.{HeartbeatPayload}
use hive_agent.Registration.Client.{Client, heartbeat}
use hive_agent.Heartbeat.{payload_of, count_failure, count_heartbeat}
use hive_agent.Websocket.{
  Frame, command, credential_rotation, revoke, other_type, Manager, handshake_of, rotate,
  set_tunnel, count_reconnect,
}

-- Where the tunnel's goroutine stands, by what it does next: `at_head` tests the context and the
-- state, `storing` has a connection and has not said so yet, `lowering` runs the deferred `Set(0)`,
-- `checking` compares the state with `Revoked`.
pub data Stage : Type 0 where
  at_head entering dialing storing announcing raising : Stage
  reading revoking lowering counting unflagging checking leaving pausing returned : Stage

-- What the tunnel meets in a turn: the context is done, the dialer has a connection, or a message
-- has been read; `nothing` stands for all else, the errors of the dialer and of the read among it.
-- Where a turn does not look at what it is given, it is as if it were `nothing`. In the turns of a
-- process, `seen` below gives `context_done` only when the context is done.
pub data Input : Type 0 where
  nothing : Input
  context_done : Input
  connection : Input
  message : Frame → Input

-- Where the heartbeat's goroutine stands in `once`.
pub data Beat : Type 0 where
  resting : Beat
  measured : HealthSnapshot → Beat
  posting : HeartbeatPayload → Beat
  delivered : Beat
  lost : Beat
  unhealthy : Beat
  degrading : Beat

-- `ended` is whether the context is done, which it stays.
pub record Process : Type 0 where
  pub ended : Bool
  pub manager : Manager
  pub stage : Stage
  pub beat : Beat

abbrev pub move_to : AgentState → String → ℕ → Manager → Manager
move_to next reason now m = record m { agent = move m.agent next reason now }

abbrev pub is_revoked : Manager → Bool
is_revoked m = name m.agent.machine.state == name revoked

-- a message in the loop that reads
unfoldable pub receive : Frame → Manager → Stage × Manager
unfolding rotate
receive (command (some cmd)) m = (reading, record m { started = m.started ++ cmd ∷ [] })
receive (command none) m = (reading, m)
receive (credential_rotation (some rotation)) m = (reading, rotate rotation m)
receive (credential_rotation none) m = (reading, m)
receive revoke m = (revoking, m)
receive (other_type kind) m = (reading, m)

abbrev pub try_dial : Manager → Manager
try_dial m = record m { dialed = m.dialed ++ handshake_of m ∷ [] }

-- one turn of `Run` and `connectAndServe`
unfoldable pub tunnel : ℕ → Input → Stage → Manager → Stage × Manager
unfolding receive move
tunnel now context_done at_head m = (returned, m)
tunnel now _ at_head m = (if is_revoked m then returned else entering, m)
tunnel now _ entering m = (dialing, move_to connecting "opening secure websocket tunnel" now m)
tunnel now connection dialing m = (storing, try_dial m)
tunnel now _ dialing m = (counting, try_dial m)
tunnel now _ storing m = (announcing, record m { connected = true })
tunnel now _ announcing m = (raising, move_to online "websocket connected" now m)
tunnel now _ raising m = (reading, record m { agent = set_tunnel 1 m.agent })
tunnel now (message frame) reading m = receive frame m
tunnel now _ reading m = (lowering, m)
tunnel now _ revoking m = (lowering, move_to revoked "agent key revoked" now m)
tunnel now _ lowering m = (counting, record m { agent = set_tunnel 0 m.agent })
tunnel now _ counting m = (unflagging, record m { agent = count_reconnect m.agent })
tunnel now _ unflagging m = (checking, record m { connected = false })
tunnel now _ checking m = (if is_revoked m then pausing else leaving, m)
tunnel now _ leaving m = (pausing, move_to offline "websocket disconnected" now m)
tunnel now context_done pausing m = (returned, m)
tunnel now _ pausing m = (at_head, m)
tunnel now _ returned m = (returned, m)

-- One turn of `once`. That `Run` of the heartbeat ends with the context is left out, since it only
-- takes turns away.
unfoldable pub beat : Client → String → Clientset → ℕ → Beat → Manager → Beat × Manager
unfolding health move heartbeat
beat api id kube now resting m =
    let (h, failure) = health kube in (elim failure [ some _ ↦ unhealthy | none ↦ measured h ], m)
beat api id kube now (measured h) m = (posting (payload_of id h m.agent.machine now), m)
beat api id kube now (posting p) m =
    let (e, s) = heartbeat api p m.session in
    (elim e [ some _ ↦ lost | none ↦ delivered ], record m { session = s })
beat api id kube now delivered m =
    (resting, record m { agent = record m.agent { metrics = count_heartbeat m.agent.metrics } })
beat api id kube now lost m =
    (resting, record m { agent = record m.agent { metrics = count_failure m.agent.metrics } })
beat api id kube now unhealthy m =
    (degrading, record m { agent = record m.agent { metrics = count_failure m.agent.metrics } })
beat api id kube now degrading m =
    (resting, move_to degraded "kubernetes health collection failed" now m)

-- What a turn can meet: the context is found done exactly where it is. The head of the loop then
-- ends, and `DialContext` fails; the `select` may take the timer if that has fired too, and the loop
-- that reads does not look at the context.
abbrev pub seen : Bool → Stage → Input → Input
seen true at_head x = context_done
seen true dialing x = nothing
seen true _ x = x
seen false _ context_done = nothing
seen false _ x = x

abbrev pub tunnel_turn : ℕ → Input → Process → Process
tunnel_turn now x p =
    let (stage, m) = tunnel now (seen p.ended p.stage x) p.stage p.manager in
    record p { stage = stage; manager = m }

abbrev pub beat_turn : Client → String → Clientset → ℕ → Process → Process
beat_turn api id kube now p =
    let (b, m) = beat api id kube now p.beat p.manager in record p { beat = b; manager = m }

-- `go hb.Run(…)` and `go tunnel.Run(…)`
abbrev pub launch : Manager → Process
launch m = record { ended = false; manager = m; stage = at_head; beat = resting }

-- A turn of either goroutine, with whatever it meets; or a signal ends the context, as
-- `NotifyContext` has it.
infix 40 ◌↝◌
pub data ◌↝◌ : Process → Process → Type 0 where
  by_tunnel : {p : Process} (now : ℕ) (x : Input) → p ↝ tunnel_turn now x p
  by_beat :
      {p : Process} (api : Client) (id : String) (kube : Clientset) (now : ℕ)
      → p ↝ beat_turn api id kube now p
  by_signal : {p : Process} → p ↝ record p { ended = true }

infix 40 ◌↝*◌
pub data ◌↝*◌ : Process → Process → Type 0 where
  none_yet : {p : Process} → p ↝* p
  then_turn : {p q r : Process} → p ↝* q → q ↝ r → p ↝* r
