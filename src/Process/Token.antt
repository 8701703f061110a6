-- ===== src/Process/Token.antt =====
-- The token store under the goroutines of the tunnel and of the heartbeat.
use hive_agent.Prelude.{ℕ, String, ◌≡◌, ◌≢◌, refl, sym, subst, some, none, arith}
use hive_agent.Kube.Api.{Clientset}
use hive_agent.Registration.Payload.{CredentialRotation, HeartbeatPayload}
use hive_agent.Registration.Retry.{Session}
use hive_agent.Registration.Client.{Client, heartbeat, apply_rotation}
use hive_agent.Registration.Requests.{post_jwt-Exchange}
use hive_agent.Registration.Tokens.{rotation_keeps}
use hive_agent.Websocket.{Manager, Frame, command, credential_rotation, revoke, other_type, rotate}
use hive_agent.Config.{Config}
use hive_agent.Boot.{World, running, boot}
use hive_agent.Boot.Started.{boot-IsStarted}
use hive_agent.Process.{
  Stage, at_head, dialing, reading, pausing, Input, context_done, connection, message, tunnel,
  receive, Beat, posting, beat, Process, launch, by_tunnel, by_beat, by_signal, seen, ◌↝*◌,
  none_yet, then_turn,
}

rotate-session :
    (r : CredentialRotation) (m : Manager) → (rotate r m).session ≡ apply_rotation r m.session
unfolding rotate
rotate-session r m = ground arith

receive_keeps :
    (f : Frame) (m : Manager) → m.session.token ≢ "" → (receive f m).1.session.token ≢ ""
unfolding receive
receive_keeps (command (some cmd)) m h = h
receive_keeps (command none) m h = h
receive_keeps (credential_rotation (some r)) m h =
    subst (λ (s : Session). s.token ≢ "") (sym (rotate-session r m)) (rotation_keeps r m.session h)
receive_keeps (credential_rotation none) m h = h
receive_keeps revoke m h = h
receive_keeps (other_type kind) m h = h

tunnel_keeps :
    (now : ℕ) (x : Input) (at : Stage) (m : Manager)
    → m.session.token ≢ ""
    → (tunnel now x at m).1.session.token ≢ ""
unfolding tunnel
tunnel_keeps now context_done at_head m h = h
tunnel_keeps now _ at_head m h = h
tunnel_keeps now connection dialing m h = h
tunnel_keeps now _ dialing m h = h
tunnel_keeps now (message f) reading m h = receive_keeps f m h
tunnel_keeps now _ reading m h = h
tunnel_keeps now context_done pausing m h = h
tunnel_keeps now _ pausing m h = h
tunnel_keeps now _ _ m h = h

heartbeat-token :
    (api : Client) (p : HeartbeatPayload) (s : Session) → (heartbeat api p s).1.token ≡ s.token
unfolding heartbeat
heartbeat-token api p s = (post_jwt-Exchange api _ _ s).sends.token

beat-token :
    (api : Client) (id : String) (kube : Clientset) (now : ℕ) (b : Beat) (m : Manager)
    → (beat api id kube now b m).1.session.token ≡ m.session.token
unfolding beat
beat-token api id kube now (posting p) m = heartbeat-token api p m.session
beat-token api id kube now _ m = refl

run_keeps : {p q : Process} → p ↝* q → p.manager.session.token ≢ "" → q.manager.session.token ≢ ""
run_keeps none_yet h = h
run_keeps (then_turn {q} before (by_tunnel now x)) h =
    tunnel_keeps now (seen q.ended q.stage x) q.stage q.manager (run_keeps before h)
run_keeps (then_turn {q} before (by_beat api id kube now)) h =
    subst (λ t. t ≢ "") (sym (beat-token api id kube now q.beat q.manager)) (run_keeps before h)
run_keeps (then_turn before by_signal) h = run_keeps before h

-- If the registration of a boot has answered with a token, then the token store holds a token in
-- every state that the tunnel and the heartbeat reach, whatever rotations come and whatever is
-- posted.
pub reached_token :
    (w : World) (cfg : Config) (kube : Clientset) (m : Manager) (p : Process)
    → boot w ≡ running cfg kube m
    → launch m ↝* p
    → m.reg.jwt ≢ ""
    → p.manager.session.token ≢ ""
reached_token w cfg kube m p h r given =
    run_keeps r (rw (boot-IsStarted w cfg kube m h).token_stored given)
