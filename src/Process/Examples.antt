-- ===== src/Process/Examples.antt =====
-- Schedules of the two goroutines of cmd/agent/main.go.
use hive_agent.Prelude.{
  eq_iff, ◌≢◌, ℕ, String, ◌≤◌, ◌≡◌, refl, true, false, none, some, List, [], ◌∷◌, ◌++◌, arith,
  length,
}
use hive_agent.Prelude.Text.{trim_right_slash}
use hive_agent.State.{connecting, online, degraded, revoked, transition}
use hive_agent.Config.{read}
use hive_agent.Boot.{boot}
use hive_agent.Websocket.{revoke}
use hive_agent.Process.{
  reading, returned, Input, nothing, connection, message, Process, launch, tunnel, beat,
  tunnel_turn, beat_turn, by_tunnel, by_beat, by_signal, ◌↝*◌, none_yet, then_turn,
}
use hive_agent.Process.Sound.{IsSound}
use hive_agent.Process.Ready.{after, CanServe, reached-CanServe}
use hive_agent.Process.Revoked.{tunnel_turns}
use hive_agent.Process.Reached.{reached-IsSound, reached_accepted, reached_silent, reached_returns}
use hive_agent.Process.Context.{reached_reason, ended_closed, ended_returns}
use hive_agent.Telemetry.{set_state}
use hive_agent.Kube.Health.{health}
use hive_agent.Registration.Client.{heartbeat}
use hive_agent.Process.Stages.{asked}
use hive_agent.Process.Token.{reached_token}
use hive_agent.Process.Degraded.{before_dial, degraded_sticks}
use hive_agent.Samples.{cluster, broken_cluster, client}
use hive_agent.Samples.Booted.{viper, world, started}

-- A turn of a schedule: the tunnel's with what it meets, the heartbeat's while the cluster does not
-- answer, or a signal.
data Turn : Type 0 where
  tunnels : Input → Turn
  fails : Turn
  stops : Turn

abbrev follow : List Turn → Process → Process
follow [] p = p
follow (tunnels x ∷ later) p = follow later (tunnel_turn 1 x p)
follow (stops ∷ later) p = follow later (record p { ended = true })
follow (fails ∷ later) p = follow later (beat_turn client "c1" broken_cluster 1 p)

follow_turns : (l : List Turn) (p : Process) → p ↝* follow l p
follow_turns [] p = none_yet
follow_turns (tunnels x ∷ later) p = after (by_tunnel 1 x) (follow_turns later (tunnel_turn 1 x p))
follow_turns (stops ∷ later) p = after by_signal (follow_turns later (record p { ended = true }))
follow_turns (fails ∷ later) p =
    after (by_beat client "c1" broken_cluster 1)
      (follow_turns later (beat_turn client "c1" broken_cluster 1 p))

abbrev connects : List Turn
connects =
    tunnels nothing
    ∷ tunnels nothing
    ∷ tunnels connection
    ∷ tunnels nothing
    ∷ tunnels nothing
    ∷ tunnels nothing
    ∷ []

abbrev fresh : Process
fresh = launch started.0

abbrev serving : Process
serving = follow connects fresh

-- The heartbeat fails under the open tunnel.
abbrev low : Process
low = follow (fails ∷ fails ∷ fails ∷ []) serving

serving_online : serving.manager.agent.machine.state ≡ online
unfolding started boot trim_right_slash tunnel
serving_online = refl

low_degraded : low.manager.agent.machine.state ≡ degraded
unfolding started boot trim_right_slash tunnel beat
low_degraded = refl

abbrev gone : Process
gone = follow (tunnels (message revoke) ∷ tunnels nothing ∷ []) low

gone_revoked : gone.manager.agent.machine.state ≡ revoked
unfolding started boot trim_right_slash tunnel beat
gone_revoked = refl

to_low : fresh ↝* low
to_low = follow_turns (connects ++ fails ∷ fails ∷ fails ∷ []) fresh

to_gone : fresh ↝* gone
to_gone =
    follow_turns
      (connects ++ fails ∷ fails ∷ fails ∷ tunnels (message revoke) ∷ tunnels nothing ∷ []) fresh

-- six turns of the tunnel, with turns of the heartbeat between them
abbrev ending : List Turn
ending =
    tunnels nothing
    ∷ fails
    ∷ tunnels nothing
    ∷ fails
    ∷ tunnels nothing
    ∷ tunnels nothing
    ∷ tunnels nothing
    ∷ tunnels nothing
    ∷ []

six_turns : 6 ≤ tunnel_turns (follow_turns ending gone)
unfolding follow_turns after tunnel_turns
six_turns = omega arith

reached-IsSound_example : IsSound low.stage low.manager
reached-IsSound_example = reached-IsSound world (read viper) cluster started.0 low started.1 to_low

abbrev about : Process
about = tunnel_turn 1 nothing fresh

about_enters : asked about.stage ≡ some connecting
unfolding started boot trim_right_slash tunnel asked
about_enters = refl

reached_accepted_example :
    ((reason : String) (now : ℕ)
      → (transition about.manager.agent.machine connecting reason now).error ≡ none)
    × ((now : ℕ) (x : Input) → (tunnel_turn now x about).manager.agent.machine.state ≡ connecting)
reached_accepted_example =
    reached_accepted world (read viper) cluster started.0 about started.1
      (then_turn none_yet (by_tunnel 1 nothing)) connecting about_enters

reached_silent_example :
    ((follow ending gone).manager.agent.machine.state ≡ revoked)
    × ((follow ending gone).manager.dialed ≡ gone.manager.dialed)
    × ((follow ending gone).manager.started ≡ gone.manager.started)
reached_silent_example =
    reached_silent world (read viper) cluster started.0 gone started.1 to_gone (follow ending gone)
      gone_revoked (follow_turns ending gone)

reached_returns_example : (follow ending gone).stage ≡ returned
reached_returns_example =
    reached_returns world (read viper) cluster started.0 gone started.1 to_gone (follow ending gone)
      gone_revoked (follow_turns ending gone) six_turns

low_reads : low.stage ≡ reading
unfolding started boot trim_right_slash tunnel beat
low_reads = refl

still_going : low.ended ≡ false
unfolding started boot trim_right_slash tunnel beat
still_going = refl

reached-CanServe_example : CanServe low
reached-CanServe_example =
    reached-CanServe world (read viper) cluster started.0 low started.1 to_low still_going
      (λ e. cc (e, low_degraded)) (λ e. cc (e, low_reads))

gone_ends : (follow ending gone).stage ≡ returned
unfolding started boot trim_right_slash tunnel beat
gone_ends = refl

gone_going : (follow ending gone).ended ≡ false
unfolding started boot trim_right_slash tunnel beat
gone_going = refl

reached_reason_example : (follow ending gone).manager.agent.machine.state ≡ revoked
reached_reason_example =
    reached_reason started.0 (follow ending gone)
      (follow_turns
        (connects ++ fails ∷ fails ∷ fails ∷ tunnels (message revoke) ∷ tunnels nothing ∷ ending)
        fresh)
      gone_going gone_ends

-- a signal while the tunnel is about to dial
abbrev stopping : Process
stopping = follow (tunnels nothing ∷ tunnels nothing ∷ stops ∷ []) fresh

abbrev last_turns : List Turn
last_turns =
    tunnels connection
    ∷ fails
    ∷ tunnels nothing
    ∷ tunnels nothing
    ∷ tunnels nothing
    ∷ tunnels nothing
    ∷ tunnels nothing
    ∷ fails
    ∷ tunnels connection
    ∷ tunnels nothing
    ∷ tunnels nothing
    ∷ []

stopping_ended : stopping.ended ≡ true
unfolding started boot trim_right_slash tunnel
stopping_ended = refl

stopping_closed : before_dial stopping.stage ≡ true
unfolding started boot trim_right_slash tunnel
stopping_closed = refl

nine_turns : 9 ≤ tunnel_turns (follow_turns last_turns stopping)
unfolding follow_turns after tunnel_turns
nine_turns = omega arith

ended_closed_example :
    (before_dial (follow last_turns stopping).stage ≡ true)
    × ((follow last_turns stopping).manager.started ≡ stopping.manager.started)
ended_closed_example =
    ended_closed stopping (follow last_turns stopping) stopping_ended stopping_closed
      (follow_turns last_turns stopping)

ended_returns_example : (follow last_turns stopping).stage ≡ returned
ended_returns_example =
    ended_returns stopping (follow last_turns stopping) stopping_ended stopping_closed
      (follow_turns last_turns stopping) nine_turns

-- a heartbeat that succeeds
abbrev later : Process
later = beat_turn client "c1" cluster 2 (
    beat_turn client "c1" cluster 2
      (beat_turn client "c1" cluster 2 (beat_turn client "c1" cluster 2 low)))

to_later : low ↝* later
to_later =
    then_turn
      (then_turn
        (then_turn (then_turn none_yet (by_beat client "c1" cluster 2))
          (by_beat client "c1" cluster 2))
        (by_beat client "c1" cluster 2))
      (by_beat client "c1" cluster 2)

later_counted : later.manager.agent.metrics.heartbeats ≡ 1
unfolding started boot trim_right_slash tunnel beat heartbeat health set_state
later_counted = refl

same_attempt : length later.manager.dialed ≡ length low.manager.dialed
unfolding started boot trim_right_slash tunnel beat
same_attempt = refl

degraded_sticks_example : later.manager.agent.machine.state ≡ degraded
degraded_sticks_example =
    degraded_sticks low later low_reads low_degraded to_later low_reads same_attempt

answered : started.0.reg.jwt ≢ ""
unfolding started boot trim_right_slash
answered e = absurd (ground (arith, eq_iff "token-1" "", e))

reached_token_example : low.manager.session.token ≢ ""
reached_token_example =
    reached_token world (read viper) cluster started.0 low started.1 to_low answered
