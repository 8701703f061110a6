-- ===== src/Boot/Started.antt =====
-- What holds when cmd/agent/main.go starts its goroutines.
use hive_agent.Prelude.{
  subst, ℕ, String, ◌≡◌, refl, ap, ◌∙◌, ◌↔◌, inl, inr, Bool, true, false, List, arith, Option-cases,
}
use hive_agent.Prelude.Result.{Result-cases}
use hive_agent.Capabilities as Capabilities
use hive_agent.Kube.Api.{Clientset}
use hive_agent.Kube.Usage.{Metadata, cluster_metadata}
use hive_agent.State.{registered, pending_key}
use hive_agent.State.Diagram.{◌⟶◌}
use hive_agent.Telemetry.{new_metrics, set_state}
use hive_agent.Telemetry.Gauge.{gauge-set_state}
use hive_agent.Telemetry.Mirror.{Shows}
use hive_agent.Agent.{Agent, start, move}
use hive_agent.Agent.Moves.{state-move_edge, callback-move, counters-move, Shows-move}
use hive_agent.Config.{Config, load}
use hive_agent.Config.Loaded.{IsValid, load-ok_iff}
use hive_agent.Registration.Payload.{capabilities_body}
use hive_agent.Registration.Retry.{Session}
use hive_agent.Registration.Client.{Client, register, register_capabilities}
use hive_agent.Registration.Requests.{post_jwt-Exchange, register-Exchange}
use hive_agent.Websocket.{Manager, Dial, run}
use hive_agent.Websocket.Tunnel.{run-closed}
use hive_agent.Boot.{
  World, Boot, failed, running, boot, enroll, client_of, request_of, new_session, health_server,
}

-- What the goroutines start from.
pub record IsStarted (cfg : Config) (m : Manager) : Type 0 where
  pub config_valid : IsValid cfg
  pub callback : m.agent.machine.on_change ≡ true
  pub is_registered : m.agent.machine.state ≡ registered
  pub metrics_show : Shows m.agent.metrics registered
  pub tunnel_closed : (m.connected ≡ false) × (m.agent.metrics.tunnel_connected ≡ 0)
  pub token_stored : m.session.token ≡ m.reg.jwt

capabilities_token :
    (c : Client) (id : String) (l : List String) (s : Session)
    → (register_capabilities c id l s).1.token ≡ s.token
unfolding register_capabilities
capabilities_token c id l s =
    (post_jwt-Exchange c "/api/v1/agents/capabilities"
      (capabilities_body (record { cluster_id = id; capabilities = l })) s).sends.token

start-Shows : (now : ℕ) → Shows (start now).metrics pending_key
unfolding start
start-Shows now = gauge-set_state new_metrics pending_key

-- What a boot that reached the goroutines has established.
abbrev Established : Boot → Type 0
Established (failed e s) = Unit
Established (running cfg kube m) = IsStarted cfg m

registered_agent : (now : ℕ) → Agent
registered_agent now = move (start now) registered "cluster registered" now

registered_agent-state : (now : ℕ) → (registered_agent now).machine.state ≡ registered
unfolding registered_agent start
registered_agent-state now =
    state-move_edge (start now) registered "cluster registered" now ◌⟶◌.register

registered_agent-callback : (now : ℕ) → (registered_agent now).machine.on_change ≡ true
unfolding registered_agent start
registered_agent-callback now = callback-move (start now) registered "cluster registered" now

registered_agent-Shows : (now : ℕ) → Shows (registered_agent now).metrics registered
unfolding registered_agent start
registered_agent-Shows now =
    subst (Shows (registered_agent now).metrics) (registered_agent-state now)
      (Shows-move (start now) registered "cluster registered" now refl (start-Shows now))

registered_agent-closed : (now : ℕ) → (registered_agent now).metrics.tunnel_connected ≡ 0
unfolding registered_agent start set_state
registered_agent-closed now =
    ap (λ c. c.tunnel_connected) (counters-move (start now) registered "cluster registered" now)

enroll-Established :
    (w : World) (cfg : Config) (kube : Clientset) (meta : Metadata)
    → IsValid cfg
    → Established (enroll w cfg kube meta)
unfolding enroll registered_agent
enroll-Established w cfg kube meta valid =
    let c = client_of w cfg in
    let req = request_of cfg meta (start w.now) in
    let s = (register c req new_session).1 in
    let id = (register c req new_session).0.0.cluster_id in
    elim (Option-cases (register c req new_session).0.1) [
      | inr (e, refused) ↦ rw (enroll, refused) tt
      | inl fine ↦ elim (Option-cases (register_capabilities c id Capabilities.all s).0) [
        | inr (e, refused) ↦ rw (enroll, fine, refused) tt
        | inl accepted ↦
            let (_, _, _, exchanged, _) = register-Exchange c req new_session in
            rw (enroll, fine, accepted)
              (record {
                config_valid = valid;
                callback = registered_agent-callback w.now;
                is_registered = registered_agent-state w.now;
                metrics_show = registered_agent-Shows w.now;
                tunnel_closed = (refl, registered_agent-closed w.now);
                token_stored = capabilities_token c id Capabilities.all s ∙ (exchanged fine).1;
              })
      ]
    ]

boot-Established : (w : World) → Established (boot w)
unfolding boot
boot-Established w = elim (Result-cases (load w.viper w.path)) [
  | inr (e, x) ↦ rw (boot, x) tt
  | inl (cfg, l) ↦ elim (Option-cases (w.logger_error cfg.log_level)) [
    | inr (e, x) ↦ rw (boot, l, x) tt
    | inl log ↦ elim (Result-cases w.in_cluster) [
      | inr (e, x) ↦ rw (boot, l, log, x) tt
      | inl (kube, k) ↦ elim (Result-cases (cluster_metadata w.short_hash kube)) [
        | inr (e, x) ↦ rw (boot, l, log, k, x) tt
        | inl (meta, m) ↦
            let (_, _, valid) = (load-ok_iff w.viper w.path cfg).0 l in
            rw (boot, l, log, k, m) (enroll-Established w cfg kube meta valid)
      ]
    ]
  ]
]

-- When `run` starts the goroutines, the configuration is valid, the agent is in the state
-- `REGISTERED` and the gauges say so, the tunnel is closed in the flag and in the gauge, and the
-- token store holds the token of the registration.
pub boot-IsStarted :
    (w : World) (cfg : Config) (kube : Clientset) (m : Manager)
    → boot w ≡ running cfg kube m
    → IsStarted cfg m
boot-IsStarted w cfg kube m h = subst Established h (boot-Established w)

-- The readiness probe answers 200 exactly while the tunnel is connected, and the liveness probe always.
pub probes :
    (connected : Bool)
    → (((health_server connected "/readyz").status ≡ 200) ↔ (connected ≡ true))
      × ((health_server connected "/healthz").status ≡ 200)
unfolding health_server
probes true = ((λ _. refl, λ _. refl), refl)
probes false = ((λ e. absurd (omega arith), λ e. absurd (cc)), refl)

-- However many attempts at a tunnel the started agent makes and however they end, the readiness probe
-- answers 503 between two attempts and once `Run` has returned.
pub not_ready_between :
    (w : World) (cfg : Config) (kube : Clientset) (m : Manager) (attempts : List (ℕ × Dial))
    → boot w ≡ running cfg kube m
    → (health_server (run attempts m).connected "/readyz").status ≡ 503
unfolding health_server
not_ready_between w cfg kube m attempts h =
    let started = boot-IsStarted w cfg kube m h in
    let (closed, _, _) = run-closed attempts m started.tunnel_closed.0 started.tunnel_closed.1 in
    rw closed refl
