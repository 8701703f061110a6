-- ===== src/Boot/Released.antt =====
-- What `run` of cmd/agent/main.go gives back.
use mathlib.Core.List.{append_assoc}
use hive_agent.Prelude.{String, ◌≡◌, refl, List, [], ◌∷◌, ◌++◌, ◌⊎◌, inl, inr}
use hive_agent.Prelude.Result.{Result-cases}
use hive_agent.Kube.Usage.{cluster_metadata}
use hive_agent.Kube.Api.{Clientset}
use hive_agent.Registration.Retry.{Session}
use hive_agent.Websocket.{Manager}
use hive_agent.Config.{Config, load}
use hive_agent.Telemetry.Setup.{Shutdown, new_logger, init_otel}
use hive_agent.Boot.{World, Boot, failed, running, enroll, StartError}
use hive_agent.Boot.Lifecycle.{
  Action, signals_watched, signals_stopped, logger_built, logger_synced, telemetry_started,
  telemetry_stopped, telemetry_refused, server_started, heartbeat_started, inventory_started,
  tunnel_started, context_done, timeout_opened, timeout_cancelled, server_shut_down, Surroundings,
  in_cluster_of, served, run_started, run,
}

-- What takes something, and what gives it back.
pub data Closes : Action → Action → Type 0 where
  signals : Closes signals_watched signals_stopped
  logger : Closes logger_built logger_synced
  telemetry : {s : Shutdown} → Closes (telemetry_started s) (telemetry_stopped s)
  timeout : Closes timeout_opened timeout_cancelled

-- The other actions: nothing that is taken stays behind after them.
pub data IsPlain : Action → Type 0 where
  refused : {e : String} → IsPlain (telemetry_refused e)
  server : IsPlain server_started
  heartbeat : IsPlain heartbeat_started
  inventory : IsPlain inventory_started
  tunnel : IsPlain tunnel_started
  waited : IsPlain context_done
  shut_down : IsPlain server_shut_down

-- The actions give back what is due, the latest first, and what they due themselves.
pub data Releases : List Action → List Action → Type 0 where
  ends : Releases [] []
  plain :
      {a : Action} {due rest : List Action}
      → IsPlain a
      → Releases due rest
      → Releases due (a ∷ rest)
  opens :
      {a b : Action} {due rest : List Action}
      → Closes a b
      → Releases (b ∷ due) rest
      → Releases due (a ∷ rest)
  closes : {b : Action} {due rest : List Action} → Releases due rest → Releases (b ∷ due) (b ∷ rest)

Releases-refl : (due : List Action) → Releases due due
Releases-refl [] = ends
Releases-refl (b ∷ due) = closes (Releases-refl due)

Releases-served : (due : List Action) → Releases due (served ++ timeout_cancelled ∷ due)
Releases-served due = plain server (
    plain heartbeat (
      plain inventory (
        plain tunnel
          (plain waited (opens timeout (plain shut_down (closes (Releases-refl due))))))))

pub Boot-cases :
    (b : Boot)
    → ((cfg : Config) × (kube : Clientset) × (m : Manager) × (b ≡ running cfg kube m))
      ⊎ ((e : StartError) × (s : Session) × (b ≡ failed e s))
Boot-cases (failed e s) = inr (e, s, refl)
Boot-cases (running cfg kube m) = inl (cfg, kube, m, refl)

-- What `run_started` does after what was done before.
record Ends (w : World) (cfg : Config) (done deferred : List Action) : Type 0 where
  rest : List Action
  equation : (run_started w cfg done deferred).actions ≡ done ++ rest
  releases : Releases deferred rest

run_started-Ends :
    (w : World) (cfg : Config) (done deferred : List Action) → Ends w cfg done deferred
unfolding run_started
run_started-Ends w cfg done deferred = elim (Result-cases w.in_cluster) [
  | inr (e, h) ↦ record {
    rest = deferred;
    equation = rw (run_started, h) refl;
    releases = Releases-refl deferred;
  }
  | inl (kube, h) ↦ elim (Result-cases (cluster_metadata w.short_hash kube)) [
    | inr (e, i) ↦ record {
      rest = deferred;
      equation = rw (run_started, h, i) refl;
      releases = Releases-refl deferred;
    }
    | inl (meta, i) ↦ elim (Boot-cases (enroll w cfg kube meta)) [
      | inr (e, s, j) ↦ record {
        rest = deferred;
        equation = rw (run_started, h, i, j) refl;
        releases = Releases-refl deferred;
      }
      | inl (c, k, m, j) ↦ record {
        rest = served ++ timeout_cancelled ∷ deferred;
        equation =
            rw (run_started, h, i, j) (append_assoc done served (timeout_cancelled ∷ deferred));
        releases = Releases-served deferred;
      }
    ]
  ]
]

-- Whatever fails and wherever `run` returns, its deferred calls give back all that it has taken, the
-- latest first, and nothing that it has not taken: the signals, the logger, the telemetry if
-- `InitOTel` succeeded, and the context of the shutdown.
pub run-Releases : (s : Surroundings) → Releases [] (run s).actions
unfolding run
run-Releases s = elim (Result-cases (load s.world.viper s.world.path)) [
  | inr (e, h) ↦ rw (run, h) (opens signals (closes ends))
  | inl (cfg, h) ↦ elim (Result-cases (new_logger s.zap cfg.log_level)) [
    | inr (e, i) ↦ rw (run, h, i) (opens signals (closes ends))
    | inl (l, i) ↦ elim (Result-cases (init_otel s.exporter_error cfg.otlp_endpoint)) [
      | inr (e, j) ↦
          let r =
            run_started-Ends (in_cluster_of s) cfg
              (signals_watched ∷ logger_built ∷ telemetry_refused e ∷ [])
              (logger_synced ∷ signals_stopped ∷ []) in
          rw (run, h, i, j, r.equation) (opens signals (opens logger (plain refused r.releases)))
      | inl (t, j) ↦
          let r =
            run_started-Ends (in_cluster_of s) cfg
              (signals_watched ∷ logger_built ∷ telemetry_started t ∷ [])
              (telemetry_stopped t ∷ logger_synced ∷ signals_stopped ∷ []) in
          rw (run, h, i, j, r.equation) (opens signals (opens logger (opens telemetry r.releases)))
    ]
  ]
]
