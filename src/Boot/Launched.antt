-- ===== src/Boot/Launched.antt =====
-- `run` of cmd/agent/main.go with its logger, its telemetry and its deferred calls, and the start that
-- the other modules build on.
use hive_agent.Prelude.{
  ◌≡◌, refl, String, Bool, true, false, Option, none, some, List, [], ◌∷◌, ◌++◌, inl, inr,
  filter_by, Bool-cases,
}
use hive_agent.Prelude.Result.{Result, ok, err, Result-cases}
use hive_agent.Kube.Api.{Clientset}
use hive_agent.Kube.Usage.{Metadata, cluster_metadata}
use hive_agent.Config.{Config, load}
use hive_agent.Telemetry.Setup.{new_logger, init_otel}
use hive_agent.Boot.{
  World, Boot, failed, running, boot, enroll, new_session, StartError, library_error,
}
use hive_agent.Boot.Lifecycle.{
  Action, signals_watched, signals_stopped, logger_built, logger_synced, telemetry_started,
  telemetry_stopped, telemetry_refused, server_started, heartbeat_started, inventory_started,
  tunnel_started, timeout_cancelled, Surroundings, in_cluster_of, served, run_started, run,
}
use hive_agent.Boot.Released.{Boot-cases}

abbrev pub error_of : {T : Type 0} → Result T → Option String
error_of (err e) = some e
error_of (ok t) = none

-- The surroundings of the start: the error of the logger is that of `NewLogger`, the cluster that of
-- `NewInCluster`.
abbrev pub world_of : Surroundings → World
world_of s = record (in_cluster_of s) { logger_error = λ level. error_of (new_logger s.zap level) }

abbrev pub start_error : Boot → Option StartError
start_error (failed e _) = some e
start_error (running _ _ _) = none

-- the `go` statements, and the goroutine of the health server
abbrev pub is_launch : Action → Bool
is_launch server_started = true
is_launch heartbeat_started = true
is_launch inventory_started = true
is_launch tunnel_started = true
is_launch _ = false

abbrev pub launches : Boot → List Action
launches (failed _ _) = []
launches (running _ _ _) =
    server_started ∷ heartbeat_started ∷ inventory_started ∷ tunnel_started ∷ []

filter_by-append :
    (p : Action → Bool) (xs ys : List Action)
    → filter_by p (xs ++ ys) ≡ filter_by p xs ++ filter_by p ys
filter_by-append p [] ys = refl
filter_by-append p (x ∷ xs) ys = elim (Bool-cases (p x)) [
  | inl e ↦ rw (e, filter_by-append p xs ys) refl
  | inr e ↦ rw (e, filter_by-append p xs ys) refl
]

-- `boot` from the client of the cluster on
abbrev with_metadata : World → Config → Clientset → Result Metadata → Boot
with_metadata w cfg kube (err e) = failed (library_error e) new_session
with_metadata w cfg kube (ok meta) = enroll w cfg kube meta

abbrev with_cluster : World → Config → Result Clientset → Boot
with_cluster w cfg (err e) = failed (library_error e) new_session
with_cluster w cfg (ok kube) = with_metadata w cfg kube (cluster_metadata w.short_hash kube)

module _ (w : World) (cfg : Config) (done deferred : List Action)
    (quiet : filter_by is_launch done ≡ []) (quiet_after : filter_by is_launch deferred ≡ []) where
  early : filter_by is_launch (done ++ deferred) ≡ []
  early = rw (filter_by-append is_launch done deferred, quiet, quiet_after) refl

  launched :
      filter_by is_launch ((done ++ served) ++ timeout_cancelled ∷ deferred)
      ≡ server_started ∷ heartbeat_started ∷ inventory_started ∷ tunnel_started ∷ []
  launched =
      rw
        (
          filter_by-append is_launch (done ++ served) (timeout_cancelled ∷ deferred),
          filter_by-append is_launch done served,
          quiet,
          quiet_after,
        )
        refl

  run_started-launches :
      ((run_started w cfg done deferred).error ≡ start_error (with_cluster w cfg w.in_cluster))
      × (filter_by is_launch (run_started w cfg done deferred).actions
          ≡ launches (with_cluster w cfg w.in_cluster))
  unfolding run_started
  run_started-launches = elim (Result-cases w.in_cluster) [
    | inr (e, h) ↦ simp (run_started, h) (refl, early)
    | inl (kube, h) ↦ elim (Result-cases (cluster_metadata w.short_hash kube)) [
      | inr (e, i) ↦ simp (run_started, h, i) (refl, early)
      | inl (meta, i) ↦ elim (Boot-cases (enroll w cfg kube meta)) [
        | inr (e, s, j) ↦ simp (run_started, h, i, j) (refl, early)
        | inl (c, k, m, j) ↦ simp (run_started, h, i, j) (refl, launched)
      ]
    ]
  ]

-- `run` returns the error of the start if there is one, and none else, whatever the telemetry does;
-- it starts the health server, the heartbeat, the inventory and the tunnel, each once and in this
-- order, exactly when the start has succeeded, and none of them when it has failed.
pub run-launches :
    (s : Surroundings)
    → ((run s).error ≡ start_error (boot (world_of s)))
      × (filter_by is_launch (run s).actions ≡ launches (boot (world_of s)))
unfolding run boot
run-launches s = elim (Result-cases (load s.world.viper s.world.path)) [
  | inr (e, h) ↦ rw (run, boot, h) (refl, refl)
  | inl (cfg, h) ↦ elim (Result-cases (new_logger s.zap cfg.log_level)) [
    | inr (e, i) ↦ rw (run, boot, h, i) (refl, refl)
    | inl (l, i) ↦ elim (Result-cases (init_otel s.exporter_error cfg.otlp_endpoint)) [
      | inr (e, j) ↦
          rw (run, boot, h, i, j)
            (run_started-launches (in_cluster_of s) cfg
              (signals_watched ∷ logger_built ∷ telemetry_refused e ∷ [])
              (logger_synced ∷ signals_stopped ∷ []) refl refl)
      | inl (t, j) ↦
          rw (run, boot, h, i, j)
            (run_started-launches (in_cluster_of s) cfg
              (signals_watched ∷ logger_built ∷ telemetry_started t ∷ [])
              (telemetry_stopped t ∷ logger_synced ∷ signals_stopped ∷ []) refl refl)
    ]
  ]
]
