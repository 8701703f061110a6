-- ===== src/Boot/Lifecycle.antt =====
-- `run` of cmd/agent/main.go from its first line to its return: what it starts, and what the
-- deferred calls give back. The calls that register the agent are those of `enroll`.
use hive_agent.Prelude.{String, Option, none, some, List, [], ◌∷◌, ◌++◌}
use hive_agent.Kube.Api.{Foreign, Clientset}
use hive_agent.Kube.InCluster.{new_in_cluster}
use hive_agent.Prelude.Result.{Result, ok, err}
use hive_agent.Kube.Usage.{cluster_metadata}
use hive_agent.Config.{Config, load}
use hive_agent.Telemetry.Setup.{Zap, new_logger, Shutdown, init_otel}
use hive_agent.Boot.{World, StartError, library_error, failed, running, enroll}

pub data Action : Type 0 where
  -- `signal.NotifyContext` and `stop`
  signals_watched signals_stopped : Action
  -- a logger, and its `Sync`
  logger_built logger_synced : Action
  -- `InitOTel`, the function that it returns, and the warning that takes the place of its error
  telemetry_started telemetry_stopped : Shutdown → Action
  telemetry_refused : String → Action
  -- the four goroutines
  server_started heartbeat_started inventory_started tunnel_started : Action
  -- `<-ctx.Done()`
  context_done : Action
  -- `context.WithTimeout` and its `cancel`
  timeout_opened timeout_cancelled : Action
  server_shut_down : Action

-- The libraries beside those of the start: zap, the exporter, and client-go's configuration and
-- client of the cluster that the program runs in.
pub record Surroundings : Type 0 where
  pub world : World
  pub zap : Zap
  pub exporter_error : String → Option String
  pub rest_config : Result Foreign
  pub for_config : Foreign → Result Clientset

-- What the start sees of the cluster.
abbrev pub in_cluster_of : Surroundings → World
in_cluster_of s = record s.world { in_cluster = new_in_cluster s.rest_config s.for_config }

-- The error that `run` returns, if any, and what it did.
pub record Run : Type 0 where
  pub error : Option StartError
  pub actions : List Action

-- A return, with the deferred calls, the latest first.
abbrev pub returns : List Action → List Action → Option StartError → Run
returns done deferred error = record { error = error; actions = done ++ deferred }

-- What `InitOTel` leads to: the actions, and the calls that are deferred.
abbrev pub started_telemetry : Result Shutdown → List Action
started_telemetry (err e) = telemetry_refused e ∷ []
started_telemetry (ok s) = telemetry_started s ∷ []

abbrev pub deferred_telemetry : Result Shutdown → List Action
deferred_telemetry (err e) = []
deferred_telemetry (ok s) = telemetry_stopped s ∷ []

-- what follows the registration; the health server listens on its own goroutine
abbrev pub served : List Action
served =
    server_started ∷ heartbeat_started ∷ inventory_started ∷ tunnel_started ∷ context_done
    ∷ timeout_opened ∷ server_shut_down ∷ []

-- from the client of the cluster on, with what is done and deferred so far
unfoldable pub run_started : World → Config → List Action → List Action → Run
unfolding cluster_metadata enroll
run_started w cfg done deferred = elim w.in_cluster [
  | err e ↦ returns done deferred (some (library_error e))
  | ok kube ↦ elim (cluster_metadata w.short_hash kube) [
    | err e ↦ returns done deferred (some (library_error e))
    | ok meta ↦ elim (enroll w cfg kube meta) [
      | failed e _ ↦ returns done deferred (some e)
      | running _ _ _ ↦ returns (done ++ served) (timeout_cancelled ∷ deferred) none
    ]
  ]
]

unfoldable pub run : Surroundings → Run
unfolding load new_logger init_otel run_started
run s =
    let done = signals_watched ∷ [] in
    let deferred = signals_stopped ∷ [] in
    elim (load s.world.viper s.world.path) [
      | err e ↦ returns done deferred (some (library_error e))
      | ok cfg ↦ elim (new_logger s.zap cfg.log_level) [
        | err e ↦ returns done deferred (some (library_error e))
        | ok _ ↦
            let otel = init_otel s.exporter_error cfg.otlp_endpoint in
            run_started (in_cluster_of s) cfg (done ++ logger_built ∷ started_telemetry otel)
              (deferred_telemetry otel ++ logger_synced ∷ deferred)
      ]
    ]
