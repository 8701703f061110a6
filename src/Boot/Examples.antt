-- ===== src/Boot/Examples.antt =====
-- A start of cmd/agent/main.go over a small cluster.
use hive_agent.Prelude.{◌≡◌, none, [], filter_by}
use hive_agent.Prelude.Result.{ok}
use hive_agent.Config.{read}
use hive_agent.Boot.{boot}
use hive_agent.Boot.Lifecycle.{Surroundings, run}
use hive_agent.Boot.Released.{Releases, run-Releases}
use hive_agent.Boot.Launched.{world_of, start_error, is_launch, launches, run-launches}
use hive_agent.Boot.Started.{IsStarted, boot-IsStarted}
use hive_agent.Samples.{cluster}
use hive_agent.Samples.Booted.{viper, world, started}

boot-IsStarted_example : IsStarted (read viper) started.0
boot-IsStarted_example = boot-IsStarted world (read viper) cluster started.0 started.1

-- Every level and every endpoint is taken.
abbrev surroundings : Surroundings
surroundings = record {
  world = world;
  zap = record { set_level = λ text. none; build_error = λ level. none };
  exporter_error = λ endpoint. none;
  rest_config = ok (record { json = "{}" });
  for_config = λ cfg. ok cluster;
}

run-Releases_example : Releases [] (run surroundings).actions
run-Releases_example = run-Releases surroundings

run-launches_example :
    ((run surroundings).error ≡ start_error (boot (world_of surroundings)))
    × (filter_by is_launch (run surroundings).actions ≡ launches (boot (world_of surroundings)))
run-launches_example = run-launches surroundings
