-- ===== src/Samples/Booted.antt =====
-- A start of cmd/agent/main.go over a small cluster, for the tests.
use hive_agent.Prelude.{◌≡◌, refl, none, ◌==◌, if◌then◌else◌}
use hive_agent.Prelude.Text.{trim_right_slash}
use hive_agent.Prelude.Result.{ok}
use hive_agent.Config.{Viper, read}
use hive_agent.Websocket.{Manager}
use hive_agent.Boot.{World, running, boot}
use hive_agent.Samples.{cluster, accepting, one_attempt}

abbrev pub viper : Viper
viper = record {
  read_error = λ path. none;
  get_string = λ key def.
      if key == "cluster_name"
      then "prod"
      else if key == "api_endpoint"
      then "https://hub"
      else if key == "api_key"
      then "agt_1"
      else if key == "provider"
      then "gke"
      else def;
}

abbrev pub world : World
world = record {
  path = "";
  viper = viper;
  logger_error = λ level. none;
  in_cluster = ok cluster;
  short_hash = λ v. v;
  net = accepting;
  backoff = one_attempt;
  now = 10;
}

-- The agent starts.
unfoldable pub started : (m : Manager) × (boot world ≡ running (read viper) cluster m)
unfolding boot trim_right_slash
started = (_, refl)
