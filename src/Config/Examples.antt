-- ===== src/Config/Examples.antt =====
-- A configuration of internal/config/config.go.
use hive_agent.Prelude.{String, ◌≡◌, ◌↔◌, refl, none, ◌==◌, if◌then◌else◌}
use hive_agent.Prelude.Text.{trim_right_slash}
use hive_agent.Prelude.Result.{ok}
use hive_agent.Config.{Viper, read, load}
use hive_agent.Config.Loaded.{IsValid, load-ok_iff}

abbrev viper : Viper
viper = record {
  read_error = λ file. none;
  get_string = λ key def.
      if key == "cluster_name"
      then "prod"
      else if key == "api_endpoint"
      then "https://hub//"
      else if key == "api_key"
      then "agt_1"
      else if key == "provider"
      then "gke"
      else def;
}

abbrev path : String
path = "hive.yaml"

loads : load viper path ≡ ok (read viper)
unfolding load trim_right_slash
loads = refl

load-ok_iff_example : (load viper path ≡ ok (read viper)) ↔ (
    (¬ (path ≡ "") → viper.read_error path ≡ none)
    × (read viper ≡ read viper)
    × IsValid (read viper))
load-ok_iff_example = load-ok_iff viper path (read viper)
