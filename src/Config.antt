-- ===== src/Config.antt =====
-- internal/config/config.go. The library viper reads the file, the environment and the defaults: it is
-- `Viper`, what its lookups give after `Load` has set it up.
pub mod Loaded
mod Examples
use text.Mathlib.Text.{starts_with}
use hive_agent.Prelude.{
  ℕ, String, Bool, true, false, not, Option, none, some, List, [], ◌∷◌, ◌==◌, ◌&&◌, ◌||◌,
  if◌then◌else◌,
}
use hive_agent.Prelude.Text.{trim_right_slash}
use hive_agent.Prelude.Result.{Result, ok, err}

pub record Config : Type 0 where
  pub cluster_name : String
  pub api_endpoint : String
  pub api_key : String
  pub provider : String
  pub log_level : String
  pub listen_address : String
  pub tls_server_name : String
  pub otlp_endpoint : String

-- The error of `ReadInConfig` for a path, and `GetString`, whose answer for a name that neither the
-- file nor the environment sets is the given default.
pub record Viper : Type 0 where
  pub read_error : String → Option String
  pub get_string : String → String → String

unfoldable pub read : Viper → Config
read v = record {
  cluster_name = v.get_string "cluster_name" "";
  api_endpoint = trim_right_slash (v.get_string "api_endpoint" "");
  api_key = v.get_string "api_key" "";
  provider = v.get_string "provider" "";
  log_level = v.get_string "log_level" "info";
  listen_address = v.get_string "listen_address" ":8080";
  tls_server_name = v.get_string "tls_server_name" "";
  otlp_endpoint = v.get_string "otel_exporter_otlp_endpoint" "";
}

abbrev pub is_incomplete : Config → Bool
is_incomplete cfg =
    cfg.cluster_name == "" || cfg.api_endpoint == "" || cfg.api_key == "" || cfg.provider == ""

unfoldable pub check : Config → Result Config
check cfg =
    if is_incomplete cfg
    then err "clusterName, apiEndpoint, apiKey and provider are required"
    else if not (starts_with cfg.api_key "agt_")
    then err "apiKey must use agt_ prefix"
    else ok cfg

unfoldable pub load : Viper → String → Result Config
unfolding read check
load v path = elim (if not (path == "") then v.read_error path else none) [
  | some e ↦ err e
  | none ↦ check (read v)
]
