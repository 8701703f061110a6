-- ===== src/Telemetry/Setup.antt =====
-- `NewLogger` and `InitOTel` of internal/telemetry/telemetry.go, over the zap and OpenTelemetry
-- libraries.
use hive_agent.Prelude.{String, ◌==◌, ℕ, Option, none, some, List, map, if◌then◌else◌}
use hive_agent.Prelude.Text.{codes, lower}
use hive_agent.Prelude.Int.{ℤ, pos}
use hive_agent.Prelude.Result.{Result, ok, err}

-- zap, whose level names are in ASCII: what `Level.Set` reads from the characters of a text, and the
-- error with which the production configuration of a level is built, if any.
pub record Zap : Type 0 where
  pub set_level : List ℕ → Option ℤ
  pub build_error : ℤ → Option String

-- the level of `zap.NewProductionConfig`
abbrev pub info_level : ℤ
info_level = pos 0

-- a text that is no level leaves the level as it is
abbrev pub level_or_info : Option ℤ → ℤ
level_or_info none = info_level
level_or_info (some l) = l

-- The logger is known by its level here.
unfoldable pub new_logger : Zap → String → Result ℤ
new_logger zap level =
    let l = level_or_info (zap.set_level (map lower (codes level))) in
    elim (zap.build_error l) [ none ↦ ok l | some e ↦ err e ]

-- The function that `InitOTel` returns: it does nothing, or shuts down the tracer provider.
pub data Shutdown : Type 0 where
  no_shutdown tracer_shutdown : Shutdown

-- `exporter_error` is the error of `otlptracegrpc.New` for an endpoint, if any.
unfoldable pub init_otel : (String → Option String) → String → Result Shutdown
init_otel exporter_error endpoint =
    if endpoint == ""
    then ok no_shutdown
    else elim (exporter_error endpoint) [ some e ↦ err e | none ↦ ok tracer_shutdown ]
