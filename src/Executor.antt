-- ===== src/Executor.antt =====
-- internal/executor/executor.go: a command of the tunnel, from its first status message to its result.
pub mod Metering
pub mod Jobs
pub mod Said
pub mod Told
pub mod Sent
mod Examples
use hive_agent.Prelude.{ℕ, ◌+◌, String, List, [], ◌∷◌, ◌==◌, if◌then◌else◌}
use hive_agent.Prelude.Int.{ℤ}
use hive_agent.Value.{Float64}
use hive_agent.Kube.Api.{Clientset}
use hive_agent.Telemetry.{Metrics}
use hive_agent.Commands.Run.{Request, Response, Clock, execute}

-- The two messages that `Execute` passes to `send`.
pub data Message : Type 0 where
  command_status : String → String → String → ℕ → Message
  command_result : Response → Message

-- `commands_cluster` is the cluster of the inner executor of package commands.
pub record Executor : Type 0 where
  pub cluster_id : String
  pub commands_cluster : String

-- What is sent, in order, and the metrics; an error of `send` is dropped by the code. `started` is the
-- time of the status message.
unfoldable pub execute_command :
    (Float64 → ℤ) → Executor → Clientset → ℕ → Clock → Metrics → Request → List Message × Metrics
execute_command wild e kube started clock m cmd =
    let res = execute wild e.commands_cluster kube clock cmd in
    (
      command_status cmd.request_id e.cluster_id "running" started ∷ command_result res ∷ [],
      if res.status == "failed"
          then record m { command_failures = m.command_failures + 1 }
          else record m { commands = m.commands + 1 },
    )
