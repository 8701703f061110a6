-- ===== src/Executor/Metering.antt =====
-- What internal/executor/executor.go counts: it compares the status with "failed", and the commands
-- answer "error".
use hive_agent.Prelude.{ℕ, ◌+◌, ◌≡◌, inl, inr, [], ◌∷◌, ◌==◌, false}
use hive_agent.Prelude.Int.{ℤ}
use hive_agent.Value.{Float64}
use hive_agent.Kube.Api.{Clientset}
use hive_agent.Telemetry.{Metrics}
use hive_agent.Capabilities as Capabilities
use hive_agent.Commands.Run.{Request, Clock, execute, fail}
use hive_agent.Commands.Envelope.{execute_envelope, execute_unsupported}
use hive_agent.Executor.{Executor, command_status, command_result, execute_command}

module _ (wild : Float64 → ℤ) (e : Executor) (kube : Clientset) (started : ℕ) (clock : Clock)
    (m : Metrics) (cmd : Request) where
  pub not_failed : ((execute wild e.commands_cluster kube clock cmd).status == "failed") ≡ false
  not_failed = elim (execute_envelope wild e.commands_cluster kube clock cmd).3 [
    | inl (s, _, _) ↦ rw s
    | inr (s, _) ↦ rw s
  ]

  -- Every command sends one status message and one result, in this order and with the request's id,
  -- and counts as a completed command. The counter of failures never moves, also when the result is an
  -- error.
  pub execute_command-counts : execute_command wild e kube started clock m cmd ≡ (
    command_status cmd.request_id e.cluster_id "running" started
        ∷ command_result (execute wild e.commands_cluster kube clock cmd)
        ∷ [],
    record m { commands = m.commands + 1 },
  )
  unfolding execute_command
  execute_command-counts = rw not_failed

  -- So a command that is refused as unsupported is counted as completed.
  pub unsupported_counts_completed :
      Capabilities.contains cmd.command ≡ false
      → execute_command wild e kube started clock m cmd ≡ (
        command_status cmd.request_id e.cluster_id "running" started
            ∷ command_result (fail e.commands_cluster clock cmd "unsupported capability")
            ∷ [],
        record m { commands = m.commands + 1 },
      )
  unsupported_counts_completed h =
      rw (execute_command-counts, execute_unsupported wild e.commands_cluster kube clock cmd h)
