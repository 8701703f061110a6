-- ===== src/Wire/Frames.antt =====
-- The envelope of the messages: how the loop of `connectAndServe` in internal/websocket/manager.go
-- reads one, and what internal/executor/executor.go and `Send` write.
use hive_agent.Prelude.{ℕ, String, Option, none, some, map, List, [], ◌∷◌, ◌==◌, if◌then◌else◌}
use hive_agent.Prelude.Int.{ℤ}
use hive_agent.Value.{Float64}
use hive_agent.Kube.Api.{Clientset}
use hive_agent.Telemetry.{Metrics}
use hive_agent.Commands.Run.{Clock}
use hive_agent.Executor.{Executor, Message, command_status, command_result, execute_command}
use hive_agent.Websocket.{Frame, command, credential_rotation, revoke, other_type}
use hive_agent.Wire.{Json, text, no_members, member, members, Codec, find_member}
use hive_agent.Wire.Fields.{read_string}
use hive_agent.Wire.Messages.{
  ◌>>=◌, struct_members, decode_request, encode_response, decode_rotation,
}

-- `map[string]any{"type": …, "payload": …}`
abbrev pub envelope : String → Json → Json
envelope kind payload = members (member "payload" payload (member "type" (text kind) no_members))

module _ (c : Codec) where
  -- the `switch` on the type; a missing payload is an error of `Unmarshal`
  unfoldable pub frame_of : String → Option Json → Frame
  frame_of kind payload =
      if kind == "command"
      then command (payload >>= decode_request c)
      else if kind == "credential_rotation"
      then credential_rotation (payload >>= decode_rotation)
      else if kind == "revoke"
      then revoke
      else other_type kind

  -- `conn.ReadJSON(&env)` and the `switch`; `none` is an error of `ReadJSON`
  unfoldable pub read_frame : Json → Option Frame
  unfolding find_member read_string frame_of
  read_frame j = struct_members j >>= λ m.
      read_string (find_member m "type") >>= λ kind. some (frame_of kind (find_member m "payload"))

  -- The messages that the loop handles before `ReadJSON` fails.
  unfoldable pub read_frames : List Json → List Frame
  unfolding read_frame
  read_frames [] = []
  read_frames (j ∷ later) = elim (read_frame j) [ none ↦ [] | some f ↦ f ∷ read_frames later ]

  -- `c.WriteJSON(msg)` of the two messages of a command
  unfoldable pub encode_message : Message → Json
  unfolding encode_response
  encode_message (command_status request_id cluster_id phase timestamp) =
      envelope "command_status" (
        members (
          member "clusterId" (text cluster_id) (
            member "phase" (text phase) (
              member "requestId" (text request_id)
                (member "timestamp" (text (c.format_time timestamp)) no_members)))))
  encode_message (command_result r) = envelope "command_result" (encode_response c r)

  -- What the goroutine of a command sends: `go m.exec.Execute(ctx, cmd, m.Send)`.
  unfoldable pub sent_for :
      (Float64 → ℤ) → Executor → Clientset → ℕ → Clock → Metrics → Option Frame → List Json
  unfolding encode_message execute_command
  sent_for wild e kube started clock m (some (command (some cmd))) =
      map encode_message (execute_command wild e kube started clock m cmd).0
  sent_for wild e kube started clock m _ = []

  -- What the agent sends for one message of the tunnel.
  unfoldable pub replies :
      (Float64 → ℤ) → Executor → Clientset → ℕ → Clock → Metrics → Json → List Json
  unfolding read_frame sent_for
  replies wild e kube started clock m j = sent_for wild e kube started clock m (read_frame j)
