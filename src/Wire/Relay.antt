-- ===== src/Wire/Relay.antt =====
-- The way of a call from `Invoke` of internal/holmesprovider/provider.go over the tunnel to
-- `Execute` of internal/commands/commands.go and back. The dispatcher is an interface that the
-- control plane implements.
use hive_agent.Prelude.{
  ℕ, ◌≡◌, ap, ◌∙◌, refl, true, Option, none, some, List, [], ◌∷◌, ◌==◌, if◌then◌else◌,
}
use hive_agent.Prelude.Int.{ℤ}
use hive_agent.Value.{Float64}
use hive_agent.Kube.Api.{Clientset}
use hive_agent.Telemetry.{Metrics}
use hive_agent.Commands.Run as Commands
use hive_agent.Commands.Envelope.{execute_clock}
use hive_agent.Executor.{Executor}
use hive_agent.Holmes.Types.{
  ClusterInfo, ToolInvocation, AgentCommand, AgentResult, NormalizedResult,
}
use hive_agent.Holmes.Provider.{Dispatcher, normalize, command_of, result_at}
use hive_agent.Websocket.{Frame}
use hive_agent.Wire.{Codec, Json, find_member}
use hive_agent.Wire.Fields.{read_string, fits_int64}
use hive_agent.Wire.Messages.{◌>>=◌, struct_members, encode_command, encode_response, decode_result}
use hive_agent.Wire.Frames.{envelope, sent_for, replies}
use hive_agent.Wire.RoundTrip.{
  received, returned, read_frame-encode_command, decode_result-encode_response,
}
use hive_agent.Wire.Parameters.{IsPlain, IsTyped, sent, execute-received}

-- The result in the first message of the type "command_result".
unfoldable pub answer_in : Codec → List Json → Option AgentResult
unfolding find_member read_string decode_result
answer_in c [] = none
answer_in c (j ∷ later) =
    let rest = answer_in c later in
    let message = struct_members j in
    let kind = message >>= λ m. read_string (find_member m "type") in
    let answer = message >>= λ m. find_member m "payload" >>= decode_result c in
    elim kind [ none ↦ rest | some k ↦ if k == "command_result" then answer else rest ]

abbrev pub agent_of : ClusterInfo → Executor
agent_of cluster = record { cluster_id = cluster.cluster_id; commands_cluster = cluster.cluster_id }

-- The agents: the API of each cluster, and for each call the time of the start, the clock, and the
-- agent's metrics.
pub record Fleet : Type 0 where
  pub kube : ClusterInfo → Clientset
  pub started : ℕ → ℕ
  pub clock : ℕ → Commands.Clock
  pub metrics : ClusterInfo → Metrics

module _ (codec : Codec) (wild : Float64 → ℤ) (f : Fleet) where
  -- The dispatcher sends the command to the agent of the cluster, in an envelope of the type "command",
  -- and returns the result that it finds in the agent's replies.
  unfoldable pub Relays : Dispatcher → Type 0
  Relays d =
      (i : ℕ) (cluster : ClusterInfo) (cmd : AgentCommand) (a : AgentResult)
      → answer_in codec (
          replies codec wild (agent_of cluster) (f.kube cluster) (f.started i) (f.clock i)
            (f.metrics cluster) (envelope "command" (encode_command codec cmd)))
        ≡ some a
      → d.dispatch_tool i cluster cmd ≡ (a, none)

  -- Every time is read as it was written, and every duration fits an int64.
  pub record IsTimed : Type 0 where
    pub times :
        (i : ℕ) → codec.parse_time (codec.format_time (f.clock i).now) ≡ some (f.clock i).now
    pub durations : (i : ℕ) → fits_int64 (f.clock i).elapsed ≡ true

  -- What the agent of the cluster makes of the command.
  abbrev pub executed : ℕ → ClusterInfo → AgentCommand → Commands.Response
  executed i cluster cmd =
      Commands.execute wild cluster.cluster_id (f.kube cluster) (f.clock i) (sent cmd)

  answer_in-replies :
      (i : ℕ) (cluster : ClusterInfo) (cmd : AgentCommand)
      → answer_in codec (
          replies codec wild
            (agent_of cluster)
            (f.kube cluster)
            (f.started i)
            (f.clock i)
            (f.metrics cluster)
            (envelope "command" (encode_command codec cmd)))
        ≡ decode_result codec (
            encode_response codec (
              Commands.execute wild cluster.cluster_id
                (f.kube cluster)
                (f.clock i)
                (received codec cmd)))
  unfolding answer_in replies
  answer_in-replies i cluster cmd =
      let e = agent_of cluster in
      ap
        (λ (frame : Option Frame). answer_in codec (
          sent_for codec wild e (f.kube cluster) (f.started i) (f.clock i) (f.metrics cluster)
            frame))
        (read_frame-encode_command codec cmd)

  times_at :
      (i : ℕ) (r : Commands.Response)
      → IsTimed
      → r.timestamp ≡ (f.clock i).now
      → codec.parse_time (codec.format_time r.timestamp) ≡ some r.timestamp
  times_at i r timed e = rw e (timed.times i)

  relay_lem :
      (d : Dispatcher) (i : ℕ) (cluster : ClusterInfo) (cmd : AgentCommand)
      → IsPlain codec
      → IsTimed
      → Relays d
      → IsTyped cmd.parameters
      → d.dispatch_tool i cluster cmd ≡ (returned codec (executed i cluster cmd), none)
  unfolding answer_in replies Relays
  relay_lem d i cluster cmd plain timed relays typed =
      let id = cluster.cluster_id in
      let kube = f.kube cluster in
      let (now, elapsed) = execute_clock wild id kube (f.clock i) (sent cmd) in
      let same = execute-received codec plain wild id kube (f.clock i) cmd typed in
      let time = times_at i (executed i cluster cmd) timed now in
      let fits = ap (λ (n : ℤ). fits_int64 n) elapsed ∙ timed.durations i in
      let read = decode_result-encode_response codec (executed i cluster cmd) time fits in
      relays i cluster cmd (returned codec (executed i cluster cmd)) (
        answer_in-replies i cluster cmd
        ∙ ap (λ (r : Commands.Response). decode_result codec (encode_response codec r)) same
        ∙ read)

  -- The result of a call as the provider normalizes it, without the way over the wire.
  abbrev pub shown : Dispatcher → ToolInvocation → ℕ → ClusterInfo → NormalizedResult
  shown d inv i cluster =
      normalize cluster inv.tool (returned codec (executed i cluster (command_of inv))) none
        (d.now i)

  pub result_at-shown :
      (d : Dispatcher) (inv : ToolInvocation) (i : ℕ) (cluster : ClusterInfo)
      → IsPlain codec
      → IsTimed
      → Relays d
      → IsTyped inv.parameters
      → result_at d inv i cluster ≡ shown d inv i cluster
  unfolding result_at
  result_at-shown d inv i cluster plain timed relays typed =
      rw (relay_lem d i cluster (command_of inv) plain timed relays typed) refl
