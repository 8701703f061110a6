-- ===== src/Wire/Examples.antt =====
-- A codec for texts and numbers, and a call over it to the agents of two clusters.
use hive_agent.Prelude.{
  ℕ, String, ◌<◌, ◌≡◌, ◌≢◌, refl, true, Option, none, some, [], ◌∷◌, arith, length, get_elem?, In,
}
use hive_agent.Prelude.Int.{pos}
use hive_agent.Prelude.GoMap.{lookup}
use hive_agent.Prelude.Sorting.{sort_by}
use hive_agent.Value.{nil}
use hive_agent.Value.Fields.{get_field}
use hive_agent.Telemetry.{new_metrics}
use hive_agent.Capabilities as Capabilities
use hive_agent.Commands.Run as Commands
use hive_agent.Holmes.Types.{
  ToolDefinition, ClusterInfo, ToolInvocation, AgentResult, NormalizedResult, AggregatedResult,
}
use hive_agent.Holmes.Tools.{tool, pod_params}
use hive_agent.Holmes.Registry.{tool_of, clusters}
use hive_agent.Holmes.Provider.{Provider, Dispatcher, Clock, chosen, resolve_clusters, invoke}
use hive_agent.Wire.Messages.{encode_command, encode_response, decode_result}
use hive_agent.Wire.Frames.{envelope, replies}
use hive_agent.Wire.RoundTrip.{received, returned, decode_result-encode_response}
use hive_agent.Wire.Parameters.{
  IsTyped, a_text, no_text, no_number, a_number, sent, execute-received,
}
use hive_agent.Wire.Relay.{Fleet, IsTimed, Relays, agent_of, answer_in, shown}
use hive_agent.Wire.Calls.{invoke_relayed, invoke_served}
use hive_agent.Samples.{cluster, wild, clock, pod_request}
use hive_agent.Samples.Wired.{codec, codec-IsPlain, logs_command}
use hive_agent.Samples.Answering.{cluster-AnswersAll, namespace_given, name_given}

decode_result-encode_response_example :
    decode_result codec (encode_response codec (Commands.fail "c1" clock pod_request "timeout"))
    ≡ some (returned codec (Commands.fail "c1" clock pod_request "timeout"))
unfolding Commands.fail
decode_result-encode_response_example =
    decode_result-encode_response codec (Commands.fail "c1" clock pod_request "timeout") refl refl

logs-IsTyped : IsTyped logs_command.parameters
unfolding get_field
logs-IsTyped = record {
  namespace = a_text "shop";
  name = a_text "web-1";
  container = no_text;
  tail_lines = a_number (pos 20) (omega arith);
}

execute-received_example :
    Commands.execute wild "c1" cluster clock (received codec logs_command)
    ≡ Commands.execute wild "c1" cluster clock (sent logs_command)
execute-received_example =
    execute-received codec codec-IsPlain wild "c1" cluster clock logs_command logs-IsTyped

abbrev east : ClusterInfo
east = record {
  cluster_id = "east";
  cluster_name = "East";
  provider = "gke";
  groups = [];
  capabilities = "get_pod" ∷ [];
  updated_at = 3;
}

abbrev west : ClusterInfo
west = record east { cluster_id = "west"; cluster_name = "West" }

abbrev pod_tool : ToolDefinition
pod_tool = tool "get_pod" "Get one pod." pod_params

abbrev fleet : Fleet
fleet = record {
  kube = λ c. cluster;
  started = λ i. 49;
  clock = λ i. clock;
  metrics = λ c. new_metrics;
}

abbrev unanswered : AgentResult
unanswered = record {
  cluster_id = "";
  cluster_name = "";
  command = "";
  request_id = "";
  timestamp = 0;
  data_value = nil;
  status = "";
  error = "";
  duration_millis = pos 0;
}

abbrev or_unanswered : Option AgentResult → AgentResult × Option String
or_unanswered none = (unanswered, some "no answer")
or_unanswered (some a) = (a, none)

abbrev dispatcher : Dispatcher
dispatcher = record {
  dispatch_tool = λ i c cmd. or_unanswered (
      answer_in codec (
        replies codec wild (agent_of c) cluster 49 clock new_metrics
          (envelope "command" (encode_command codec cmd))));
  now = λ i. 8;
}

dispatcher-Relays : Relays codec wild fleet dispatcher
unfolding Relays
dispatcher-Relays i c cmd a e = rw e refl

fleet-IsTimed : IsTimed codec wild fleet
fleet-IsTimed = record { times = λ i. refl; durations = λ i. refl }

abbrev provider : Provider
provider = record {
  registry = record {
    cluster_map = ("west", west) ∷ ("east", east) ∷ [];
    tool_map = ("get_pod", pod_tool) ∷ [];
  };
  dispatcher = some dispatcher;
  audit = true;
}

abbrev call_clock : Clock
call_clock = record { finished = 9; elapsed = pos 5; audited = 10 }

abbrev invocation : ToolInvocation
invocation = record {
  request_id = "r1";
  tool = "get_pod";
  target = record { cluster_ids = []; group = ""; all_clusters = true };
  parameters = pod_request.parameters;
}

invocation-IsTyped : IsTyped invocation.parameters
unfolding get_field
invocation-IsTyped = record {
  namespace = a_text "shop";
  name = a_text "web-1";
  container = no_text;
  tail_lines = no_number;
}

knows_tool : tool_of provider.registry "get_pod" ≡ some pod_tool
unfolding tool_of lookup
knows_tool = refl

both_resolved :
    resolve_clusters provider.registry invocation.target "get_pod" ≡ chosen (east ∷ west ∷ [])
unfolding resolve_clusters clusters sort_by
both_resolved = refl

not_none : (east ∷ west ∷ []) ≢ []
not_none e = ground (arith, e)

both_end : (i : ℕ) → i < 2 → In i (1 ∷ 0 ∷ [])
both_end i h = ground (arith, h)

invoke_relayed_example :
    (answer : AggregatedResult) × ((invoke provider call_clock (1 ∷ 0 ∷ []) invocation).0
      ≡ chosen answer)
    × (length answer.results ≡ 2)
    × ((i : ℕ) (c : ClusterInfo)
        → get_elem? (east ∷ west ∷ []) i ≡ some c
        → get_elem? answer.results i ≡ some (shown codec wild fleet dispatcher invocation i c))
invoke_relayed_example =
    invoke_relayed codec wild fleet provider dispatcher call_clock (1 ∷ 0 ∷ []) invocation pod_tool
      (east ∷ west ∷ []) codec-IsPlain fleet-IsTimed dispatcher-Relays invocation-IsTyped refl
      knows_tool both_resolved not_none both_end

invoke_served_example :
    (answer : AggregatedResult) × ((invoke provider call_clock (1 ∷ 0 ∷ []) invocation).0
      ≡ chosen answer)
    × ((i : ℕ) (c : ClusterInfo)
        → get_elem? (east ∷ west ∷ []) i ≡ some c
        → (r : NormalizedResult) × (get_elem? answer.results i ≡ some r)
          × (r.status ≡ "success")
          × (r.error ≡ "")
          × (r.command ≡ "get_pod")
          × (r.cluster_id ≡ c.cluster_id))
invoke_served_example =
    invoke_served codec wild fleet provider dispatcher call_clock (1 ∷ 0 ∷ []) invocation pod_tool
      (east ∷ west ∷ []) codec-IsPlain fleet-IsTimed dispatcher-Relays invocation-IsTyped refl
      knows_tool both_resolved not_none both_end (λ c. cluster-AnswersAll)
      (unfold Capabilities.contains in refl) namespace_given name_given
