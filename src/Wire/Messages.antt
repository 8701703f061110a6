-- ===== src/Wire/Messages.antt =====
-- The structs that cross the wire, by their tags: `AgentCommand` and `AgentResult` of
-- internal/holmesprovider/types.go, `Request` and `Response` of internal/commands/commands.go, and
-- `CredentialRotation` of internal/registration/client.go.
use hive_agent.Prelude.{Option, none, some}
use hive_agent.Commands.Run as Commands
use hive_agent.Holmes.Types.{AgentCommand, AgentResult}
use hive_agent.Registration.Payload.{CredentialRotation}
use hive_agent.Wire.{
  Json, null, integer, text, Members, no_members, member, members, Codec, find_member,
}
use hive_agent.Wire.Fields.{
  omit_empty, omit_empty_map, read_map, read_any, read_time, read_string, read_int64,
}

-- `m, err := f; if err != nil { return err }; …`
infixl 10 ◌>>=◌
abbrev pub ◌>>=◌ : {A B : Type 0} → Option A → (A → Option B) → Option B
none >>= next = none
some a >>= next = next a

-- The members of a struct: `null` leaves the struct at its zero value, any other type is an error.
abbrev pub struct_members : Json → Option Members
struct_members null = some no_members
struct_members (members m) = some m
struct_members _ = none

module _ (c : Codec) where
  unfoldable pub encode_command : AgentCommand → Json
  unfolding omit_empty_map
  encode_command cmd = members (
      member "requestId" (text cmd.request_id) (
        member "command" (text cmd.command)
          (omit_empty_map c "parameters" cmd.parameters no_members)))

  unfoldable pub decode_request : Json → Option Commands.Request
  unfolding find_member read_string read_map
  decode_request j = struct_members j >>= λ m.
      read_string (find_member m "requestId") >>= λ request_id.
      read_string (find_member m "command") >>= λ command.
      read_map c (find_member m "parameters") >>= λ parameters.
      some (record { request_id = request_id; command = command; parameters = parameters })

  unfoldable pub encode_response : Commands.Response → Json
  unfolding omit_empty
  encode_response r = members (
      member "command" (text r.command) (
        member "clusterId" (text r.cluster_id) (
          member "requestId" (text r.request_id) (
            member "timestamp" (text (c.format_time r.timestamp)) (
              member "data" (c.encode_any r.data_value) (
                member "status" (text r.status) (
                  omit_empty "error" r.error
                    (member "durationMillis" (integer r.duration_millis) no_members))))))))

  unfoldable pub decode_result : Json → Option AgentResult
  unfolding find_member read_string read_time read_any read_int64
  decode_result j = struct_members j >>= λ m.
      read_string (find_member m "clusterId") >>= λ cluster_id.
      read_string (find_member m "clusterName") >>= λ cluster_name.
      read_string (find_member m "command") >>= λ command.
      read_string (find_member m "requestId") >>= λ request_id.
      read_time c (find_member m "timestamp") >>= λ timestamp.
      read_string (find_member m "status") >>= λ status.
      read_string (find_member m "error") >>= λ error.
      read_int64 (find_member m "durationMillis") >>= λ duration_millis. some (record {
        cluster_id = cluster_id;
        cluster_name = cluster_name;
        command = command;
        request_id = request_id;
        timestamp = timestamp;
        data_value = read_any c (find_member m "data");
        status = status;
        error = error;
        duration_millis = duration_millis;
      })

unfoldable pub encode_rotation : CredentialRotation → Json
unfolding omit_empty
encode_rotation r = members (
    omit_empty "jwt" r.jwt
      (omit_empty "apiKey" r.api_key (omit_empty "wsEndpoint" r.ws_endpoint no_members)))

unfoldable pub decode_rotation : Json → Option CredentialRotation
unfolding find_member read_string
decode_rotation j = struct_members j >>= λ m. read_string (find_member m "jwt") >>= λ jwt.
    read_string (find_member m "apiKey") >>= λ api_key.
    read_string (find_member m "wsEndpoint") >>= λ ws_endpoint.
    some (record { jwt = jwt; api_key = api_key; ws_endpoint = ws_endpoint })
