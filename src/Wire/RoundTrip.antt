-- ===== src/Wire/RoundTrip.antt =====
-- What is written on one side of the wire is what the other side reads.
use hive_agent.Prelude.{
  ◌≡◌, refl, true, inl, inr, Option, none, some, ◌==◌, eq_iff, Bool-cases, arith,
}
use hive_agent.Value.{Value, Object, empty, field}
use hive_agent.Commands.Run as Commands
use hive_agent.Holmes.Types.{AgentCommand, AgentResult}
use hive_agent.Registration.Payload.{CredentialRotation}
use hive_agent.Websocket.{command}
use hive_agent.Wire.{Codec, no_members, find_member}
use hive_agent.Wire.Fields.{
  omit_empty, omit_empty_map, encode_entries, decode_entries, read_map, fits_int64,
}
use hive_agent.Wire.Messages.{
  encode_command, decode_request, encode_response, decode_result, encode_rotation, decode_rotation,
}
use hive_agent.Wire.Frames.{envelope, read_frame}

-- What a value of type `any` is on the other side.
abbrev pub carried : Codec → Value → Value
carried c v = c.decode_any (c.encode_any v)

unfoldable pub carried_entries : Codec → Object → Object
carried_entries c empty = empty
carried_entries c (field k v m) = field k (carried c v) (carried_entries c m)

-- The parameters on the other side: none where there are none to write.
unfoldable pub carried_parameters : Codec → Option Object → Option Object
unfolding carried_entries
carried_parameters c none = none
carried_parameters c (some empty) = none
carried_parameters c (some (field k v m)) = some (carried_entries c (field k v m))

abbrev pub received : Codec → AgentCommand → Commands.Request
received c cmd = record {
  request_id = cmd.request_id;
  command = cmd.command;
  parameters = carried_parameters c cmd.parameters;
}

abbrev pub returned : Codec → Commands.Response → AgentResult
returned c r = record {
  cluster_id = r.cluster_id;
  cluster_name = "";
  command = r.command;
  request_id = r.request_id;
  timestamp = r.timestamp;
  data_value = carried c r.data_value;
  status = r.status;
  error = r.error;
  duration_millis = r.duration_millis;
}

decode-encode_entries :
    (c : Codec) (m : Object) → decode_entries c (encode_entries c m) ≡ carried_entries c m
unfolding decode_entries encode_entries carried_entries
decode-encode_entries c empty = refl
decode-encode_entries c (field k v m) = rw (decode-encode_entries c m) refl

parameters_carried :
    (c : Codec) (m : Option Object)
    → read_map c (find_member (omit_empty_map c "parameters" m no_members) "parameters")
      ≡ some (carried_parameters c m)
unfolding read_map omit_empty_map carried_parameters find_member
parameters_carried c none = refl
parameters_carried c (some empty) = refl
parameters_carried c (some (field k v m)) = rw (decode-encode_entries c (field k v m)) refl

-- An AgentCommand that the control plane writes in an envelope is the command that the tunnel reads,
-- with each parameter as the codec carries it; an empty map of parameters arrives as none.
pub read_frame-encode_command :
    (c : Codec) (cmd : AgentCommand)
    → read_frame c (envelope "command" (encode_command c cmd))
      ≡ some (command (some (received c cmd)))
unfolding read_frame encode_command decode_request
read_frame-encode_command c cmd = rw (parameters_carried c cmd.parameters) refl

-- The Response of a command is read back as the AgentResult with the same fields, no name of the
-- cluster, and the data as the codec carries it, if the time is read as it was written and the
-- duration fits an int64.
pub decode_result-encode_response :
    (c : Codec) (r : Commands.Response)
    → c.parse_time (c.format_time r.timestamp) ≡ some r.timestamp
    → fits_int64 r.duration_millis ≡ true
    → decode_result c (encode_response c r) ≡ some (returned c r)
unfolding decode_result encode_response omit_empty
decode_result-encode_response c r time fits = elim (Bool-cases (r.error == "")) [
  | inl e ↦
      let no_error : r.error ≡ "" = (eq_iff r.error "").0 e in rw (e, time, fits, no_error) refl
  | inr e ↦ rw (e, time, fits) refl
]

-- A rotation of credentials is read back as it was written, whichever of its fields are empty.
pub decode-encode_rotation : (r : CredentialRotation) → decode_rotation (encode_rotation r) ≡ some r
unfolding decode_rotation encode_rotation omit_empty
decode-encode_rotation r =
    ground (arith, eq_iff r.jwt "", eq_iff r.api_key "", eq_iff r.ws_endpoint "")
