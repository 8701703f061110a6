-- ===== src/Wire/Sessions/Examples.antt =====
-- A session of internal/websocket/manager.go with a command, a rotation and a revocation.
use hive_agent.Prelude.{List, map, ◌≡◌, true, [], ◌∷◌}
use hive_agent.Telemetry.{new_metrics}
use hive_agent.Wire.Frames.{read_frames}
use hive_agent.Wire.RoundTrip.{received}
use hive_agent.Wire.Sessions.{Sent, a_command, a_rotation, a_revocation, written, serve-written}
use hive_agent.Samples.{session, answer}
use hive_agent.State.{online}
use hive_agent.Websocket.{Manager, serve}
use hive_agent.Samples.Wired.{codec, logs_command}

abbrev messages : List Sent
messages =
    a_command logs_command
    ∷ a_rotation (record { jwt = "token-2"; api_key = ""; ws_endpoint = "wss://hub2/ws" })
    ∷ a_revocation
    ∷ []

abbrev manager : Manager
manager = record {
  api_endpoint = "https://hub";
  session = session;
  reg = answer;
  agent = record {
    machine = record {
      state = online;
      reason = "websocket connected";
      updated = 3;
      on_change = true;
    };
    metrics = new_metrics;
  };
  connected = true;
  dialed = [];
  started = [];
}

serve-written_example :
    ((serve 5 (read_frames codec (map (written codec) messages)) manager).started
      ≡ received codec logs_command ∷ [])
    × ((serve 5 (read_frames codec (map (written codec) messages)) manager).session.token
        ≡ "token-2")
serve-written_example = serve-written codec 5 messages manager
