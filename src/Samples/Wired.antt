-- ===== src/Samples/Wired.antt =====
-- A codec for texts and numbers, and a command of the control plane.
use hive_agent.Prelude.{String, refl, none, some, [], ◌∷◌, ◌==◌, if◌then◌else◌}
use hive_agent.Prelude.Int.{pos}
use hive_agent.Value.{Value, nil, string, int, float64}
use hive_agent.Value.Fields.{literal}
use hive_agent.Holmes.Types.{AgentCommand}
use hive_agent.Wire.{Codec, Json, null, integer, text, array, no_items}
use hive_agent.Wire.Parameters.{IsPlain, float_of}

abbrev encode : Value → Json
encode (string s) = text s
encode (int n) = integer n
encode nil = null
encode _ = array no_items

abbrev decode : Json → Value
decode (text s) = string s
decode (integer n) = float64 (float_of n)
decode _ = nil

abbrev fifty : String
fifty = "1970-01-01T00:00:50Z"

abbrev pub codec : Codec
codec = record {
  encode_any = encode;
  decode_any = decode;
  format_time = λ t. fifty;
  parse_time = λ s. if s == fifty then some 50 else none;
}

pub codec-IsPlain : IsPlain codec
codec-IsPlain = record { texts = λ s. refl; numbers = λ n h. refl }

abbrev pub logs_command : AgentCommand
logs_command = record {
  request_id = "r4";
  command = "get_logs";
  parameters = some (
      literal (
        ("namespace", string "shop")
        ∷ ("name", string "web-1")
        ∷ ("tailLines", int (pos 20))
        ∷ []));
}
