-- ===== src/Wire.antt =====
-- The JSON that the agent and the control plane exchange: the struct tags of
-- internal/holmesprovider/types.go, internal/commands/commands.go and
-- internal/registration/client.go, and the envelope of internal/websocket/manager.go and
-- internal/executor/executor.go. JSON is a tree here; the keys of an object are taken to be
-- different and to be spelled as in the tags.
pub mod Fields
pub mod Messages
pub mod Frames
pub mod RoundTrip
pub mod Sessions
pub mod Parameters
pub mod Relay
pub mod Calls
mod Examples
use hive_agent.Prelude.{ℕ, String, Bool, Option, none, some, ◌==◌, if◌then◌else◌}
use hive_agent.Prelude.Int.{ℤ}
use hive_agent.Value.{Value, Object, empty, field, Float64}

-- A number is an `integer` where its text has no fraction and no exponent.
mutual
  pub data Json : Type 0 where
    null : Json
    boolean : Bool → Json
    integer : ℤ → Json
    real : Float64 → Json
    text : String → Json
    array : Items → Json
    members : Members → Json

  pub data Items : Type 0 where
    no_items : Items
    item : Json → Items → Items

  pub data Members : Type 0 where
    no_members : Members
    member : String → Json → Members → Members

-- What encoding/json makes of a value of type `any`, which may hold types of the Kubernetes libraries
-- with encoders of their own, what it decodes into an `any`, and the text of a time.
pub record Codec : Type 0 where
  pub encode_any : Value → Json
  pub decode_any : Json → Value
  pub format_time : ℕ → String
  pub parse_time : String → Option ℕ

-- the member of a key
unfoldable pub find_member : Members → String → Option Json
find_member no_members key = none
find_member (member k j rest) key = if k == key then some j else find_member rest key
