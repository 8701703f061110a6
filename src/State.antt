-- ===== src/State.antt =====
-- internal/state/state.go: the agent's state machine. A clock reading is an argument where the code
-- calls `time.Now`. `AgentState` is a string type in the source and its values are these seven.
pub mod Diagram
pub mod Runs
mod Examples
use hive_agent.Prelude.{
  ℕ, String, Bool, true, false, Option, none, some, List, [], ◌∷◌, ◌==◌, if◌then◌else◌,
}

pub data AgentState : Type 0 where
  pending_key registered connecting online degraded offline revoked : AgentState

-- The string that the constant stands for.
abbrev pub name : AgentState → String
name pending_key = "PENDING_KEY"
name registered = "REGISTERED"
name connecting = "CONNECTING"
name online = "ONLINE"
name degraded = "DEGRADED"
name offline = "OFFLINE"
name revoked = "REVOKED"

-- `allowed[from][to]`
unfoldable pub allowed : AgentState → AgentState → Bool
allowed pending_key registered = true
allowed pending_key revoked = true
allowed registered connecting = true
allowed registered revoked = true
allowed registered offline = true
allowed connecting online = true
allowed connecting degraded = true
allowed connecting offline = true
allowed connecting revoked = true
allowed online degraded = true
allowed online offline = true
allowed online connecting = true
allowed online revoked = true
allowed degraded online = true
allowed degraded offline = true
allowed degraded connecting = true
allowed degraded revoked = true
allowed offline connecting = true
allowed offline registered = true
allowed offline revoked = true
allowed _ _ = false

pub record Snapshot : Type 0 where
  pub state : AgentState
  pub reason : String
  pub updated_at : ℕ

-- `on_change` says whether a callback was given; the mutex is left out, since every method holds it
-- from its first line to its return.
pub record Machine : Type 0 where
  pub state : AgentState
  pub reason : String
  pub updated : ℕ
  pub on_change : Bool

unfoldable pub new : Bool → ℕ → Machine
new on_change now = record {
  state = pending_key;
  reason = "";
  updated = now;
  on_change = on_change;
}

unfoldable pub snapshot : Machine → Snapshot
snapshot m = record { state = m.state; reason = m.reason; updated_at = m.updated }

pub data TransitionError : Type 0 where
  invalid_transition : AgentState → AgentState → TransitionError

-- The new machine, the error, and the calls of the callback.
pub record Outcome : Type 0 where
  pub machine : Machine
  pub error : Option TransitionError
  pub notified : List Snapshot

unfoldable pub transition : Machine → AgentState → String → ℕ → Outcome
unfolding allowed snapshot
transition m next reason now =
    if name m.state == name next
    then record {
      machine = record m { reason = reason; updated = now };
      error = none;
      notified = [];
    }
    else if allowed m.state next
    then (let m' = record m { state = next; reason = reason; updated = now } in
        record {
          machine = m';
          error = none;
          notified = if m.on_change then snapshot m' ∷ [] else [];
        })
    else record { machine = m; error = some (invalid_transition m.state next); notified = [] }
