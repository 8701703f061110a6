-- ===== src/Telemetry/Gauge.antt =====
-- What `SetState` leaves in the gauge of each label.
use hive_agent.Prelude.{
  ℕ, String, ◌≡◌, refl, true, some, List, [], ◌∷◌, arith, ◌==◌, eq_iff, if◌then◌else◌, any,
}
use hive_agent.Prelude.GoMap.{GoMap, lookup, insert, lookup-insert}
use hive_agent.State.{AgentState, name}
use hive_agent.Telemetry.{Metrics, state_labels, set_labels, set_state}

-- A label of the list gets 1 if it is the state and else 0; any other keeps its gauge.
lookup-set_labels :
    (labels : List String) (state k : String) (g : GoMap ℕ)
    → lookup k (set_labels labels state g)
      ≡ (if any labels (λ s. s == k) then some (if k == state then 1 else 0) else lookup k g)
unfolding set_labels
lookup-set_labels [] state k g = refl
lookup-set_labels (s ∷ labels) state k g = ground (
  arith,
  lookup-set_labels labels state k (insert s (if s == state then 1 else 0) g),
  lookup-insert s k (if s == state then 1 else 0) g,
  eq_iff s k,
  eq_iff s state,
  eq_iff k state,
)

label_listed : (s : AgentState) → any state_labels (λ l. l == name s) ≡ true
label_listed AgentState.pending_key = refl
label_listed _ = refl

-- After `SetState` of a state's name, the gauge of each of the seven states reads 1 for that state
-- and 0 for the others.
pub gauge-set_state :
    (m : Metrics) (current s : AgentState)
    → lookup (name s) (set_state m (name current)).agent_state
      ≡ some (if name s == name current then 1 else 0)
unfolding set_state
gauge-set_state m current s = rw lookup-set_labels (rw (label_listed s))
