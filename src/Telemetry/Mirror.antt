-- ===== src/Telemetry/Mirror.antt =====
-- The callback of cmd/agent/main.go, `func(s) { metrics.SetState(string(s.State)) }`, keeps the state
-- gauge equal to the machine's state.
use hive_agent.Prelude.{◌≡◌, true, some, subst, List, [], ◌∷◌, ◌==◌, if◌then◌else◌}
use hive_agent.Prelude.GoMap.{lookup}
use hive_agent.State.{AgentState, Machine, Snapshot, name}
use hive_agent.State.Runs.{Call, Trail, run, run-Trail}
use hive_agent.Telemetry.{Metrics, set_state}
use hive_agent.Telemetry.Gauge.{gauge-set_state}

-- The callback, called with each snapshot in turn.
unfoldable pub observe : Metrics → List Snapshot → Metrics
observe m [] = m
observe m (s ∷ later) = observe (set_state m (name s.state)) later

-- The gauge of each state reads 1 if it is `current`, and else 0.
abbrev pub Shows : Metrics → AgentState → Type 0
Shows m current =
    (s : AgentState)
    → lookup (name s) m.agent_state ≡ some (if name s == name current then 1 else 0)

observe-Shows :
    (m : Metrics) (l : List Snapshot) (s t : AgentState)
    → Shows m s
    → Trail s l t
    → Shows (observe m l) t
unfolding observe
observe-Shows m [] s t h e = subst (Shows m) e h
observe-Shows m (x ∷ l) s t h (edge, other, later) =
    observe-Shows (set_state m (name x.state)) l x.state t (gauge-set_state m x.state) later

-- If the gauges show the machine's state, then they show it after any calls of `Transition`, with
-- the callback as the agent installs it.
pub run-Shows :
    (metrics : Metrics) (m : Machine) (calls : List Call)
    → m.on_change ≡ true
    → Shows metrics m.state
    → Shows (observe metrics (run m calls).1) (run m calls).0.state
run-Shows metrics m calls h shown =
    observe-Shows metrics (run m calls).1 m.state _ shown (run-Trail m calls h)
