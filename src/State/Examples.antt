-- ===== src/State/Examples.antt =====
-- A run of the machine of internal/state/state.go, with the theorems applied to it.
use hive_agent.Prelude.{◌≡◌, refl, true, List, [], ◌∷◌}
use hive_agent.State.{registered, connecting, online, pending_key, revoked, Machine, transition}
use hive_agent.State.Runs.{Call, Trail, run, run-Trail}

abbrev calls : List Call
calls = (registered, "a", 1) ∷ (online, "b", 2) ∷ (connecting, "c", 3) ∷ (online, "d", 4) ∷ []

abbrev machine : Machine
machine = record { state = pending_key; reason = ""; updated = 0; on_change = true }

abbrev revoked_machine : Machine
revoked_machine = record { state = revoked; reason = ""; updated = 0; on_change = true }

reaches_online : (run machine calls).0.state ≡ online
unfolding run transition
reaches_online = refl

run-Trail_example : Trail pending_key (run machine calls).1 (run machine calls).0.state
run-Trail_example = run-Trail machine calls refl
