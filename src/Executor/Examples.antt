-- ===== src/Executor/Examples.antt =====
-- A refused command of internal/executor/executor.go.
use hive_agent.Executor.Jobs.{
  Event, arrives, connects, works, Crew, happen, happen_all, turn, tell, no_crew,
}
use hive_agent.Executor.Told.{crew-IsTold}
use hive_agent.Executor.Said.{IsTold}
use hive_agent.Prelude.{
  ℕ, String, Option, some, none, List, refl, length, if◌then◌else◌, eqb, ◌≡◌, [], ◌∷◌,
}
use hive_agent.Telemetry.{new_metrics}
use hive_agent.Executor.{Executor, Message}
use hive_agent.Samples.{cluster, wild, clock, delete_request, pod_request}

abbrev executor : Executor
executor = record { cluster_id = "c1"; commands_cluster = "c1" }

abbrev jobs : List Event
jobs =
    arrives delete_request
    ∷ arrives pod_request
    ∷ works 1 40 cluster clock
    ∷ works 0 41 cluster clock
    ∷ works 0 41 cluster clock
    ∷ connects 8
    ∷ works 1 42 cluster clock
    ∷ works 0 42 cluster clock
    ∷ works 0 43 cluster clock
    ∷ []

abbrev writes : ℕ → Message → Option String
writes c msg = if eqb c 7 then some "closed" else none

abbrev crew : Crew
crew = happen_all wild executor writes jobs (no_crew (some 7) new_metrics)

-- three messages have been passed to `Send`
three_passed : length crew.passed ≡ 3
unfolding happen turn tell
three_passed = refl

crew-IsTold_example : IsTold wild executor new_metrics crew
crew-IsTold_example = crew-IsTold wild executor writes (some 7) new_metrics jobs
