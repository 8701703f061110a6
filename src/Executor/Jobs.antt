-- ===== src/Executor/Jobs.antt =====
-- The goroutines that internal/websocket/manager.go starts with `go m.exec.Execute(ctx, cmd,
-- m.Send)`, one for each command, and `Send`, through which they answer. Between two uses of
-- something shared a goroutine makes one turn.
use hive_agent.Prelude.{
  ℕ, ◌+◌, String, Option, none, some, List, [], ◌∷◌, ◌++◌, ◌==◌, if◌then◌else◌, map, get_elem?, set,
  filter_by, eqb,
}
use hive_agent.Prelude.Int.{ℤ}
use hive_agent.Value.{Float64}
use hive_agent.Kube.Api.{Clientset}
use hive_agent.Telemetry.{Metrics}
use hive_agent.Commands.Run.{Request, Response, Clock, execute}
use hive_agent.Executor.{Message, command_status, command_result, Executor}

-- Where the goroutine of a command stands, by what it does next; `counting` and `answering` hold the
-- result.
pub data Phase : Type 0 where
  starting : Phase
  executing : Phase
  counting : Response → Phase
  answering : Response → Phase
  finished : Phase

pub record Job : Type 0 where
  pub request : Request
  pub phase : Phase

-- `conn` is the number of the connection stored last, `passed` what each goroutine has passed to
-- `Send`, by its number, and `written` what `Send` has handed to the connections.
pub record Crew : Type 0 where
  pub jobs : List Job
  pub conn : Option ℕ
  pub metrics : Metrics
  pub passed : List (ℕ × Message)
  pub written : List (ℕ × Message)

-- `Send`: the error, if the connection's write gives one, and what is handed to which connection.
unfoldable pub send :
    (ℕ → Message → Option String) → Option ℕ → Message → Option String × List (ℕ × Message)
send write_json none msg = (some "context canceled", [])
send write_json (some c) msg = (write_json c msg, (c, msg) ∷ [])

-- A message of a goroutine; the error of `Send` is dropped.
unfoldable pub tell : (ℕ → Message → Option String) → ℕ → Message → Crew → Crew
unfolding send
tell write_json i msg crew =
    let (failure, over) = send write_json crew.conn msg in
    record crew { passed = crew.passed ++ (i, msg) ∷ []; written = crew.written ++ over }

abbrev pub to_phase : ℕ → Job → Phase → Crew → Crew
to_phase i job phase crew = record crew { jobs = set crew.jobs i (record job { phase = phase }) }

unfoldable pub count : Response → Metrics → Metrics
count res m =
    if res.status == "failed"
    then record m { command_failures = m.command_failures + 1 }
    else record m { commands = m.commands + 1 }

-- What happens to the goroutines: a command arrives, a connection is stored, or the i-th makes a turn.
pub data Event : Type 0 where
  arrives : Request → Event
  connects : ℕ → Event
  works : ℕ → ℕ → Clientset → Clock → Event

module _ (wild : Float64 → ℤ) (e : Executor) (write_json : ℕ → Message → Option String) where
  -- one turn of `Execute`, at a time, over what the cluster answers then
  unfoldable pub turn : ℕ → Clientset → Clock → ℕ → Job → Crew → Crew
  unfolding tell count
  turn now kube clock i job crew = elim job.phase [
    | starting ↦
        tell write_json i (command_status job.request.request_id e.cluster_id "running" now)
          (to_phase i job executing crew)
    | executing ↦
        to_phase i job (counting (execute wild e.commands_cluster kube clock job.request)) crew
    | counting res ↦
        to_phase i job (answering res) (record crew { metrics = count res crew.metrics })
    | answering res ↦ tell write_json i (command_result res) (to_phase i job finished crew)
    | finished ↦ crew
  ]

  unfoldable pub happen : Event → Crew → Crew
  unfolding turn
  happen (arrives cmd) crew = record crew {
    jobs = crew.jobs ++ record { request = cmd; phase = starting } ∷ [];
  }
  happen (connects c) crew = record crew { conn = some c }
  happen (works i now kube clock) crew = elim (get_elem? crew.jobs i) [
    | none ↦ crew
    | some job ↦ turn now kube clock i job crew
  ]

  abbrev pub happen_all : List Event → Crew → Crew
  happen_all [] crew = crew
  happen_all (x ∷ later) crew = happen_all later (happen x crew)

-- What the i-th goroutine has passed to `Send`, in order.
abbrev pub of_job : ℕ → List (ℕ × Message) → List Message
of_job i l = map (λ x. x.1) (filter_by (λ x. eqb x.0 i) l)

abbrev pub no_crew : Option ℕ → Metrics → Crew
no_crew conn m = record { jobs = []; conn = conn; metrics = m; passed = []; written = [] }
