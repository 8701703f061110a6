-- ===== src/Lib.antt =====
-- Hive Agent: the agent that runs in a Kubernetes cluster, registers with a control plane, keeps a
-- tunnel to it, answers its commands with queries of the cluster, and reports health and inventory;
-- and the provider with which the control plane sends tool calls to the agents.
--
-- The parts and where they are modelled:
-- - internal/state/state.go: State.antt. `AgentState` is a string type in the source; its values
--   are the seven constants. State/Diagram has the edges of the table as a relation, State/Runs
--   sequences of calls.
-- - internal/telemetry/telemetry.go: Telemetry.antt. Telemetry/Mirror adds the callback that
--   cmd/agent/main.go installs between machine and gauges.
-- - internal/capabilities/capabilities.go: Capabilities.antt.
-- - internal/kubernetes/client.go: Kube/Health, Kube/Queries, Kube/Usage and Kube/Maps, one function
--   for each method. The API and its client are not part of the repository: `Clientset` of
--   Kube/Api.antt is what the API answers, and every function takes it.
-- - internal/commands/commands.go: Commands/Run (`Execute`, `run`, `fail`) and Commands/Params (`str`,
--   `integer` with the parser of numbers that it calls).
-- - internal/executor/executor.go: Executor.antt, with the messages in the order of sending; Executor/Jobs.antt
--   has the goroutines of several commands, turn by turn, and `Send` of internal/websocket/manager.go.
-- - internal/registration/client.go and internal/auth/token.go: Registration/Payload,
--   Registration/Retry, Registration/Client. HTTP is `Network`; the backoff library is `Backoff`, a
--   function with the law that it makes attempts until a success, a permanent error or its own end.
--   The token store is the field `token` of `Session`.
-- - internal/holmesprovider: Holmes/Types, Holmes/Tools, Holmes/Registry, Holmes/Provider. The goroutines
--   of `Invoke` end in the order of a schedule, which is an argument.
--   Holmes/Directory is the quotient of the registries that forgets the order of their maps.
-- - internal/inventory/inventory.go: Inventory/Objects (the objects of the informers and the mappers) and
--   Inventory.antt. The informers' calls and the turns of `flush` are steps in any order.
-- - internal/heartbeat/heartbeat.go: Heartbeat.antt.
-- - internal/websocket/manager.go: Websocket.antt. Each attempt is a `Dial`: an error, or the messages
--   that are read until the connection fails. Websocket/Alive and Websocket/Rotation follow the endpoint and
--   the token from one attempt to the next. Websocket/Deadlines has `ping` and the read deadlines, in
--   seconds.
-- - internal/config/config.go: Config.antt, over `Viper`, what the library's lookups give.
-- - cmd/agent/main.go: Agent.antt (machine, metrics and callback) and Boot.antt (`run` up to the start
--   of the goroutines, the health server, and what `main` prints).
--   Boot/Lifecycle is the whole of `run`, with its deferred calls, over Telemetry/Setup (`NewLogger`, `InitOTel`).
-- - The messages of the tunnel: Wire.antt, with the struct tags in Wire/Messages and the envelope of
--   internal/websocket/manager.go and internal/executor/executor.go in Wire/Frames. JSON is a tree; what
--   becomes of a value of type `any` and the text of a time is the parameter `Codec`. Wire/Relay follows a
--   call of the provider to the agent and back; the dispatcher between them is the control plane's.
-- - Holmes/Contract and Holmes/Declared compare the schemas of the tools with what the commands read.
-- - The goroutines of the tunnel and of the heartbeat, which share the machine, the metrics and the token
--   store: Process.antt, a step relation over the place of each goroutine. Process/Stages says what each place
--   tells, Process/Context what becomes of the tunnel once the context is done.
-- Value.antt is Go's `any` as far as such values occur; Prelude.antt and its children hold Go's
-- maps, sorting by strings, integers and the lemmas that the parts share; Samples.antt and the
-- modules Examples hold tests.
--
-- Maps are association lists, and the order of their entries stands for Go's order of iteration, which
-- is left open. Where the code reads the clock, the time is an argument. Sums that wrap are kept modulo
-- 2^64. Nothing runs on fuel: every loop of the code is structural here, on the list that it walks, the
-- attempts that are made, or the messages that arrive; only the retries are the library's, which is
-- trusted to return.
--
-- Not modelled: logging; the calls of client-go, TLS and cobra; the write deadlines; the JSON of the
-- bodies that the registration client posts; the turns of the commands and of the inventory between
-- those of Process.antt, since they touch neither the machine nor the tunnel's flag and gauge;
-- internal/grpc, which nothing uses; the chart, the protocol file and the tests.
pub mod Prelude
pub mod Process
pub mod Kube
pub mod Value
pub mod Capabilities
pub mod Commands
pub mod State
pub mod Telemetry
pub mod Holmes
pub mod Executor
pub mod Registration
pub mod Inventory
pub mod Agent
pub mod Heartbeat
pub mod Websocket
pub mod Wire
pub mod Config
pub mod Boot
mod Samples
