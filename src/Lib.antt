-- ===== src/Lib.antt =====
-- Propeller: the manager of WebAssembly tasks on a fleet of proplets, in Go.
--
-- A client creates tasks, workflows and jobs through the manager's API; the manager keeps them in a
-- repository, chooses a proplet for each, sends it a start message over MQTT, and follows the
-- messages that proplets send back. The development models the core of the manager:
--
--   * Value: the values of decoded JSON, with the readers of pkg/maps/maps.go.
--   * Task: the records and states of pkg/task/task.go, pkg/proplet/proplet.go, pkg/job/job.go.
--   * Dag: ValidateDAG, ValidateDependenciesExist, TopologicalSort, GetReadyTasks of
--     pkg/dag/validator.go. The depth-first search is on fuel, two more than there are tasks; the queue
--     of the sort is on fuel, one more than there are keys and tasks.
--   * Storage: the store of pkg/storage/memory.go, an association list.
--   * Repository: the task repository of pkg/storage/memory_adapter.go with its index of metadata.
--   * Badger: the repositories of pkg/storage/badger over a Badger database (Jobs, Proplets,
--     TaskProplets, Metrics, Tasks), and what becomes of their errors in pkg/storage/factory.go and
--     the service (Adapter). The database is an argument, an engine of transactions that may fail,
--     and what its documentation promises is a hypothesis.
--   * Scheduler: SelectProplet of pkg/scheduler/roundrobin.go and GetReadyTasksByPriority of
--     pkg/scheduler/priority.go.
--   * Jobs: ComputeJobState and computeJobSummary of manager/service.go.
--   * Fl: pkg/fl/aggregator.go (federated averaging; the operations on floats are an argument) and
--     the round files of pkg/fl/storage.go.
--   * Metrics: the metrics of manager/service.go and their repository in
--     pkg/storage/memory_adapter.go.
--   * Manager: the service of manager/service.go over the repositories (Repos). Its parts are the
--     proplets (Proplets), the plugins (Plugins), StartTask (Start), StopTask and the stop of jobs
--     (Stop), StartJob (Launch), CreateTask, CreateWorkflow and CreateJob (Create), UpdateTask and
--     DeleteTask (Update), the lists of tasks and jobs (Listing), the shutdown and the recovery
--     (Shutdown), the handlers of the messages of proplets (Handlers), of results (Results), of
--     metrics (Metrics) and of the start of a round (Rounds).
--     Beside it stand the coordinator of manager/workflow.go (Workflow), the scheduler of
--     manager/cron.go (Create, Cron), and manager/middleware/plugin.go, the service behind the
--     plugins (Middleware). A method is an action: a function of the service's state to a result and
--     a new state. The world answers through Env: which call of a repository or of the broker fails,
--     the clock, the ids, the plugins, the parser of cron expressions.
--     Manager/Invoke has the invocations of latent tasks: the calls that wait and the handler of the
--     results, as atomic steps that follow each other in any order, and InvokeTask over them.
--     Manager/Interface is the interface of the service in manager/manager.go over any state, and
--     Manager/Observe the service behind manager/middleware/logging.go, metrics.go and tracing.go.
--   * Api: the checks of requests in manager/api/requests.go, the endpoints of
--     manager/api/endpoint.go (Endpoint), the responses of manager/api/responses.go and the statuses
--     of errors in pkg/api/api.go (Response), the decoders of manager/api/transport.go (Decode) and
--     the endpoints of manager/api/fl_endpoints.go (Federated).
--   * Proxy: the chunks of an image and the loops of proxy/http.go and proxy/service.go.
--   * Prelude, Errors, Outcome: shared names, lists, the errors and the results of operations.
--   * Samples: sample data, and the theorems at them.
--
-- Numbers are Go's words where the code's arithmetic can wrap around: pages (Storage), the counts of
-- tasks (Manager/Proplets), the samples of updates (Fl/Aggregate). A time is its nanoseconds, 0 for
-- the zero time.
--
-- Bounds and fuel: the search of a graph whose dependencies exist has enough (Dag.Acyclic); the loop
-- of the round-robin choice has as many rounds as there are proplets; listAllActiveProplets and
-- listAllTasksFromRepo have one round more than there are proplets or tasks; the queue of the sort
-- takes in each key once (Dag.Sort.Rounds). StartTask calls the coordinator, which calls StartTask,
-- and there the fuel bounds the depth of the calls, since the code has no bound of its own.
--
-- Invocations (Manager/Invoke) and the fetches of the proxy (Proxy/Fetches) are steps in any order.
-- Elsewhere concurrency is left out: an action runs to its end before the next, and goroutines that
-- a method waits for run one after the other. Not modelled are the SQL stores, the HTTP and MQTT layers, the
-- plugins' WebAssembly host, the command line, and the proplets (Rust, C).
pub mod Prelude
pub mod Value
pub mod Task
pub mod Dag
pub mod Errors
pub mod Outcome
pub mod Storage
pub mod Repository
pub mod Scheduler
pub mod Manager
pub mod Metrics
pub mod Api
pub mod Badger
pub mod Fl
pub mod Proxy
pub mod Jobs
pub mod Samples
