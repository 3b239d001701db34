-- ===== src/Manager/Launch.antt =====
-- StartJob of manager/service.go with its three orders. `start` is StartTask. The goroutines of the
-- parallel start run one after the other here; of its errors, which Go joins, the first is kept.
-- `order` is the order in which TopologicalSort goes through its map.
pub mod Unstopped
pub mod Ready
use propeller.Prelude.{
  ℕ, String, Bool, true, false, Option, none, some, List, [], ◌∷◌, str_eq, if◌then◌else◌,
  trim_space,
}
use propeller.Task.{State, Task}
use propeller.Dag.{validate_dependencies_exist, validate_dag, get_ready_tasks}
use propeller.Dag.Sort.{sorted, refused, topological_sort}
use propeller.Errors.{
  Err, shutting_down, job_without_tasks, execution_mode_unset, invalid_execution_mode, sort_failed,
}
use propeller.Outcome.{ok, err}
use propeller.Manager.State.{
  Env, Svc, Action, and_then, ◌>>=◌, ◌>>◌, pure, throw, get, try, from_result,
}
use propeller.Manager.Repos.{list_by_job_id, job_get}
use propeller.Manager.Create.{check_dependencies}
use propeller.Manager.Stop.{is_root, stop_job_tasks, start_job_sequential}

-- `completed` of startJobConfigurable is an empty map.
abbrev pub nothing_completed : String → Option State
nothing_completed id = none

module _ (env : Env) (start : String → Action (Unit {0})) where
  start_roots : List Task → Action (List Err)
  unfolding is_root
  start_roots [] = pure []
  start_roots (t ∷ ts) = do
    r ← try (if is_root t then start t.id else pure tt)
    es ← start_roots ts
    pure (elim r [ ok _ ↦ es | err e ↦ e ∷ es ])

  stop_on_errors : List Task → List Err → Action (Unit {0})
  unfolding stop_job_tasks
  stop_on_errors tasks [] = pure tt
  stop_on_errors tasks (e ∷ es) = do stop_job_tasks env tasks; throw e

  unfoldable start_job_parallel : List Task → Action (Unit {0})
  unfolding start_roots stop_on_errors
  start_job_parallel tasks = do es ← start_roots tasks; stop_on_errors tasks es

  -- The loop over the ready tasks; `all` are the tasks of the job.
  unfoldable pub start_ready : List Task → List Task → Action (Unit {0})
  unfolding stop_job_tasks
  start_ready all [] = pure tt
  start_ready all (t ∷ ts) = do
    r ← try (start t.id)
    let rest = start_ready all ts
    elim r [ ok _ ↦ rest | err e ↦ (do stop_job_tasks env all; throw e) ]

  unfoldable pub start_job_configurable : List String → List Task → Action (Unit {0})
  unfolding start_ready topological_sort get_ready_tasks
  start_job_configurable order tasks = elim (topological_sort order tasks) [
    | refused e ↦ throw (sort_failed e)
    | sorted ts ↦ start_ready tasks (get_ready_tasks ts nothing_completed)
  ]

  -- The mode that is stored with the job, where jobs are stored.
  stored_mode : String → Action String
  unfolding job_get trim_space
  stored_mode id = do
    r ← try (job_get env id)
    pure (elim r [ ok j ↦ trim_space j.execution_mode | err e ↦ "" ])

  execution_mode : String → Action String
  unfolding stored_mode trim_space
  execution_mode id = do
    s ← get
    mode ← if s.has_job_repo then stored_mode id else pure ""
    pure (if str_eq mode "" then trim_space env.job_execution_mode else mode)

  start_in_mode : String → List String → List Task → Action (Unit {0})
  unfolding start_job_parallel start_job_sequential start_job_configurable
  start_in_mode mode order tasks =
      if str_eq mode "parallel"
      then start_job_parallel tasks
      else if str_eq mode "sequential"
      then start_job_sequential env start tasks tasks
      else if str_eq mode "configurable"
      then start_job_configurable order tasks
      else throw invalid_execution_mode

  unfoldable pub start_job : (List Task → List String) → String → Action (Unit {0})
  unfolding start_in_mode execution_mode check_dependencies list_by_job_id
  start_job order id = do
    s ← get
    if s.shutting_down then throw shutting_down else pure tt
    tasks ← list_by_job_id env id
    elim tasks [ [] ↦ throw job_without_tasks | t ∷ ts ↦ pure tt ]
    mode ← execution_mode id
    if str_eq mode "" then throw execution_mode_unset else pure tt
    check_dependencies tasks
    start_in_mode mode (order tasks) tasks
