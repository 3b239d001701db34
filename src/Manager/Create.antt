-- ===== src/Manager/Create.antt =====
-- The creation of tasks, workflows and jobs (manager/service.go). Go's loops that overwrite the
-- slice of tasks give new tasks here.
pub mod Rollback
pub mod Atomic
use propeller.Prelude.{
  ℕ, String, true, false, none, some, List, [], ◌∷◌, ◌++◌, str_eq, if◌then◌else◌, ◌==◌,
}
use propeller.Task.{Task, Job}
use propeller.Dag.{validate_dependencies_exist, validate_dag}
use propeller.Errors.{
  proplet_id_with_broadcast, workflow_required, empty_workflow, empty_job, invalid_run_if,
  dependency_validation, dag_validation, invalid_cron,
}
use propeller.Outcome.{ok, err}
use propeller.Manager.State.{Env, Action, ◌>>=◌, ◌>>◌, pure, throw, get, try, ignore, now, new_uuid}
use propeller.Manager.Repos.{
  task_create, task_get, task_update, task_delete, list_by_workflow_id, job_create, job_delete,
}

abbrev pub default_timezone : String
default_timezone = "UTC"

abbrev pub or_default : String → String → String
or_default s default = if str_eq s "" then default else s

unfoldable pub check_dependencies : List Task → Action (Unit {0})
check_dependencies tasks = elim (validate_dependencies_exist tasks) [
  | some e ↦ throw (dependency_validation e)
  | none ↦ elim (validate_dag tasks) [ some e ↦ throw (dag_validation e) | none ↦ pure tt ]
]

-- The first workflow id, or job id, that a task brings along.
unfoldable pub first_id : (Task → String) → List Task → String → String
first_id id_of [] default = default
first_id id_of (t ∷ ts) default = if str_eq (id_of t) "" then first_id id_of ts default else id_of t

module _ (env : Env) where
  -- `updateNextRun` of manager/cron.go.
  unfoldable pub update_next_run : Task → Action (Unit {0})
  unfolding task_update now
  update_next_run t =
      if env.parse_cron t.schedule
      then (do
        n ← now env
        m ← now env
        task_update env (record t {
          next_run = env.next_run t.schedule n (or_default t.timezone default_timezone);
          updated_at = m;
        }))
      else throw invalid_cron

  -- `ScheduleTask` and `UnscheduleTask` of manager/cron.go.
  unfoldable pub schedule_task : String → Action (Unit {0})
  unfolding update_next_run task_get
  schedule_task id = do
    t ← task_get env id
    if str_eq t.schedule "" then pure tt else update_next_run t

  unfoldable pub unschedule_task : String → Action (Unit {0})
  unfolding task_get task_update
  unschedule_task id = do
    t ← task_get env id
    task_update env (record t { schedule = ""; next_run = 0 })

  -- The defaults and the first run that CreateTask fills in.
  with_next_run : Task → Action Task
  unfolding now
  with_next_run t =
      if str_eq t.schedule ""
      then pure t
      else if env.parse_cron t.schedule
      then (do
        n ← now env
        pure (record t {
          next_run = env.next_run t.schedule n (or_default t.timezone default_timezone);
        }))
      else throw invalid_cron

  check_new_task : Task → Action (Unit {0})
  unfolding check_dependencies list_by_workflow_id
  check_new_task t =
      if (if t.broadcast then (if str_eq t.proplet_id "" then false else true) else false)
      then throw proplet_id_with_broadcast
      else elim t.depends_on [
        | [] ↦ pure tt
        | d ∷ ds ↦ if str_eq t.workflow_id "" then throw workflow_required else (do
          tasks ← list_by_workflow_id env t.workflow_id
          check_dependencies (tasks ++ t ∷ []))
      ]

  unfoldable pub create_task : Task → Action Task
  unfolding check_new_task with_next_run new_uuid now task_create schedule_task
  create_task t = do
    check_new_task t
    id ← new_uuid env
    n ← now env
    t' ← with_next_run (record t {
      id = id;
      created_at = n;
      kind = or_default t.kind "standard";
      priority = (if t.priority == 0 then 50 else t.priority);
    })
    task_create env t'
    if str_eq t'.schedule "" then pure tt else ignore (schedule_task t'.id)
    pure t'

  -- An id for a task that has none.
  with_id : Task → Action Task
  unfolding new_uuid
  with_id t = if str_eq t.id "" then (do id ← new_uuid env; pure (record t { id = id })) else pure t

  in_workflow : String → List Task → Action (List Task)
  unfolding with_id now
  in_workflow w [] = pure []
  in_workflow w (t ∷ ts) = do
    t' ← with_id (record t { workflow_id = w })
    n ← now env
    rest ← in_workflow w ts
    pure (record t' { created_at = n } ∷ rest)

  in_job : String → ℕ → List Task → Action (List Task)
  unfolding with_id
  in_job j n [] = pure []
  in_job j n (t ∷ ts) = do
    t' ← with_id (record t { job_id = j })
    rest ← in_job j n ts
    pure (record t' { created_at = n } ∷ rest)

  check_run_if : List Task → Action (Unit {0})
  check_run_if [] = pure tt
  check_run_if (t ∷ ts) =
      if str_eq t.run_if ""
      then check_run_if ts
      else if str_eq t.run_if "success"
      then check_run_if ts
      else if str_eq t.run_if "failure"
      then check_run_if ts
      else throw (invalid_run_if t.id)

  -- The roll-back deletes what was created; its errors are logged.
  unfoldable pub rollback : List Task → Action (Unit {0})
  unfolding task_delete
  rollback [] = pure tt
  rollback (t ∷ ts) = do ignore (task_delete env t.id); rollback ts

  -- The loop that creates the tasks, `undo` after the roll-back of a failure.
  unfoldable pub create_all : Action (Unit {0}) → List Task → List Task → Action (List Task)
  unfolding rollback task_create
  create_all undo created [] = pure created
  create_all undo created (t ∷ ts) = do
    r ← try (task_create env t)
    let rest = create_all undo (created ++ t ∷ []) ts
    elim r [ ok _ ↦ rest | err e ↦ (do rollback created; undo; throw e) ]

  unfoldable pub create_workflow : List Task → Action (List Task)
  unfolding in_workflow check_dependencies check_run_if create_all new_uuid
  create_workflow [] = throw empty_workflow
  create_workflow (t ∷ ts) = do
    fresh ← new_uuid env
    tasks ← in_workflow (first_id (λ u. u.workflow_id) (t ∷ ts) fresh) (t ∷ ts)
    check_dependencies tasks
    check_run_if tasks
    create_all (pure tt) [] tasks

  -- The job's own record, where jobs are stored.
  store_job : Job → Action (Unit {0})
  unfolding job_create
  store_job j = do s ← get; if s.has_job_repo then job_create env j else pure tt

  unstore_job : String → Action (Unit {0})
  unfolding job_delete
  unstore_job id = do s ← get; if s.has_job_repo then ignore (job_delete env id) else pure tt

  unfoldable pub create_job : String → List Task → String → Action (String × List Task)
  unfolding in_job check_dependencies create_all store_job unstore_job new_uuid now
  create_job name [] mode = throw empty_job
  create_job name (t ∷ ts) mode = do
    fresh ← new_uuid env
    let id = first_id (λ u. u.job_id) (t ∷ ts) fresh
    n ← now env
    tasks ← in_job id n (t ∷ ts)
    check_dependencies tasks
    store_job
        (record { id = id; name = name; execution_mode = mode; created_at = n; updated_at = n })
    created ← create_all (unstore_job id) [] tasks
    pure (id, created)
