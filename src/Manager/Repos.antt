-- ===== src/Manager/Repos.antt =====
-- The repositories as the service calls them: the in-memory store, behind calls that may fail.
use propeller.Prelude.{String, List, ◌∷◌, keep, str_eq}
use propeller.Task.{Task, Proplet, Job}
use propeller.Outcome.{Result, ok, err}
use propeller.Storage
use propeller.Manager.State.{
  Env, Svc, creating, reading, updating, deleting, publishing, Action, Message, ◌>>=◌, ◌>>◌, pure,
  get, from_result, external,
}

-- A store operation gives the state with the new store, or leaves the state as it is.
abbrev pub stored : {A : Type 0} → Result A → (A → Svc → Svc) → Action (Unit {0})
stored (ok a) write s = (ok tt, write a s)
stored (err e) write s = (err e, s)

-- The broker takes a message.
abbrev push : Message → Action (Unit {0})
push m s = (ok tt, record s { published = m ∷ s.published })

module _ (env : Env) where
  unfoldable pub task_create : Task → Action (Unit {0})
  task_create t = do
    external env creating
    s ← get
    stored (Storage.create t.id t s.tasks) (λ tasks s'. record s' { tasks = tasks })

  unfoldable pub task_get : String → Action Task
  task_get id = do external env reading; s ← get; from_result (Storage.get id s.tasks)

  unfoldable pub task_update : Task → Action (Unit {0})
  task_update t = do
    external env updating
    s ← get
    stored (Storage.update t.id t s.tasks) (λ tasks s'. record s' { tasks = tasks })

  unfoldable pub task_delete : String → Action (Unit {0})
  task_delete id = do
    external env deleting
    s ← get
    stored (Storage.delete id s.tasks) (λ tasks s'. record s' { tasks = tasks })

  -- `ListByWorkflowID` and `ListByJobID`: all values in the order of their keys, filtered.
  unfoldable pub list_by_workflow_id : String → Action (List Task)
  list_by_workflow_id id = do
    external env reading
    s ← get
    pure (keep (λ t. str_eq t.workflow_id id) (Storage.sorted_values s.tasks))

  unfoldable pub list_by_job_id : String → Action (List Task)
  list_by_job_id id = do
    external env reading
    s ← get
    pure (keep (λ t. str_eq t.job_id id) (Storage.sorted_values s.tasks))

  unfoldable pub proplet_create : Proplet → Action (Unit {0})
  proplet_create p = do
    external env creating
    s ← get
    stored (Storage.create p.id p s.proplets) (λ proplets s'. record s' { proplets = proplets })

  unfoldable pub proplet_repo_get : String → Action Proplet
  proplet_repo_get id = do external env reading; s ← get; from_result (Storage.get id s.proplets)

  unfoldable pub proplet_update : Proplet → Action (Unit {0})
  proplet_update p = do
    external env updating
    s ← get
    stored (Storage.update p.id p s.proplets) (λ proplets s'. record s' { proplets = proplets })

  unfoldable pub proplet_delete : String → Action (Unit {0})
  proplet_delete id = do
    external env deleting
    s ← get
    stored (Storage.delete id s.proplets) (λ proplets s'. record s' { proplets = proplets })

  unfoldable pub pin_create : String → String → Action (Unit {0})
  pin_create task_id proplet_id = do
    external env creating
    s ← get
    stored (Storage.create task_id proplet_id s.task_proplets)
        (λ pins s'. record s' { task_proplets = pins })

  unfoldable pub pin_get : String → Action String
  pin_get task_id = do
    external env reading
    s ← get
    from_result (Storage.get task_id s.task_proplets)

  unfoldable pub pin_delete : String → Action (Unit {0})
  pin_delete task_id = do
    external env deleting
    s ← get
    stored (Storage.delete task_id s.task_proplets) (λ pins s'. record s' { task_proplets = pins })

  unfoldable pub job_create : Job → Action (Unit {0})
  job_create j = do
    external env creating
    s ← get
    stored (Storage.create j.id j s.jobs) (λ jobs s'. record s' { jobs = jobs })

  unfoldable pub job_get : String → Action Job
  job_get id = do external env reading; s ← get; from_result (Storage.get id s.jobs)

  unfoldable pub job_delete : String → Action (Unit {0})
  job_delete id = do
    external env deleting
    s ← get
    stored (Storage.delete id s.jobs) (λ jobs s'. record s' { jobs = jobs })

  unfoldable pub publish : Message → Action (Unit {0})
  publish m = do external env publishing; push m
