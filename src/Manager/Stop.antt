-- ===== src/Manager/Stop.antt =====
-- StopTask, StopJob and the starts of a job (manager/service.go), and the interruption of running
-- tasks at the shutdown.
pub mod Effect
use propeller.Prelude.{
  ℕ, String, Bool, true, false, Option, none, some, List, [], ◌∷◌, str_eq, if◌then◌else◌,
}
use propeller.Task.{State, running, scheduled, interrupted, Task, Proplet}
use propeller.Errors.{Err}
use propeller.Outcome.{Result, ok, err}
use propeller.Manager.State.{
  Env, Svc, Action, stop_message, and_then, ◌>>=◌, ◌>>◌, pure, throw, try, ignore, now,
}
use propeller.Manager.Repos.{task_get, task_update, pin_get, pin_delete, publish, list_by_job_id}
use propeller.Manager.Proplets.{get_proplet, bump_down}
use propeller.Manager.Workflow.{is_active}

-- The tasks of a job that wait for no other.
unfoldable pub is_root : Task → Bool
is_root t = elim t.depends_on [ [] ↦ true | d ∷ ds ↦ false ]

module _ (env : Env) where
  stop_on_proplet : String → Task → Action (Unit {0})
  unfolding pin_get get_proplet publish pin_delete bump_down
  stop_on_proplet id t = do
    proplet_id ← pin_get env id
    p ← get_proplet env proplet_id
    publish env (stop_message t.id (some t.broadcast) (some proplet_id))
    pin_delete env id
    bump_down env p

  unfoldable pub stop_task : String → Action (Unit {0})
  unfolding stop_on_proplet task_get publish
  stop_task id = do
    t ← task_get env id
    if t.broadcast
        then publish env (stop_message t.id (some t.broadcast) none)
        else stop_on_proplet id t

  unfoldable pub stop_job_tasks : List Task → Action (Unit {0})
  unfolding stop_task is_active
  stop_job_tasks [] = pure tt
  stop_job_tasks (t ∷ ts) = do
    if is_active t.state then ignore (stop_task t.id) else pure tt
    stop_job_tasks ts

  unfoldable pub stop_job : String → Action (Unit {0})
  unfolding stop_job_tasks list_by_job_id
  stop_job id = do ts ← list_by_job_id env id; stop_job_tasks ts

  -- `start` is StartTask, `all` the tasks of the job.
  unfoldable pub start_job_sequential :
      (String → Action (Unit {0})) → List Task → List Task → Action (Unit {0})
  unfolding stop_job_tasks is_root
  start_job_sequential start all [] = pure tt
  start_job_sequential start all (t ∷ ts) = do
    r ← try (if is_root t then start t.id else pure tt)
    let rest = start_job_sequential start all ts
    elim r [ ok _ ↦ rest | err e ↦ (do stop_job_tasks all; throw e) ]

  -- A round of the loop of interruptRunningTasks, at the time that was read before it.
  unfoldable pub interrupt : ℕ → Task → Action (Unit {0})
  unfolding task_update is_active
  interrupt time t =
      if is_active t.state
      then ignore (
          task_update env (record t {
            state = interrupted;
            error = "interrupted by shutdown";
            finish_time = time;
            updated_at = time;
          }))
      else pure tt

  unfoldable pub interrupt_all : ℕ → List Task → Action (Unit {0})
  unfolding interrupt
  interrupt_all time [] = pure tt
  interrupt_all time (t ∷ ts) = do interrupt time t; interrupt_all time ts
