-- ===== src/Manager/Shutdown.antt =====
-- The shutdown of the service and the recovery after it (manager/service.go). The waits for
-- goroutines and for the stop of tasks take time and change nothing, so they are left out; the
-- recoveries run at once in Go, here in the order of the list.
pub mod Covered
pub mod Settled
use propeller.Prelude.{
  ℕ, String, Bool, true, false, Option, none, some, List, [], ◌∷◌, str_eq, if◌then◌else◌,
}
use propeller.Task.{State, failed, interrupted, Task}
use propeller.Errors.{Err}
use propeller.Outcome.{Result, ok, err}
use propeller.Manager.State.{
  Env, Svc, Action, stop_message, and_then, ◌>>=◌, ◌>>◌, pure, try, ignore, now,
}
use propeller.Manager.Repos.{task_update, pin_get, publish}
use propeller.Manager.Workflow.{is_active}
use propeller.Manager.Listing.{list_all_tasks}
use propeller.Manager.Stop.{interrupt_all}

unfoldable is_interrupted : State → Bool
is_interrupted interrupted = true
is_interrupted _ = false

-- The proplet of an active task: the one of its pin, or else the one that it names.
proplet_of : Task → Result String → Option String
proplet_of t (ok id) = some id
proplet_of t (err e) = if str_eq t.proplet_id "" then none else some t.proplet_id

module _ (env : Env) where
  tell_stop : Task → Option String → Action (Unit {0})
  unfolding publish
  tell_stop t none = pure tt
  tell_stop t (some id) = ignore (publish env (stop_message t.id none (some id)))

  signal_stop : Task → Action (Unit {0})
  unfolding tell_stop proplet_of pin_get is_active
  signal_stop t =
      if is_active t.state
      then (do r ← try (pin_get env t.id); tell_stop t (proplet_of t r))
      else pure tt

  signal_all : List Task → Action (Unit {0})
  unfolding signal_stop
  signal_all [] = pure tt
  signal_all (t ∷ ts) = do signal_stop t; signal_all ts

  unfoldable pub signal_stop_to_active_tasks : Action (Unit {0})
  unfolding signal_all list_all_tasks
  signal_stop_to_active_tasks = do ts ← list_all_tasks env; signal_all ts

  unfoldable pub interrupt_running_tasks : Action (Unit {0})
  unfolding interrupt_all list_all_tasks now
  interrupt_running_tasks = do ts ← list_all_tasks env; n ← now env; interrupt_all env n ts

  -- `svc.shuttingDown.Store(true)`.
  close_door : Action (Unit {0})
  close_door s = (ok tt, record s { shutting_down = true })

  unfoldable pub shutdown : Action (Unit {0})
  unfolding close_door signal_stop_to_active_tasks interrupt_running_tasks
  shutdown = do close_door; ignore signal_stop_to_active_tasks; ignore interrupt_running_tasks

  -- The stop message of a recovery, which has no broadcast field.
  tell_recovered : Task → Result String → Action (Unit {0})
  unfolding publish
  tell_recovered t (ok id) = ignore (publish env (stop_message t.id none (some id)))
  tell_recovered t (err e) = pure tt

  recover : ℕ → Task → Action (Unit {0})
  unfolding tell_recovered pin_get task_update
  recover time t = do
    r ← try (pin_get env t.id)
    tell_recovered t r
    ignore (
        task_update env
          (record t { state = failed; error = "interrupted by shutdown"; updated_at = time }))

  recover_all : ℕ → List Task → Action (Unit {0})
  unfolding recover is_interrupted
  recover_all time [] = pure tt
  recover_all time (t ∷ ts) = do
    if is_interrupted t.state then recover time t else pure tt
    recover_all time ts

  unfoldable pub recover_interrupted_tasks : Action (Unit {0})
  unfolding recover_all list_all_tasks now
  recover_interrupted_tasks = do ts ← list_all_tasks env; n ← now env; recover_all n ts
