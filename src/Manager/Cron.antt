-- ===== src/Manager/Cron.antt =====
-- The rounds of manager/cron.go: the scheduled tasks that are due are started, and the schedules
-- that were stored are loaded. `start` is StartTask of the service that the scheduler was given.
use propeller.Prelude.{
  ℕ, String, Bool, List, [], ◌∷◌, str_eq, if◌then◌else◌, ◌==◌, leb, ltb, not, ◌&&◌, ◌||◌, keep,
}
use propeller.Task.{Task}
use propeller.Scheduler.{get_ready_tasks_by_priority}
use propeller.Outcome.{Result, ok, err}
use propeller.Manager.State.{Env, Action, ◌>>=◌, ◌>>◌, pure, try, ignore, now}
use propeller.Manager.Repos.{task_get, task_update}
use propeller.Manager.Listing.{list_all_tasks}
use propeller.Manager.Create.{update_next_run}

-- The task has a schedule, and its next run is set and not after the time.
unfoldable is_due : ℕ → Task → Bool
is_due n t = not (str_eq t.schedule "") && not (t.next_run == 0) && leb t.next_run n

module _ (env : Env) where
  -- A one-time task loses its schedule.
  unfoldable clear_schedule : Task → Action (Unit {0})
  unfolding task_update now
  clear_schedule t = do
    n ← now env
    task_update env (record t { schedule = ""; next_run = 0; updated_at = n })

  -- After the start: the task is read again, and its schedule goes on or ends.
  reschedule : Task → Result (Unit {0}) → Action (Unit {0})
  unfolding clear_schedule update_next_run task_get
  reschedule t (err e) = pure tt
  reschedule t (ok _) = ignore (do
    fresh ← task_get env t.id
    if t.is_recurring then update_next_run env fresh else clear_schedule fresh)

  unfoldable trigger_all : (String → Action (Unit {0})) → List Task → Action (Unit {0})
  unfolding reschedule
  trigger_all start [] = pure tt
  trigger_all start (t ∷ ts) = do r ← try (start t.id); reschedule t r; trigger_all start ts

  unfoldable process_scheduled_tasks : (String → Action (Unit {0})) → Action (Unit {0})
  unfolding trigger_all is_due list_all_tasks now get_ready_tasks_by_priority
  process_scheduled_tasks start = do
    ts ← list_all_tasks env
    n ← now env
    trigger_all start (get_ready_tasks_by_priority (keep (λ t. is_due n t) ts))

  -- A round of the loop of loadScheduledTasks.
  load_schedule : Task → Action (Unit {0})
  unfolding update_next_run now
  load_schedule t = if str_eq t.schedule "" then pure tt else (do
    n ← now env
    if (t.next_run == 0) || ltb t.next_run n then ignore (update_next_run env t) else pure tt)

  load_all : List Task → Action (Unit {0})
  unfolding load_schedule
  load_all [] = pure tt
  load_all (t ∷ ts) = do load_schedule t; load_all ts

  unfoldable load_scheduled_tasks : Action (Unit {0})
  unfolding load_all list_all_tasks
  load_scheduled_tasks = do ts ← list_all_tasks env; load_all ts
