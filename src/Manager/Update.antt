-- ===== src/Manager/Update.antt =====
-- UpdateTask and DeleteTask of manager/service.go.
pub mod Gone
use propeller.Prelude.{
  ℕ, String, Bool, true, false, Option, none, some, List, str_eq, if◌then◌else◌, ◌==◌, not, ◌&&◌,
}
use propeller.Value.{Fields}
use propeller.Task.{Task}
use propeller.Errors.{invalid_cron}
use propeller.Outcome.{ok, err}
use propeller.Manager.State.{Env, Svc, Action, and_then, ◌>>=◌, ◌>>◌, pure, throw, ignore, now}
use propeller.Manager.Repos.{task_get, task_update, task_delete}
use propeller.Manager.Create.{or_default, default_timezone, schedule_task, unschedule_task}

-- The fields of the request that UpdateTask reads; none is a nil slice or map.
pub record TaskChange : Type 0 where
  pub id : String
  pub name : String
  pub inputs : Option (List String)
  pub file : Option (List ℕ)
  pub priority : ℕ
  pub metadata : Option Fields
  pub schedule : String
  pub is_recurring : Bool
  pub timezone : String

abbrev or_old : {A : Type 0} → Option A → A → A
or_old none a = a
or_old (some b) a = b

-- The fields without the schedule.
unfoldable merge_change : TaskChange → ℕ → Task → Task
merge_change c n t = record t {
  updated_at = n;
  name = or_default c.name t.name;
  inputs = or_old c.inputs t.inputs;
  program = record t.program { file = or_old c.file t.program.file };
  priority = (if c.priority == 0 then t.priority else c.priority);
  metadata = or_old c.metadata t.metadata;
}

module _ (env : Env) where
  -- The task with its schedule, and `scheduleChanged`.
  merge_schedule : TaskChange → Task → Action (Task × Bool)
  unfolding now
  merge_schedule c t =
      if str_eq c.schedule ""
      then pure (
          if str_eq t.schedule ""
          then (t, false)
          else (record t { schedule = ""; next_run = 0; is_recurring = false }, true))
      else if str_eq c.schedule t.schedule
      then pure (t, false)
      else if env.parse_cron c.schedule
      then (do
        m ← now env
        pure (
          record t {
            schedule = c.schedule;
            is_recurring = c.is_recurring;
            timezone = or_default c.timezone default_timezone;
            next_run = env.next_run c.schedule m (or_default c.timezone default_timezone);
          },
          true,
        ))
      else throw invalid_cron

  -- `updateCronTask`.
  unfoldable update_cron_task : Task → Action (Unit {0})
  unfolding schedule_task unschedule_task
  update_cron_task t =
      if str_eq t.schedule ""
      then ignore (unschedule_task env t.id)
      else ignore (schedule_task env t.id)

  unfoldable pub update_task : TaskChange → Action Task
  unfolding merge_change merge_schedule update_cron_task task_get task_update now
  update_task c = do
    old ← task_get env c.id
    n ← now env
    r ← merge_schedule c (merge_change c n old)
    task_update env r.0
    if r.1 then update_cron_task r.0 else pure tt
    pure r.0

  unfoldable pub delete_task : String → Action (Unit {0})
  unfolding unschedule_task task_delete
  delete_task id = do ignore (unschedule_task env id); task_delete env id
