-- ===== src/Manager/Results.antt =====
-- The handler of the results of tasks (manager/service.go). `start` is StartTask, `on_completion`
-- OnTaskCompletion of the coordinator. The notification of plugins runs beside it and is left out.
-- The two errors for a missing and for an empty id are one here.
pub mod Unfailing
pub mod Follow
pub mod Handled
use propeller.Prelude.{
  ℕ, String, Bool, true, false, Option, none, some, List, [], ◌∷◌, str_eq, contains, if◌then◌else◌,
}
use propeller.Value.{Value, nil, text, Fields, get_field}
use propeller.Task.{State, pending, completed, failed, skipped, Task, is_terminal}
use propeller.Outcome.{Result, ok, err}
use propeller.Manager.State.{Env, Svc, Action, and_then, ◌>>=◌, ◌>>◌, pure, try, ignore, now}
use propeller.Manager.Repos.{task_get, task_update, list_by_job_id}
use propeller.Manager.Stop.{stop_job_tasks}
use propeller.Manager.Handlers.{id_of}

-- `msg["results"]`, which is nil for a missing key.
value_of : Option Value → Value
value_of none = nil
value_of (some v) = v

-- `msg["error"].(string)`, or the empty text.
error_of : Option Value → String
error_of (some (text e)) = e
error_of _ = ""

-- The task with its result, at a time.
unfoldable pub with_results : ℕ → Fields → Task → Task
unfolding value_of error_of get_field
with_results n msg t =
    let e = error_of (get_field msg "error") in
    let done = record t {
      results = value_of (get_field msg "results");
      state = completed;
      updated_at = n;
      finish_time = n;
    } in
    if str_eq e "" then done else record done { error = e; state = failed }

is_pending : State → Bool
is_pending pending = true
is_pending _ = false

failed_state : State → Bool
failed_state failed = true
failed_state _ = false

-- Completed or Skipped.
is_over : State → Bool
is_over completed = true
is_over skipped = true
is_over _ = false

-- `allCompleted` and `hasFailed`.
unfoldable pub all_over : List Task → Bool
unfolding is_over
all_over [] = true
all_over (t ∷ ts) = if is_over t.state then all_over ts else false

unfoldable pub has_failed : List Task → Bool
unfolding failed_state
has_failed [] = false
has_failed (t ∷ ts) = if failed_state t.state then true else has_failed ts

module _ (env : Env) (start on_completion : String → Action (Unit {0})) where
  unfoldable pub all_dependencies_complete : List String → Action Bool
  unfolding task_get is_terminal
  all_dependencies_complete [] = pure true
  all_dependencies_complete (d ∷ ds) = do
    r ← try (task_get env d)
    let rest = all_dependencies_complete ds
    elim r [ err e ↦ pure false | ok dep ↦ if is_terminal dep.state then rest else pure false ]

  -- A round of the loop over the tasks of the job.
  start_dependent : String → Task → Action (Unit {0})
  unfolding all_dependencies_complete is_pending contains
  start_dependent completed_id t =
      if is_pending t.state
      then (if contains t.depends_on completed_id
          then (do
            complete ← all_dependencies_complete t.depends_on
            if complete then ignore (start t.id) else pure tt)
          else pure tt)
      else pure tt

  unfoldable pub start_job_dependent_tasks : String → List Task → Action (Unit {0})
  unfolding start_dependent
  start_job_dependent_tasks completed_id [] = pure tt
  start_job_dependent_tasks completed_id (t ∷ ts) = do
    start_dependent completed_id t
    start_job_dependent_tasks completed_id ts

  -- After the job's tasks are read: the rest of the job is stopped, or its next tasks are started.
  pub follow_up : Task → Result (List Task) → Action (Unit {0})
  unfolding start_job_dependent_tasks stop_job_tasks failed_state all_over has_failed
  follow_up t (err e) = pure tt
  follow_up t (ok ts) =
      if failed_state t.state
      then stop_job_tasks env ts
      else if all_over ts
      then pure tt
      else if has_failed ts
      then pure tt
      else start_job_dependent_tasks t.id ts

  after_result : String → Task → Action (Unit {0})
  unfolding follow_up list_by_job_id
  after_result id t =
      if str_eq t.job_id ""
      then ignore (on_completion id)
      else (do r ← try (list_by_job_id env t.job_id); follow_up t r; ignore (on_completion id))

  unfoldable pub update_results_handler : Fields → Action (Unit {0})
  unfolding id_of after_result with_results task_get task_update now get_field
  update_results_handler msg = do
    id ← id_of (get_field msg "task_id")
    t ← task_get env id
    n ← now env
    task_update env (with_results n msg t)
    after_result id (with_results n msg t)
