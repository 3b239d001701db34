-- ===== src/Manager/Workflow.antt =====
-- manager/workflow.go: the workflow coordinator. It starts tasks through the service, which is the
-- argument `start`; the service calls it back from StartTask.
pub mod Conditions
use propeller.Prelude.{
  ℕ, String, Bool, true, false, Option, none, some, List, [], ◌∷◌, str_eq, if◌then◌else◌, ◌||◌,
}
use propeller.Task.{
  State, pending, scheduled, running, completed, failed, skipped, interrupted, Task, is_terminal,
}
use propeller.Dag.{get_ready_tasks}
use propeller.Outcome.{Result, ok, err}
use propeller.Manager.State.{Env, Svc, Action, and_then, ◌>>=◌, ◌>>◌, pure, ignore, now}
use propeller.Manager.Repos.{task_get, task_update, list_by_workflow_id}

unfoldable pub is_completed : State → Bool
is_completed completed = true
is_completed _ = false

unfoldable pub is_failed : State → Bool
is_failed failed = true
is_failed _ = false

-- Running or Scheduled.
unfoldable pub is_active : State → Bool
is_active running = true
is_active scheduled = true
is_active _ = false

parent_completed : Option State → Bool
unfolding is_completed
parent_completed none = false
parent_completed (some s) = is_completed s

parent_failed : Option State → Bool
unfolding is_failed
parent_failed none = false
parent_failed (some s) = is_failed s

all_completed : (String → Option State) → List String → Bool
unfolding parent_completed
all_completed parents [] = true
all_completed parents (d ∷ ds) =
    if parent_completed (parents d) then all_completed parents ds else false

any_failed : (String → Option State) → List String → Bool
unfolding parent_failed
any_failed parents [] = false
any_failed parents (d ∷ ds) = if parent_failed (parents d) then true else any_failed parents ds

run_condition : String → (String → Option State) → List String → Bool
unfolding all_completed any_failed
run_condition run_if parents deps =
    if str_eq run_if "success"
    then all_completed parents deps
    else if str_eq run_if "failure"
    then any_failed parents deps
    else false

unfoldable pub evaluate_conditional_execution : Task → (String → Option State) → Bool
unfolding run_condition
evaluate_conditional_execution t parents = elim t.depends_on [
  | [] ↦ true
  | d ∷ ds ↦ run_condition (if str_eq t.run_if "" then "success" else t.run_if) parents (d ∷ ds)
]

-- `completed[t.ID] = t.State` for the tasks that have ended, then read at an id.
unfoldable completed_states : List Task → String → Option State
unfolding is_terminal
completed_states [] id = none
completed_states (t ∷ ts) id =
    let here =
      if is_terminal t.state then if str_eq t.id id then some t.state else none else none in
    elim (completed_states ts id) [ some s ↦ some s | none ↦ here ]

module _ (env : Env) (start : String → Action (Unit {0})) where
  skip_task : Task → Action (Unit {0})
  unfolding task_update now
  skip_task t = do
    n ← now env
    ignore (task_update env (record t { state = skipped; updated_at = n }))

  -- One round of the loop over the ready tasks.
  handle_ready : (String → Option State) → Task → Action (Unit {0})
  unfolding is_active skip_task evaluate_conditional_execution
  handle_ready parents t =
      if is_active t.state
      then pure tt
      else if evaluate_conditional_execution t parents
      then ignore (start t.id)
      else skip_task t

  handle_all : (String → Option State) → List Task → Action (Unit {0})
  unfolding handle_ready
  handle_all parents [] = pure tt
  handle_all parents (t ∷ ts) = do handle_ready parents t; handle_all parents ts

  unfoldable pub check_and_start_ready_tasks : String → Action (Unit {0})
  unfolding handle_all list_by_workflow_id get_ready_tasks completed_states
  check_and_start_ready_tasks workflow_id = do
    tasks ← list_by_workflow_id env workflow_id
    handle_all (completed_states tasks) (get_ready_tasks tasks (completed_states tasks))

  unfoldable pub on_task_completion : String → Action (Unit {0})
  unfolding check_and_start_ready_tasks task_get
  on_task_completion task_id = do
    t ← task_get env task_id
    if str_eq t.workflow_id "" then pure tt else check_and_start_ready_tasks t.workflow_id
