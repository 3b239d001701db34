-- ===== src/Manager/Start.antt =====
-- StartTask of manager/service.go and what it calls. The texts that the code puts into a task's
-- error are kept without the text of the error inside.
pub mod Effect
pub mod Parents
pub mod Whole
use propeller.Prelude.{
  ℕ, zero, suc, String, Bool, true, false, Option, none, some, List, [], ◌∷◌, str_eq, if◌then◌else◌,
}
use propeller.Value.{Value, nil, obj, Fields, get_field}
use propeller.Task.{State, running, completed, failed, skipped, Task, Proplet}
use propeller.Errors.{shutting_down, unmet_dependencies, not_alive, unfinished}
use propeller.Outcome.{ok, err}
use propeller.Storage
use propeller.Manager.State.{
  Env, Action, StartPayload, start_message, stop_message, ◌>>=◌, ◌>>◌, pure, throw, get, try,
  ignore, from_result, now,
}
use propeller.Manager.Repos.{task_get, task_update, pin_create, pin_delete, publish}
use propeller.Manager.Plugins.{run_on_before_proplet_select, run_on_before_dispatch}
use propeller.Manager.Proplets.{get_proplet, select_proplet_with_constraints, bump_up, bump_down}
use propeller.Manager.Workflow.{check_and_start_ready_tasks, is_completed}

-- A dependency that no longer holds its task back: Completed, Failed or Skipped.
unfoldable is_met : State → Bool
is_met completed = true
is_met failed = true
is_met skipped = true
is_met _ = false

unfoldable pub is_obj : Option Value → Option Fields
is_obj (some (obj m)) = some m
is_obj _ = none

-- `t.ElasticConfig()`.
unfoldable pub elastic_config : Task → Option Fields
unfolding is_obj get_field
elastic_config t = is_obj (get_field t.metadata "elastic")

module _ (env : Env) where
  put_results : String → Value → List (String × Value) → List (String × Value)
  put_results dep_id nil results = results
  put_results dep_id v results = Storage.put dep_id v results

  -- A parent's entry in the results: it has completed and has results.
  add_results : String → Task → List (String × Value) → List (String × Value)
  add_results dep_id dep results =
      if is_completed dep.state then put_results dep_id dep.results results else results

  collect_results : List String → List (String × Value) → Action (List (String × Value))
  unfolding add_results put_results task_get
  collect_results [] results = pure results
  collect_results (d ∷ ds) results = do
    r ← try (task_get env d)
    collect_results ds (elim r [ ok dep ↦ add_results d dep results | err e ↦ results ])

  unfoldable pub get_parent_results : String → Action (List (String × Value))
  unfolding collect_results task_get
  get_parent_results task_id = do t ← task_get env task_id; collect_results t.depends_on []

  -- The parents' results, or none of them if they cannot be read.
  pub parent_results_of : Task → Action (List (String × Value))
  unfolding get_parent_results
  parent_results_of t = elim t.depends_on [
    | [] ↦ pure []
    | d ∷ ds ↦ do
      r ← try (get_parent_results t.id)
      pure (elim r [ ok results ↦ results | err e ↦ [] ])
  ]

  unfoldable pub start_payload : Task → String → List (String × Value) → StartPayload
  unfolding elastic_config
  start_payload t proplet_id results = record {
    id = t.id;
    name = t.name;
    state = t.state;
    program = t.program;
    inputs = t.inputs;
    broadcast = t.broadcast;
    latent = t.latent;
    env = t.env;
    proplet_id = proplet_id;
    parent_results = results;
    metadata = elastic_config t;
  }

  unfoldable pub publish_start : Task → String → Action (Unit {0})
  unfolding parent_results_of start_payload publish
  publish_start t proplet_id = do
    results ← parent_results_of t
    publish env (start_message (start_payload t proplet_id results))

  unfoldable publish_stop : Task → String → Action (Unit {0})
  unfolding publish
  publish_stop t proplet_id = publish env (stop_message t.id (some t.broadcast) (some proplet_id))

  -- The task that `persistTaskBeforeStart` and `markTaskRunning` leave behind their pointer.
  stamped : Task → Action Task
  unfolding now
  stamped t = do n ← now env; pure (record t { updated_at = n })

  made_running : Task → Action Task
  unfolding now
  made_running t = do
    n ← now env
    m ← now env
    pure (record t { state = running; start_time = n; updated_at = m })

  -- `_ = svc.taskRepo.Update(ctx, t)` on a task that is given up.
  give_up : Task → String → Action (Unit {0})
  unfolding now task_update
  give_up t reason = do
    n ← now env
    ignore (task_update env (record t { state = failed; error = reason; updated_at = n }))

  -- The end of StartTask once the count is up: on an error everything so far is taken back.
  finish_start : String → Task → Proplet → Action (Unit {0})
  unfolding made_running task_update pin_delete bump_down publish_stop give_up
  finish_start id t p = do
    t' ← made_running t
    r ← try (task_update env t')
    elim r [
      | ok _ ↦ pure tt
      | err e ↦ do
        ignore (pin_delete env id)
        ignore (bump_down env p)
        ignore (publish_stop t' p.id)
        give_up t' "failed to mark task running"
        throw e
    ]

  count_start : String → Task → Proplet → Action (Unit {0})
  unfolding finish_start bump_up pin_delete publish_stop give_up
  count_start id t p = do
    r ← try (bump_up env p)
    elim r [
      | ok _ ↦ finish_start id t p
      | err e ↦ do
        ignore (pin_delete env id)
        ignore (publish_stop t p.id)
        give_up t "failed to bump proplet task count"
        throw e
    ]

  announce_start : String → Task → Proplet → Action (Unit {0})
  unfolding count_start publish_start pin_delete give_up
  announce_start id t p = do
    r ← try (publish_start t p.id)
    elim r [
      | ok _ ↦ count_start id t p
      | err e ↦ do ignore (pin_delete env id); give_up t "failed to publish start message"; throw e
    ]

  -- From the pin of the task on.
  pub dispatch : String → Task → Proplet → Action (Unit {0})
  unfolding announce_start pin_create stamped task_update
  dispatch id t p = do
    pin_create env id p.id
    t' ← stamped (record t { proplet_id = p.id })
    task_update env t'
    announce_start id t' p

  start_broadcast : Task → Action (Unit {0})
  unfolding stamped task_update publish_start made_running
  start_broadcast t = do
    t' ← stamped t
    task_update env t'
    publish_start t' ""
    t'' ← made_running t'
    task_update env t''

  named_proplet : String → Action Proplet
  unfolding get_proplet
  named_proplet id = do p ← get_proplet env id; if p.alive then pure p else throw (not_alive id)

  start_on_proplet : String → Task → Action (Unit {0})
  unfolding named_proplet dispatch
  start_on_proplet id t = do
    c ← from_result (run_on_before_proplet_select env.plugins t)
    p ←
        if str_eq t.proplet_id ""
        then select_proplet_with_constraints env c
        else named_proplet t.proplet_id
    t' ← from_result (run_on_before_dispatch env.plugins t p)
    dispatch id t' p

  -- `coordinate` is CheckAndStartReadyTasks of the coordinator.
  refuse_unmet : (String → Action (Unit {0})) → String → Task → Action (Unit {0})
  refuse_unmet coordinate id t = do
    if str_eq t.workflow_id "" then pure tt else ignore (coordinate t.workflow_id)
    throw (unmet_dependencies id)

  pub check_task_dependencies :
      (String → Action (Unit {0})) → String → Task → List String → Action (Unit {0})
  unfolding refuse_unmet task_get is_met
  check_task_dependencies coordinate id t [] = pure tt
  check_task_dependencies coordinate id t (d ∷ ds) = do
    dep ← task_get env d
    let rest = check_task_dependencies coordinate id t ds
    if is_met dep.state then rest else refuse_unmet coordinate id t

  -- The body of StartTask, up to the task's start on a proplet or on all of them.
  start_with : (String → Action (Unit {0})) → String → Action (Unit {0})
  unfolding check_task_dependencies start_broadcast start_on_proplet
  start_with coordinate task_id = do
    s ← get
    if s.shutting_down then throw shutting_down else pure tt
    t ← task_get env task_id
    check_task_dependencies coordinate task_id t t.depends_on
    if t.broadcast then start_broadcast t else start_on_proplet task_id t

  -- StartTask, with as many calls inside one another as the fuel says: the check of dependencies may
  -- call the coordinator, which starts other tasks.
  unfoldable pub start_task : ℕ → String → Action (Unit {0})
  unfolding start_with
  start_task zero task_id = throw unfinished
  start_task (suc fuel) task_id =
      start_with (λ w. check_and_start_ready_tasks env (λ id. start_task fuel id) w) task_id
