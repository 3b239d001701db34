-- ===== src/Manager/Observe/Tracing.antt =====
-- manager/middleware/tracing.go: the service behind the tracer. A span has its attributes before the
-- call, so that one that reads the named result reads the zero value.
use propeller.Prelude.{ℕ, String, List, [], ◌∷◌, length}
use propeller.Value.{Value, Fields}
use propeller.Task.{Task, Proplet}
use propeller.Jobs.{JobSummary}
use propeller.Metrics.{TaskMetrics, PropletMetrics}
use propeller.Manager.Update.{TaskChange}
use propeller.Manager.Interface.{Outside, Service, Method, Page, PageMetadata}
use propeller.Manager.Observe.{text, number, span, Seen, deferred}

module _ (O : Outside) {S : Type 0} (svc : Service O S) where
  unfoldable pub get_proplet_traced : String → Method (Seen S) Proplet
  get_proplet_traced id =
      deferred (λ _. span "get-proplet" (text "id" id ∷ [])) (svc.get_proplet id)

  unfoldable pub get_proplet_sdf_traced : String → Method (Seen S) O.Document
  get_proplet_sdf_traced id =
      deferred (λ _. span "get-proplet-sdf" (text "id" id ∷ [])) (svc.get_proplet_sdf id)

  unfoldable pub list_proplets_traced : ℕ → ℕ → String → Method (Seen S) (Page Proplet)
  list_proplets_traced offset limit status =
      deferred
        (λ _.
          span "list-proplets"
            (number "offset" offset ∷ number "limit" limit ∷ text "status" status ∷ []))
        (svc.list_proplets offset limit status)

  unfoldable pub select_proplet_traced : Task → Method (Seen S) Proplet
  select_proplet_traced t =
      deferred
        (λ _. span "create-task" (
          text "task.name" t.name
          ∷ text "task.id" t.id
          ∷ text "proplet.name" ""
          ∷ text "proplet.id" ""
          ∷ []))
        (svc.select_proplet t)

  unfoldable pub delete_proplet_traced : String → Method (Seen S) (Unit {0})
  delete_proplet_traced id =
      deferred (λ _. span "delete-proplet" (text "id" id ∷ [])) (svc.delete_proplet id)

  unfoldable pub create_task_traced : Task → Method (Seen S) Task
  create_task_traced t =
      deferred (λ _. span "create-task" (text "name" "" ∷ text "id" "" ∷ [])) (svc.create_task t)

  unfoldable pub create_workflow_traced : List Task → Method (Seen S) (List Task)
  create_workflow_traced tasks =
      deferred (λ _. span "create-workflow" (number "task_count" (length tasks) ∷ []))
        (svc.create_workflow tasks)

  unfoldable pub create_job_traced :
      String → List Task → String → Method (Seen S) (String × List Task)
  create_job_traced name tasks execution_mode =
      deferred
        (λ _. span "create-job" (
          text "job_name" name
          ∷ text "execution_mode" execution_mode
          ∷ number "task_count" (length tasks)
          ∷ []))
        (svc.create_job name tasks execution_mode)

  unfoldable pub get_task_traced : String → Method (Seen S) Task
  get_task_traced id = deferred (λ _. span "get-task" (text "id" id ∷ [])) (svc.get_task id)

  unfoldable pub get_job_traced : String → Method (Seen S) (List Task)
  get_job_traced job_id =
      deferred (λ _. span "get-job" (text "job_id" job_id ∷ [])) (svc.get_job job_id)

  unfoldable pub list_jobs_traced : ℕ → ℕ → String → Method (Seen S) (Page JobSummary)
  list_jobs_traced offset limit status =
      deferred
        (λ _.
          span "list-jobs"
            (number "offset" offset ∷ number "limit" limit ∷ text "status" status ∷ []))
        (svc.list_jobs offset limit status)

  unfoldable pub start_job_traced : String → Method (Seen S) (Unit {0})
  start_job_traced job_id =
      deferred (λ _. span "start-job" (text "job_id" job_id ∷ [])) (svc.start_job job_id)

  unfoldable pub stop_job_traced : String → Method (Seen S) (Unit {0})
  stop_job_traced job_id =
      deferred (λ _. span "stop-job" (text "job_id" job_id ∷ [])) (svc.stop_job job_id)

  unfoldable pub list_tasks_traced : PageMetadata → Method (Seen S) (Page Task)
  list_tasks_traced pm =
      deferred (λ _. span "list-tasks" (number "offset" pm.offset ∷ number "limit" pm.limit ∷ []))
        (svc.list_tasks pm)

  unfoldable pub update_task_traced : TaskChange → Method (Seen S) Task
  update_task_traced t =
      deferred (λ _. span "update-task" (text "id" "" ∷ text "name" "" ∷ [])) (svc.update_task t)

  unfoldable pub delete_task_traced : String → Method (Seen S) (Unit {0})
  delete_task_traced id =
      deferred (λ _. span "delete-task" (text "id" id ∷ [])) (svc.delete_task id)

  unfoldable pub start_task_traced : String → Method (Seen S) (Unit {0})
  start_task_traced id = deferred (λ _. span "start-task" (text "id" id ∷ [])) (svc.start_task id)

  unfoldable pub stop_task_traced : String → Method (Seen S) (Unit {0})
  stop_task_traced id = deferred (λ _. span "stop-task" (text "id" id ∷ [])) (svc.stop_task id)

  unfoldable pub invoke_task_traced :
      String → List String → List (String × String) → Method (Seen S) String
  invoke_task_traced id inputs env =
      deferred (λ _. span "invoke-task" (text "id" id ∷ [])) (svc.invoke_task id inputs env)

  unfoldable pub get_task_results_traced : String → Method (Seen S) Value
  get_task_results_traced task_id =
      deferred (λ _. span "get-task-results" (text "task_id" task_id ∷ []))
        (svc.get_task_results task_id)

  unfoldable pub get_parent_results_traced : String → Method (Seen S) Fields
  get_parent_results_traced task_id =
      deferred (λ _. span "get-parent-results" (text "task_id" task_id ∷ []))
        (svc.get_parent_results task_id)

  unfoldable pub get_task_metrics_traced : String → ℕ → ℕ → Method (Seen S) (Page TaskMetrics)
  get_task_metrics_traced task_id offset limit =
      deferred
        (λ _.
          span "get-task-metrics"
            (text "task_id" task_id ∷ number "offset" offset ∷ number "limit" limit ∷ []))
        (svc.get_task_metrics task_id offset limit)

  unfoldable pub get_proplet_metrics_traced : String → ℕ → ℕ → Method (Seen S) (Page PropletMetrics)
  get_proplet_metrics_traced proplet_id offset limit =
      deferred
        (λ _.
          span "get-proplet-metrics"
            (text "proplet_id" proplet_id ∷ number "offset" offset ∷ number "limit" limit ∷ []))
        (svc.get_proplet_metrics proplet_id offset limit)

  unfoldable pub get_proplet_alive_history_traced : String → ℕ → ℕ → Method (Seen S) (Page ℕ)
  get_proplet_alive_history_traced proplet_id offset limit =
      deferred
        (λ _.
          span "get-proplet-alive-history"
            (text "id" proplet_id ∷ number "offset" offset ∷ number "limit" limit ∷ []))
        (svc.get_proplet_alive_history proplet_id offset limit)

  unfoldable pub configure_experiment_traced : O.ExperimentConfig → Method (Seen S) (Unit {0})
  configure_experiment_traced config =
      deferred
        (λ _. span "configure-experiment" (
          text "experiment_id" (O.experiment_id config)
          ∷ text "round_id" (O.config_round_id config)
          ∷ []))
        (svc.configure_experiment config)

  unfoldable pub get_fl_task_traced : String → String → Method (Seen S) O.FlTask
  get_fl_task_traced round_id proplet_id =
      deferred
        (λ _. span "get-fl-task" (text "round_id" round_id ∷ text "proplet_id" proplet_id ∷ []))
        (svc.get_fl_task round_id proplet_id)

  unfoldable pub post_fl_update_traced : O.FlUpdate → Method (Seen S) (Unit {0})
  post_fl_update_traced update =
      deferred
        (λ _. span "post-fl-update" (
          text "round_id" (O.update_round_id update)
          ∷ text "proplet_id" (O.update_proplet_id update)
          ∷ []))
        (svc.post_fl_update update)

  unfoldable pub post_fl_update_cbor_traced : List ℕ → Method (Seen S) (Unit {0})
  post_fl_update_cbor_traced update_data =
      deferred (λ _. span "post-fl-update-cbor" (number "data_size" (length update_data) ∷ []))
        (svc.post_fl_update_cbor update_data)

  unfoldable pub get_round_status_traced : String → Method (Seen S) O.RoundStatus
  get_round_status_traced round_id =
      deferred (λ _. span "get-round-status" (text "round_id" round_id ∷ []))
        (svc.get_round_status round_id)

  unfoldable pub subscribe_traced : Method (Seen S) (Unit {0})
  subscribe_traced = deferred (λ _. span "subscribe" ([])) (svc.subscribe)

  unfoldable pub shutdown_traced : Method (Seen S) (Unit {0})
  shutdown_traced = deferred (λ _. span "shutdown" ([])) (svc.shutdown)

  unfoldable pub recover_interrupted_tasks_traced : Method (Seen S) (Unit {0})
  recover_interrupted_tasks_traced =
      deferred (λ _. span "recover-interrupted-tasks" ([])) (svc.recover_interrupted_tasks)

  -- `Tracing`.
  unfoldable pub tracing : Service O (Seen S)
  tracing = record {
    get_proplet = get_proplet_traced;
    get_proplet_sdf = get_proplet_sdf_traced;
    list_proplets = list_proplets_traced;
    select_proplet = select_proplet_traced;
    delete_proplet = delete_proplet_traced;
    create_task = create_task_traced;
    create_workflow = create_workflow_traced;
    create_job = create_job_traced;
    get_task = get_task_traced;
    get_job = get_job_traced;
    list_jobs = list_jobs_traced;
    start_job = start_job_traced;
    stop_job = stop_job_traced;
    list_tasks = list_tasks_traced;
    update_task = update_task_traced;
    delete_task = delete_task_traced;
    start_task = start_task_traced;
    stop_task = stop_task_traced;
    invoke_task = invoke_task_traced;
    get_task_results = get_task_results_traced;
    get_parent_results = get_parent_results_traced;
    get_task_metrics = get_task_metrics_traced;
    get_proplet_metrics = get_proplet_metrics_traced;
    get_proplet_alive_history = get_proplet_alive_history_traced;
    configure_experiment = configure_experiment_traced;
    get_fl_task = get_fl_task_traced;
    post_fl_update = post_fl_update_traced;
    post_fl_update_cbor = post_fl_update_cbor_traced;
    get_round_status = get_round_status_traced;
    subscribe = subscribe_traced;
    shutdown = shutdown_traced;
    recover_interrupted_tasks = recover_interrupted_tasks_traced;
  }
