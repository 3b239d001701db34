-- ===== src/Manager/Observe/Counting.antt =====
-- manager/middleware/metrics.go: the service behind the counter and the histogram.
use propeller.Prelude.{ℕ, String, List}
use propeller.Value.{Value, Fields}
use propeller.Task.{Task, Proplet}
use propeller.Jobs.{JobSummary}
use propeller.Metrics.{TaskMetrics, PropletMetrics}
use propeller.Manager.Update.{TaskChange}
use propeller.Manager.Interface.{Outside, Service, Method, Page, PageMetadata}
use propeller.Manager.Observe.{Seen, tallied}

module _ (O : Outside) {S : Type 0} (svc : Service O S) where
  unfoldable pub get_proplet_counted : String → Method (Seen S) Proplet
  get_proplet_counted id = tallied "get-proplet" (svc.get_proplet id)

  unfoldable pub get_proplet_sdf_counted : String → Method (Seen S) O.Document
  get_proplet_sdf_counted id = tallied "get-proplet-sdf" (svc.get_proplet_sdf id)

  unfoldable pub list_proplets_counted : ℕ → ℕ → String → Method (Seen S) (Page Proplet)
  list_proplets_counted offset limit status =
      tallied "list-proplets" (svc.list_proplets offset limit status)

  unfoldable pub select_proplet_counted : Task → Method (Seen S) Proplet
  select_proplet_counted t = tallied "select-proplet" (svc.select_proplet t)

  unfoldable pub delete_proplet_counted : String → Method (Seen S) (Unit {0})
  delete_proplet_counted id = tallied "delete-proplet" (svc.delete_proplet id)

  unfoldable pub create_task_counted : Task → Method (Seen S) Task
  create_task_counted t = tallied "create-task" (svc.create_task t)

  unfoldable pub create_workflow_counted : List Task → Method (Seen S) (List Task)
  create_workflow_counted tasks = tallied "create-workflow" (svc.create_workflow tasks)

  unfoldable pub create_job_counted :
      String → List Task → String → Method (Seen S) (String × List Task)
  create_job_counted name tasks execution_mode =
      tallied "create-job" (svc.create_job name tasks execution_mode)

  unfoldable pub get_task_counted : String → Method (Seen S) Task
  get_task_counted id = tallied "get-task" (svc.get_task id)

  unfoldable pub get_job_counted : String → Method (Seen S) (List Task)
  get_job_counted job_id = tallied "get-job" (svc.get_job job_id)

  unfoldable pub list_jobs_counted : ℕ → ℕ → String → Method (Seen S) (Page JobSummary)
  list_jobs_counted offset limit status = tallied "list-jobs" (svc.list_jobs offset limit status)

  unfoldable pub start_job_counted : String → Method (Seen S) (Unit {0})
  start_job_counted job_id = tallied "start-job" (svc.start_job job_id)

  unfoldable pub stop_job_counted : String → Method (Seen S) (Unit {0})
  stop_job_counted job_id = tallied "stop-job" (svc.stop_job job_id)

  unfoldable pub list_tasks_counted : PageMetadata → Method (Seen S) (Page Task)
  list_tasks_counted pm = tallied "list-tasks" (svc.list_tasks pm)

  unfoldable pub update_task_counted : TaskChange → Method (Seen S) Task
  update_task_counted t = tallied "update-task" (svc.update_task t)

  unfoldable pub delete_task_counted : String → Method (Seen S) (Unit {0})
  delete_task_counted id = tallied "delete-task" (svc.delete_task id)

  unfoldable pub start_task_counted : String → Method (Seen S) (Unit {0})
  start_task_counted id = tallied "start-task" (svc.start_task id)

  unfoldable pub stop_task_counted : String → Method (Seen S) (Unit {0})
  stop_task_counted id = tallied "stop-task" (svc.stop_task id)

  unfoldable pub invoke_task_counted :
      String → List String → List (String × String) → Method (Seen S) String
  invoke_task_counted id inputs env = tallied "invoke-task" (svc.invoke_task id inputs env)

  unfoldable pub get_task_results_counted : String → Method (Seen S) Value
  get_task_results_counted task_id = tallied "get-task-results" (svc.get_task_results task_id)

  unfoldable pub get_parent_results_counted : String → Method (Seen S) Fields
  get_parent_results_counted task_id = tallied "get-parent-results" (svc.get_parent_results task_id)

  unfoldable pub get_task_metrics_counted : String → ℕ → ℕ → Method (Seen S) (Page TaskMetrics)
  get_task_metrics_counted task_id offset limit =
      tallied "get-task-metrics" (svc.get_task_metrics task_id offset limit)

  unfoldable pub get_proplet_metrics_counted :
      String → ℕ → ℕ → Method (Seen S) (Page PropletMetrics)
  get_proplet_metrics_counted proplet_id offset limit =
      tallied "get-proplet-metrics" (svc.get_proplet_metrics proplet_id offset limit)

  unfoldable pub get_proplet_alive_history_counted : String → ℕ → ℕ → Method (Seen S) (Page ℕ)
  get_proplet_alive_history_counted proplet_id offset limit =
      tallied "get-proplet-alive-history" (svc.get_proplet_alive_history proplet_id offset limit)

  unfoldable pub configure_experiment_counted : O.ExperimentConfig → Method (Seen S) (Unit {0})
  configure_experiment_counted config =
      tallied "configure-experiment" (svc.configure_experiment config)

  unfoldable pub get_fl_task_counted : String → String → Method (Seen S) O.FlTask
  get_fl_task_counted round_id proplet_id =
      tallied "get-fl-task" (svc.get_fl_task round_id proplet_id)

  unfoldable pub post_fl_update_counted : O.FlUpdate → Method (Seen S) (Unit {0})
  post_fl_update_counted update = tallied "post-fl-update" (svc.post_fl_update update)

  unfoldable pub post_fl_update_cbor_counted : List ℕ → Method (Seen S) (Unit {0})
  post_fl_update_cbor_counted update_data =
      tallied "post-fl-update-cbor" (svc.post_fl_update_cbor update_data)

  unfoldable pub get_round_status_counted : String → Method (Seen S) O.RoundStatus
  get_round_status_counted round_id = tallied "get-round-status" (svc.get_round_status round_id)

  unfoldable pub subscribe_counted : Method (Seen S) (Unit {0})
  subscribe_counted = tallied "subscribe" (svc.subscribe)

  unfoldable pub shutdown_counted : Method (Seen S) (Unit {0})
  shutdown_counted = tallied "shutdown" (svc.shutdown)

  unfoldable pub recover_interrupted_tasks_counted : Method (Seen S) (Unit {0})
  recover_interrupted_tasks_counted =
      tallied "recover-interrupted-tasks" (svc.recover_interrupted_tasks)

  -- `Metrics`.
  unfoldable pub counting : Service O (Seen S)
  counting = record {
    get_proplet = get_proplet_counted;
    get_proplet_sdf = get_proplet_sdf_counted;
    list_proplets = list_proplets_counted;
    select_proplet = select_proplet_counted;
    delete_proplet = delete_proplet_counted;
    create_task = create_task_counted;
    create_workflow = create_workflow_counted;
    create_job = create_job_counted;
    get_task = get_task_counted;
    get_job = get_job_counted;
    list_jobs = list_jobs_counted;
    start_job = start_job_counted;
    stop_job = stop_job_counted;
    list_tasks = list_tasks_counted;
    update_task = update_task_counted;
    delete_task = delete_task_counted;
    start_task = start_task_counted;
    stop_task = stop_task_counted;
    invoke_task = invoke_task_counted;
    get_task_results = get_task_results_counted;
    get_parent_results = get_parent_results_counted;
    get_task_metrics = get_task_metrics_counted;
    get_proplet_metrics = get_proplet_metrics_counted;
    get_proplet_alive_history = get_proplet_alive_history_counted;
    configure_experiment = configure_experiment_counted;
    get_fl_task = get_fl_task_counted;
    post_fl_update = post_fl_update_counted;
    post_fl_update_cbor = post_fl_update_cbor_counted;
    get_round_status = get_round_status_counted;
    subscribe = subscribe_counted;
    shutdown = shutdown_counted;
    recover_interrupted_tasks = recover_interrupted_tasks_counted;
  }
