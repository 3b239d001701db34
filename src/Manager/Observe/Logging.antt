-- ===== src/Manager/Observe/Logging.antt =====
-- manager/middleware/logging.go: the service behind the log. The log of a task's selection and of its
-- update reads the result, which is the zero value where the call fails.
use propeller.Prelude.{ℕ, String, List, [], ◌∷◌, length}
use propeller.Value.{Value, Fields}
use propeller.Task.{Task, Proplet}
use propeller.Jobs.{JobSummary}
use propeller.Metrics.{TaskMetrics, PropletMetrics}
use propeller.Outcome.{Result, ok, err}
use propeller.Manager.Update.{TaskChange}
use propeller.Manager.Interface.{Outside, Service, Method, Page, PageMetadata}
use propeller.Manager.Observe.{text, number, Seen, deferred, log_entry}

task_name : Result Task → String
task_name (ok t) = t.name
task_name (err e) = ""

proplet_name : Result Proplet → String
proplet_name (ok p) = p.name
proplet_name (err e) = ""

proplet_id_of : Result Proplet → String
proplet_id_of (ok p) = p.id
proplet_id_of (err e) = ""

module _ (O : Outside) {S : Type 0} (svc : Service O S) where
  unfoldable pub get_proplet_logged : String → Method (Seen S) Proplet
  get_proplet_logged id =
      deferred (log_entry "Get proplet" (λ _. text "proplet.id" id ∷ []) (λ _. []))
        (svc.get_proplet id)

  unfoldable pub get_proplet_sdf_logged : String → Method (Seen S) O.Document
  get_proplet_sdf_logged id =
      deferred (log_entry "Get proplet SDF" (λ _. text "proplet.id" id ∷ []) (λ _. []))
        (svc.get_proplet_sdf id)

  unfoldable pub list_proplets_logged : ℕ → ℕ → String → Method (Seen S) (Page Proplet)
  list_proplets_logged offset limit status =
      deferred
        (log_entry "List proplets"
          (λ _. number "offset" offset ∷ number "limit" limit ∷ text "status" status ∷ [])
          (λ _. []))
        (svc.list_proplets offset limit status)

  unfoldable pub select_proplet_logged : Task → Method (Seen S) Proplet
  unfolding proplet_name proplet_id_of
  select_proplet_logged t =
      deferred
        (log_entry "Select proplet"
          (λ r.
            text "task.name" t.name
            ∷ text "task.id" t.id
            ∷ text "proplet.name" (proplet_name r)
            ∷ text "proplet.id" (proplet_id_of r)
            ∷ [])
          (λ _. []))
        (svc.select_proplet t)

  unfoldable pub delete_proplet_logged : String → Method (Seen S) (Unit {0})
  delete_proplet_logged id =
      deferred (log_entry "Delete proplet" (λ _. text "proplet.id" id ∷ []) (λ _. []))
        (svc.delete_proplet id)

  unfoldable pub create_task_logged : Task → Method (Seen S) Task
  create_task_logged t =
      deferred (log_entry "Save task" (λ _. text "task.name" t.name ∷ []) (λ _. []))
        (svc.create_task t)

  unfoldable pub create_workflow_logged : List Task → Method (Seen S) (List Task)
  create_workflow_logged tasks =
      deferred
        (log_entry "Create workflow" (λ _. number "task_count" (length tasks) ∷ []) (λ _. []))
        (svc.create_workflow tasks)

  unfoldable pub create_job_logged :
      String → List Task → String → Method (Seen S) (String × List Task)
  create_job_logged name tasks execution_mode =
      deferred
        (log_entry "Create job"
          (λ _.
            text "job_name" name
            ∷ text "execution_mode" execution_mode
            ∷ number "task_count" (length tasks)
            ∷ [])
          (λ (a : String × List Task). text "job_id" a.0 ∷ []))
        (svc.create_job name tasks execution_mode)

  unfoldable pub get_task_logged : String → Method (Seen S) Task
  get_task_logged id =
      deferred (log_entry "Get task" (λ _. text "task.id" id ∷ []) (λ _. [])) (svc.get_task id)

  unfoldable pub get_job_logged : String → Method (Seen S) (List Task)
  get_job_logged job_id =
      deferred
        (log_entry "Get job" (λ _. text "job_id" job_id ∷ [])
          (λ (a : List Task). number "task_count" (length a) ∷ []))
        (svc.get_job job_id)

  unfoldable pub list_jobs_logged : ℕ → ℕ → String → Method (Seen S) (Page JobSummary)
  list_jobs_logged offset limit status =
      deferred
        (log_entry "List jobs"
          (λ _. number "offset" offset ∷ number "limit" limit ∷ text "status" status ∷ [])
          (λ (a : Page JobSummary).
            number "job_count" (length a.items) ∷ number "total" a.total ∷ []))
        (svc.list_jobs offset limit status)

  unfoldable pub start_job_logged : String → Method (Seen S) (Unit {0})
  start_job_logged job_id =
      deferred (log_entry "Start job" (λ _. text "job_id" job_id ∷ []) (λ _. []))
        (svc.start_job job_id)

  unfoldable pub stop_job_logged : String → Method (Seen S) (Unit {0})
  stop_job_logged job_id =
      deferred (log_entry "Stop job" (λ _. text "job_id" job_id ∷ []) (λ _. []))
        (svc.stop_job job_id)

  unfoldable pub list_tasks_logged : PageMetadata → Method (Seen S) (Page Task)
  list_tasks_logged pm =
      deferred
        (log_entry "List tasks" (λ _. number "offset" pm.offset ∷ number "limit" pm.limit ∷ [])
          (λ _. []))
        (svc.list_tasks pm)

  unfoldable pub update_task_logged : TaskChange → Method (Seen S) Task
  unfolding task_name
  update_task_logged t =
      deferred
        (log_entry "Update task" (λ r. text "task.name" (task_name r) ∷ text "task.id" t.id ∷ [])
          (λ _. []))
        (svc.update_task t)

  unfoldable pub delete_task_logged : String → Method (Seen S) (Unit {0})
  delete_task_logged id =
      deferred (log_entry "Delete task" (λ _. text "task.id" id ∷ []) (λ _. []))
        (svc.delete_task id)

  unfoldable pub start_task_logged : String → Method (Seen S) (Unit {0})
  start_task_logged id =
      deferred (log_entry "Starting task" (λ _. text "task.id" id ∷ []) (λ _. []))
        (svc.start_task id)

  unfoldable pub stop_task_logged : String → Method (Seen S) (Unit {0})
  stop_task_logged id =
      deferred (log_entry "Stopping task" (λ _. text "task.id" id ∷ []) (λ _. []))
        (svc.stop_task id)

  unfoldable pub invoke_task_logged :
      String → List String → List (String × String) → Method (Seen S) String
  invoke_task_logged id inputs env =
      deferred (log_entry "Invoking task" (λ _. text "task.id" id ∷ []) (λ _. []))
        (svc.invoke_task id inputs env)

  unfoldable pub get_task_results_logged : String → Method (Seen S) Value
  get_task_results_logged task_id =
      deferred (log_entry "Get task results" (λ _. text "task.id" task_id ∷ []) (λ _. []))
        (svc.get_task_results task_id)

  unfoldable pub get_parent_results_logged : String → Method (Seen S) Fields
  get_parent_results_logged task_id =
      deferred (log_entry "Get parent results" (λ _. text "task.id" task_id ∷ []) (λ _. []))
        (svc.get_parent_results task_id)

  unfoldable pub get_task_metrics_logged : String → ℕ → ℕ → Method (Seen S) (Page TaskMetrics)
  get_task_metrics_logged task_id offset limit =
      deferred
        (log_entry "Get task metrics"
          (λ _. text "task.id" task_id ∷ number "offset" offset ∷ number "limit" limit ∷ [])
          (λ _. []))
        (svc.get_task_metrics task_id offset limit)

  unfoldable pub get_proplet_metrics_logged : String → ℕ → ℕ → Method (Seen S) (Page PropletMetrics)
  get_proplet_metrics_logged proplet_id offset limit =
      deferred
        (log_entry "Get proplet metrics"
          (λ _. text "proplet.id" proplet_id ∷ number "offset" offset ∷ number "limit" limit ∷ [])
          (λ _. []))
        (svc.get_proplet_metrics proplet_id offset limit)

  unfoldable pub get_proplet_alive_history_logged : String → ℕ → ℕ → Method (Seen S) (Page ℕ)
  get_proplet_alive_history_logged proplet_id offset limit =
      deferred
        (log_entry "Get proplet alive history"
          (λ _. text "proplet.id" proplet_id ∷ number "offset" offset ∷ number "limit" limit ∷ [])
          (λ _. []))
        (svc.get_proplet_alive_history proplet_id offset limit)

  unfoldable pub configure_experiment_logged : O.ExperimentConfig → Method (Seen S) (Unit {0})
  configure_experiment_logged config =
      deferred
        (log_entry "Configure experiment"
          (λ _.
            text "experiment_id" (O.experiment_id config)
            ∷ text "round_id" (O.config_round_id config)
            ∷ [])
          (λ _. []))
        (svc.configure_experiment config)

  unfoldable pub get_fl_task_logged : String → String → Method (Seen S) O.FlTask
  get_fl_task_logged round_id proplet_id =
      deferred
        (log_entry "Get FL task" (λ _. text "round_id" round_id ∷ text "proplet_id" proplet_id ∷ [])
          (λ _. []))
        (svc.get_fl_task round_id proplet_id)

  unfoldable pub post_fl_update_logged : O.FlUpdate → Method (Seen S) (Unit {0})
  post_fl_update_logged update =
      deferred
        (log_entry "Post FL update"
          (λ _.
            text "round_id" (O.update_round_id update)
            ∷ text "proplet_id" (O.update_proplet_id update)
            ∷ [])
          (λ _. []))
        (svc.post_fl_update update)

  unfoldable pub post_fl_update_cbor_logged : List ℕ → Method (Seen S) (Unit {0})
  post_fl_update_cbor_logged update_data =
      deferred
        (log_entry "Post FL update CBOR" (λ _. number "data_size" (length update_data) ∷ [])
          (λ _. []))
        (svc.post_fl_update_cbor update_data)

  unfoldable pub get_round_status_logged : String → Method (Seen S) O.RoundStatus
  get_round_status_logged round_id =
      deferred (log_entry "Get round status" (λ _. text "round_id" round_id ∷ []) (λ _. []))
        (svc.get_round_status round_id)

  unfoldable pub subscribe_logged : Method (Seen S) (Unit {0})
  subscribe_logged =
      deferred (log_entry "Subscribe to MQTT topic" (λ _. []) (λ _. [])) (svc.subscribe)

  unfoldable pub shutdown_logged : Method (Seen S) (Unit {0})
  shutdown_logged = deferred (log_entry "Shutdown" (λ _. []) (λ _. [])) (svc.shutdown)

  unfoldable pub recover_interrupted_tasks_logged : Method (Seen S) (Unit {0})
  recover_interrupted_tasks_logged =
      deferred (log_entry "Recover interrupted tasks" (λ _. []) (λ _. []))
        (svc.recover_interrupted_tasks)

  -- `Logging`.
  unfoldable pub logging : Service O (Seen S)
  logging = record {
    get_proplet = get_proplet_logged;
    get_proplet_sdf = get_proplet_sdf_logged;
    list_proplets = list_proplets_logged;
    select_proplet = select_proplet_logged;
    delete_proplet = delete_proplet_logged;
    create_task = create_task_logged;
    create_workflow = create_workflow_logged;
    create_job = create_job_logged;
    get_task = get_task_logged;
    get_job = get_job_logged;
    list_jobs = list_jobs_logged;
    start_job = start_job_logged;
    stop_job = stop_job_logged;
    list_tasks = list_tasks_logged;
    update_task = update_task_logged;
    delete_task = delete_task_logged;
    start_task = start_task_logged;
    stop_task = stop_task_logged;
    invoke_task = invoke_task_logged;
    get_task_results = get_task_results_logged;
    get_parent_results = get_parent_results_logged;
    get_task_metrics = get_task_metrics_logged;
    get_proplet_metrics = get_proplet_metrics_logged;
    get_proplet_alive_history = get_proplet_alive_history_logged;
    configure_experiment = configure_experiment_logged;
    get_fl_task = get_fl_task_logged;
    post_fl_update = post_fl_update_logged;
    post_fl_update_cbor = post_fl_update_cbor_logged;
    get_round_status = get_round_status_logged;
    subscribe = subscribe_logged;
    shutdown = shutdown_logged;
    recover_interrupted_tasks = recover_interrupted_tasks_logged;
  }
