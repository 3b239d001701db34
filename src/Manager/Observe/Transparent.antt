-- ===== src/Manager/Observe/Transparent.antt =====
-- The service behind the middleware that watches it (manager/middleware/logging.go, metrics.go and
-- tracing.go) answers like the service, and entries are written for each call.
use propeller.Prelude.{ℕ, String, List, [], ◌∷◌, ◌++◌, ◌≡◌, refl}
use propeller.Task.{Task}
use propeller.Outcome.{Result}
use propeller.Manager.Update.{TaskChange}
use propeller.Manager.Interface.{Outside, Service, Method, PageMetadata}
use propeller.Manager.Observe.{Entry, Seen, deferred, tallied}
use propeller.Manager.Observe.Logging
use propeller.Manager.Observe.Counting
use propeller.Manager.Observe.Tracing

-- The result and the state of the one, and some entries more.
abbrev pub Watches {ℓ} : {S : Type 0} {A : Type ℓ} → Method S A → Method (Seen S) A → Type ℓ
Watches {S} m w =
    (s : S) (seen : List Entry)
    → (es : List Entry) × (w (s, seen) ≡ ((m s).0, ((m s).1, es ++ seen)))

deferred-Watches {ℓ} :
    {S : Type 0} {A : Type ℓ} (entry : Result A → Entry) (m : Method S A)
    → Watches m (deferred entry m)
unfolding deferred
deferred-Watches entry m s seen = (entry (m s).0 ∷ [], refl)

pub record IsTransparent (O : Outside) (S : Type 0) (svc : Service O S) (w : Service O (Seen S))
    : Type 0 where
  pub get_proplet : (id : String) → Watches (svc.get_proplet id) (w.get_proplet id)
  pub get_proplet_sdf : (id : String) → Watches (svc.get_proplet_sdf id) (w.get_proplet_sdf id)
  pub list_proplets :
      (offset : ℕ) (limit : ℕ) (status : String)
      → Watches (svc.list_proplets offset limit status) (w.list_proplets offset limit status)
  pub select_proplet : (t : Task) → Watches (svc.select_proplet t) (w.select_proplet t)
  pub delete_proplet : (id : String) → Watches (svc.delete_proplet id) (w.delete_proplet id)
  pub create_task : (t : Task) → Watches (svc.create_task t) (w.create_task t)
  pub create_workflow :
      (tasks : List Task) → Watches (svc.create_workflow tasks) (w.create_workflow tasks)
  pub create_job :
      (name : String) (tasks : List Task) (execution_mode : String)
      → Watches (svc.create_job name tasks execution_mode) (w.create_job name tasks execution_mode)
  pub get_task : (id : String) → Watches (svc.get_task id) (w.get_task id)
  pub get_job : (job_id : String) → Watches (svc.get_job job_id) (w.get_job job_id)
  pub list_jobs :
      (offset : ℕ) (limit : ℕ) (status : String)
      → Watches (svc.list_jobs offset limit status) (w.list_jobs offset limit status)
  pub start_job : (job_id : String) → Watches (svc.start_job job_id) (w.start_job job_id)
  pub stop_job : (job_id : String) → Watches (svc.stop_job job_id) (w.stop_job job_id)
  pub list_tasks : (pm : PageMetadata) → Watches (svc.list_tasks pm) (w.list_tasks pm)
  pub update_task : (t : TaskChange) → Watches (svc.update_task t) (w.update_task t)
  pub delete_task : (id : String) → Watches (svc.delete_task id) (w.delete_task id)
  pub start_task : (id : String) → Watches (svc.start_task id) (w.start_task id)
  pub stop_task : (id : String) → Watches (svc.stop_task id) (w.stop_task id)
  pub invoke_task :
      (id : String) (inputs : List String) (env : List (String × String))
      → Watches (svc.invoke_task id inputs env) (w.invoke_task id inputs env)
  pub get_task_results :
      (task_id : String) → Watches (svc.get_task_results task_id) (w.get_task_results task_id)
  pub get_parent_results :
      (task_id : String) → Watches (svc.get_parent_results task_id) (w.get_parent_results task_id)
  pub get_task_metrics :
      (task_id : String) (offset : ℕ) (limit : ℕ)
      → Watches
          (svc.get_task_metrics task_id offset limit)
          (w.get_task_metrics task_id offset limit)
  pub get_proplet_metrics :
      (proplet_id : String) (offset : ℕ) (limit : ℕ)
      → Watches
          (svc.get_proplet_metrics proplet_id offset limit)
          (w.get_proplet_metrics proplet_id offset limit)
  pub get_proplet_alive_history :
      (proplet_id : String) (offset : ℕ) (limit : ℕ)
      → Watches
          (svc.get_proplet_alive_history proplet_id offset limit)
          (w.get_proplet_alive_history proplet_id offset limit)
  pub configure_experiment :
      (config : O.ExperimentConfig)
      → Watches (svc.configure_experiment config) (w.configure_experiment config)
  pub get_fl_task :
      (round_id : String) (proplet_id : String)
      → Watches (svc.get_fl_task round_id proplet_id) (w.get_fl_task round_id proplet_id)
  pub post_fl_update :
      (update : O.FlUpdate) → Watches (svc.post_fl_update update) (w.post_fl_update update)
  pub post_fl_update_cbor :
      (update_data : List ℕ)
      → Watches (svc.post_fl_update_cbor update_data) (w.post_fl_update_cbor update_data)
  pub get_round_status :
      (round_id : String) → Watches (svc.get_round_status round_id) (w.get_round_status round_id)
  pub subscribe : Watches svc.subscribe w.subscribe
  pub shutdown : Watches svc.shutdown w.shutdown
  pub recover_interrupted_tasks : Watches svc.recover_interrupted_tasks w.recover_interrupted_tasks

logging-IsTransparent :
    (O : Outside) {S : Type 0} (svc : Service O S) → IsTransparent O S svc (Logging.logging O svc)
unfolding Logging.logging deferred Logging.get_proplet_logged Logging.get_proplet_sdf_logged
    Logging.list_proplets_logged Logging.select_proplet_logged Logging.delete_proplet_logged
    Logging.create_task_logged Logging.create_workflow_logged Logging.create_job_logged
    Logging.get_task_logged Logging.get_job_logged Logging.list_jobs_logged Logging.start_job_logged
    Logging.stop_job_logged Logging.list_tasks_logged Logging.update_task_logged
    Logging.delete_task_logged Logging.start_task_logged Logging.stop_task_logged
    Logging.invoke_task_logged Logging.get_task_results_logged Logging.get_parent_results_logged
    Logging.get_task_metrics_logged Logging.get_proplet_metrics_logged
    Logging.get_proplet_alive_history_logged Logging.configure_experiment_logged
    Logging.get_fl_task_logged Logging.post_fl_update_logged Logging.post_fl_update_cbor_logged
    Logging.get_round_status_logged Logging.subscribe_logged Logging.shutdown_logged
    Logging.recover_interrupted_tasks_logged
logging-IsTransparent O svc = record {
  get_proplet = λ id s seen. (_ ∷ [], refl);
  get_proplet_sdf = λ id s seen. (_ ∷ [], refl);
  list_proplets = λ offset limit status s seen. (_ ∷ [], refl);
  select_proplet = λ t s seen. (_ ∷ [], refl);
  delete_proplet = λ id s seen. (_ ∷ [], refl);
  create_task = λ t s seen. (_ ∷ [], refl);
  create_workflow = λ tasks s seen. (_ ∷ [], refl);
  create_job = λ name tasks execution_mode s seen. (_ ∷ [], refl);
  get_task = λ id s seen. (_ ∷ [], refl);
  get_job = λ job_id s seen. (_ ∷ [], refl);
  list_jobs = λ offset limit status s seen. (_ ∷ [], refl);
  start_job = λ job_id s seen. (_ ∷ [], refl);
  stop_job = λ job_id s seen. (_ ∷ [], refl);
  list_tasks = λ pm s seen. (_ ∷ [], refl);
  update_task = λ t s seen. (_ ∷ [], refl);
  delete_task = λ id s seen. (_ ∷ [], refl);
  start_task = λ id s seen. (_ ∷ [], refl);
  stop_task = λ id s seen. (_ ∷ [], refl);
  invoke_task = λ id inputs env s seen. (_ ∷ [], refl);
  get_task_results = λ task_id s seen. (_ ∷ [], refl);
  get_parent_results = λ task_id s seen. (_ ∷ [], refl);
  get_task_metrics = λ task_id offset limit s seen. (_ ∷ [], refl);
  get_proplet_metrics = λ proplet_id offset limit s seen. (_ ∷ [], refl);
  get_proplet_alive_history = λ proplet_id offset limit s seen. (_ ∷ [], refl);
  configure_experiment = λ config s seen. (_ ∷ [], refl);
  get_fl_task = λ round_id proplet_id s seen. (_ ∷ [], refl);
  post_fl_update = λ update s seen. (_ ∷ [], refl);
  post_fl_update_cbor = λ update_data s seen. (_ ∷ [], refl);
  get_round_status = λ round_id s seen. (_ ∷ [], refl);
  subscribe = λ s seen. (_ ∷ [], refl);
  shutdown = λ s seen. (_ ∷ [], refl);
  recover_interrupted_tasks = λ s seen. (_ ∷ [], refl);
}

counting-IsTransparent :
    (O : Outside) {S : Type 0} (svc : Service O S) → IsTransparent O S svc (Counting.counting O svc)
unfolding Counting.counting tallied Counting.get_proplet_counted Counting.get_proplet_sdf_counted
    Counting.list_proplets_counted Counting.select_proplet_counted Counting.delete_proplet_counted
    Counting.create_task_counted Counting.create_workflow_counted Counting.create_job_counted
    Counting.get_task_counted Counting.get_job_counted Counting.list_jobs_counted
    Counting.start_job_counted Counting.stop_job_counted Counting.list_tasks_counted
    Counting.update_task_counted Counting.delete_task_counted Counting.start_task_counted
    Counting.stop_task_counted Counting.invoke_task_counted Counting.get_task_results_counted
    Counting.get_parent_results_counted Counting.get_task_metrics_counted
    Counting.get_proplet_metrics_counted Counting.get_proplet_alive_history_counted
    Counting.configure_experiment_counted Counting.get_fl_task_counted
    Counting.post_fl_update_counted Counting.post_fl_update_cbor_counted
    Counting.get_round_status_counted Counting.subscribe_counted Counting.shutdown_counted
    Counting.recover_interrupted_tasks_counted
counting-IsTransparent O svc = record {
  get_proplet = λ id s seen. (_ ∷ _ ∷ [], refl);
  get_proplet_sdf = λ id s seen. (_ ∷ _ ∷ [], refl);
  list_proplets = λ offset limit status s seen. (_ ∷ _ ∷ [], refl);
  select_proplet = λ t s seen. (_ ∷ _ ∷ [], refl);
  delete_proplet = λ id s seen. (_ ∷ _ ∷ [], refl);
  create_task = λ t s seen. (_ ∷ _ ∷ [], refl);
  create_workflow = λ tasks s seen. (_ ∷ _ ∷ [], refl);
  create_job = λ name tasks execution_mode s seen. (_ ∷ _ ∷ [], refl);
  get_task = λ id s seen. (_ ∷ _ ∷ [], refl);
  get_job = λ job_id s seen. (_ ∷ _ ∷ [], refl);
  list_jobs = λ offset limit status s seen. (_ ∷ _ ∷ [], refl);
  start_job = λ job_id s seen. (_ ∷ _ ∷ [], refl);
  stop_job = λ job_id s seen. (_ ∷ _ ∷ [], refl);
  list_tasks = λ pm s seen. (_ ∷ _ ∷ [], refl);
  update_task = λ t s seen. (_ ∷ _ ∷ [], refl);
  delete_task = λ id s seen. (_ ∷ _ ∷ [], refl);
  start_task = λ id s seen. (_ ∷ _ ∷ [], refl);
  stop_task = λ id s seen. (_ ∷ _ ∷ [], refl);
  invoke_task = λ id inputs env s seen. (_ ∷ _ ∷ [], refl);
  get_task_results = λ task_id s seen. (_ ∷ _ ∷ [], refl);
  get_parent_results = λ task_id s seen. (_ ∷ _ ∷ [], refl);
  get_task_metrics = λ task_id offset limit s seen. (_ ∷ _ ∷ [], refl);
  get_proplet_metrics = λ proplet_id offset limit s seen. (_ ∷ _ ∷ [], refl);
  get_proplet_alive_history = λ proplet_id offset limit s seen. (_ ∷ _ ∷ [], refl);
  configure_experiment = λ config s seen. (_ ∷ _ ∷ [], refl);
  get_fl_task = λ round_id proplet_id s seen. (_ ∷ _ ∷ [], refl);
  post_fl_update = λ update s seen. (_ ∷ _ ∷ [], refl);
  post_fl_update_cbor = λ update_data s seen. (_ ∷ _ ∷ [], refl);
  get_round_status = λ round_id s seen. (_ ∷ _ ∷ [], refl);
  subscribe = λ s seen. (_ ∷ _ ∷ [], refl);
  shutdown = λ s seen. (_ ∷ _ ∷ [], refl);
  recover_interrupted_tasks = λ s seen. (_ ∷ _ ∷ [], refl);
}

tracing-IsTransparent :
    (O : Outside) {S : Type 0} (svc : Service O S) → IsTransparent O S svc (Tracing.tracing O svc)
unfolding Tracing.tracing deferred Tracing.get_proplet_traced Tracing.get_proplet_sdf_traced
    Tracing.list_proplets_traced Tracing.select_proplet_traced Tracing.delete_proplet_traced
    Tracing.create_task_traced Tracing.create_workflow_traced Tracing.create_job_traced
    Tracing.get_task_traced Tracing.get_job_traced Tracing.list_jobs_traced Tracing.start_job_traced
    Tracing.stop_job_traced Tracing.list_tasks_traced Tracing.update_task_traced
    Tracing.delete_task_traced Tracing.start_task_traced Tracing.stop_task_traced
    Tracing.invoke_task_traced Tracing.get_task_results_traced Tracing.get_parent_results_traced
    Tracing.get_task_metrics_traced Tracing.get_proplet_metrics_traced
    Tracing.get_proplet_alive_history_traced Tracing.configure_experiment_traced
    Tracing.get_fl_task_traced Tracing.post_fl_update_traced Tracing.post_fl_update_cbor_traced
    Tracing.get_round_status_traced Tracing.subscribe_traced Tracing.shutdown_traced
    Tracing.recover_interrupted_tasks_traced
tracing-IsTransparent O svc = record {
  get_proplet = λ id s seen. (_ ∷ [], refl);
  get_proplet_sdf = λ id s seen. (_ ∷ [], refl);
  list_proplets = λ offset limit status s seen. (_ ∷ [], refl);
  select_proplet = λ t s seen. (_ ∷ [], refl);
  delete_proplet = λ id s seen. (_ ∷ [], refl);
  create_task = λ t s seen. (_ ∷ [], refl);
  create_workflow = λ tasks s seen. (_ ∷ [], refl);
  create_job = λ name tasks execution_mode s seen. (_ ∷ [], refl);
  get_task = λ id s seen. (_ ∷ [], refl);
  get_job = λ job_id s seen. (_ ∷ [], refl);
  list_jobs = λ offset limit status s seen. (_ ∷ [], refl);
  start_job = λ job_id s seen. (_ ∷ [], refl);
  stop_job = λ job_id s seen. (_ ∷ [], refl);
  list_tasks = λ pm s seen. (_ ∷ [], refl);
  update_task = λ t s seen. (_ ∷ [], refl);
  delete_task = λ id s seen. (_ ∷ [], refl);
  start_task = λ id s seen. (_ ∷ [], refl);
  stop_task = λ id s seen. (_ ∷ [], refl);
  invoke_task = λ id inputs env s seen. (_ ∷ [], refl);
  get_task_results = λ task_id s seen. (_ ∷ [], refl);
  get_parent_results = λ task_id s seen. (_ ∷ [], refl);
  get_task_metrics = λ task_id offset limit s seen. (_ ∷ [], refl);
  get_proplet_metrics = λ proplet_id offset limit s seen. (_ ∷ [], refl);
  get_proplet_alive_history = λ proplet_id offset limit s seen. (_ ∷ [], refl);
  configure_experiment = λ config s seen. (_ ∷ [], refl);
  get_fl_task = λ round_id proplet_id s seen. (_ ∷ [], refl);
  post_fl_update = λ update s seen. (_ ∷ [], refl);
  post_fl_update_cbor = λ update_data s seen. (_ ∷ [], refl);
  get_round_status = λ round_id s seen. (_ ∷ [], refl);
  subscribe = λ s seen. (_ ∷ [], refl);
  shutdown = λ s seen. (_ ∷ [], refl);
  recover_interrupted_tasks = λ s seen. (_ ∷ [], refl);
}

-- Behind each of the log, the counters and the tracer, every method answers as the service's own does, with an
-- error too, and leaves the service's state as that method leaves it; what was written so far
-- stays, behind what is new.
pub observers-IsTransparent :
    (O : Outside) {S : Type 0} (svc : Service O S)
    → IsTransparent O S svc (Logging.logging O svc)
      × IsTransparent O S svc (Counting.counting O svc)
      × IsTransparent O S svc (Tracing.tracing O svc)
observers-IsTransparent O svc =
    (logging-IsTransparent O svc, counting-IsTransparent O svc, tracing-IsTransparent O svc)
