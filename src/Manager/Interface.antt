-- ===== src/Manager/Interface.antt =====
-- The interface `manager.Service` of manager/manager.go, over any state: what the middleware of
-- manager/middleware wraps and the endpoints of manager/api call. The context of a call is left out.
-- `Outside` has the types of the experiments of federated learning and of the descriptions in pkg/sdf.
use propeller.Prelude.{ℕ, String, List}
use propeller.Value.{Value, Fields}
use propeller.Task.{Task, Proplet}
use propeller.Jobs.{JobSummary}
use propeller.Metrics.{TaskMetrics, PropletMetrics}
use propeller.Outcome.{Result}
use propeller.Manager.Update.{TaskChange}

-- A method: what it returns, and what becomes of the state, on an error too.
abbrev pub Method {ℓ} : Type 0 → Type ℓ → Type ℓ
Method S A = S → Result A × S

pub record PageMetadata : Type 0 where
  pub offset : ℕ
  pub limit : ℕ
  pub metadata : Fields

-- The pages of proplets, tasks, jobs, metrics and times.
pub record Page (A : Type 0) : Type 0 where
  pub offset : ℕ
  pub limit : ℕ
  pub total : ℕ
  pub items : List A

pub record Outside : Type 1 where
  pub Document : Type 0
  pub ExperimentConfig : Type 0
  pub FlTask : Type 0
  pub FlUpdate : Type 0
  pub RoundStatus : Type 0
  pub experiment_id : ExperimentConfig → String
  pub config_round_id : ExperimentConfig → String
  pub update_round_id : FlUpdate → String
  pub update_proplet_id : FlUpdate → String

pub record Service (O : Outside) (S : Type 0) : Type 0 where
  pub get_proplet : String → Method S Proplet
  pub get_proplet_sdf : String → Method S O.Document
  pub list_proplets : ℕ → ℕ → String → Method S (Page Proplet)
  pub select_proplet : Task → Method S Proplet
  pub delete_proplet : String → Method S (Unit {0})
  pub create_task : Task → Method S Task
  pub create_workflow : List Task → Method S (List Task)
  pub create_job : String → List Task → String → Method S (String × List Task)
  pub get_task : String → Method S Task
  pub get_job : String → Method S (List Task)
  pub list_jobs : ℕ → ℕ → String → Method S (Page JobSummary)
  pub start_job : String → Method S (Unit {0})
  pub stop_job : String → Method S (Unit {0})
  pub list_tasks : PageMetadata → Method S (Page Task)
  pub update_task : TaskChange → Method S Task
  pub delete_task : String → Method S (Unit {0})
  pub start_task : String → Method S (Unit {0})
  pub stop_task : String → Method S (Unit {0})
  pub invoke_task : String → List String → List (String × String) → Method S String
  pub get_task_results : String → Method S Value
  pub get_parent_results : String → Method S Fields
  pub get_task_metrics : String → ℕ → ℕ → Method S (Page TaskMetrics)
  pub get_proplet_metrics : String → ℕ → ℕ → Method S (Page PropletMetrics)
  pub get_proplet_alive_history : String → ℕ → ℕ → Method S (Page ℕ)
  pub configure_experiment : O.ExperimentConfig → Method S (Unit {0})
  pub get_fl_task : String → String → Method S O.FlTask
  pub post_fl_update : O.FlUpdate → Method S (Unit {0})
  pub post_fl_update_cbor : List ℕ → Method S (Unit {0})
  pub get_round_status : String → Method S O.RoundStatus
  pub subscribe : Method S (Unit {0})
  pub shutdown : Method S (Unit {0})
  pub recover_interrupted_tasks : Method S (Unit {0})
