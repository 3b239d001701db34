-- ===== src/Errors.antt =====
-- The errors of the manager and its stores: pkg/errors/errors.go, pkg/storage/errors.go,
-- pkg/storage/badger/init.go, pkg/scheduler/scheduler.go and the errors that manager/service.go makes. A wrapped error is the
-- error that it wraps, or carries it; an error of a call to the outside (a database, the message
-- broker, a plugin) is `outside`.
use propeller.Prelude.{ℕ, String}
use propeller.Dag.{DagError}

pub data Err : Type 0 where
  empty_key entity_exists not_found conflict invalid_value shutting_down : Err
  proplet_id_with_broadcast workflow_required empty_workflow empty_job job_without_tasks : Err
  no_proplet dead_proplets no_match no_active_proplets invalid_cron not_latent : Err
  execution_mode_unset invalid_execution_mode invalid_message page_out_of_range : Err
  -- a loop of the model ran through its rounds; the loops are shown to end before
  unfinished : Err
  invalid_run_if : (task : String) → Err
  dependency_validation dag_validation sort_failed : DagError → Err
  not_alive unmet_dependencies blocked : String → Err
  outside : ℕ → Err
  -- the errors of pkg/storage/badger, apart from its ErrNotFound the ones with its names, and of
  -- the database under it
  marshal_error unmarshal_error store_not_found task_not_found proplet_not_found : Err
  key_not_found : Err
  -- ErrTaskNotFound and ErrPropletNotFound of pkg/storage/errors.go
  missing_task missing_proplet : Err
  create_error update_error delete_error query_error : Err → Err
