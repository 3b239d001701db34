-- ===== src/Samples/Endpoints.antt =====
-- The endpoints before a service whose state is a text, the id of
-- the last call that changed something.
use propeller.Prelude.{◌≡◌, ◌⊎◌, refl, ℕ, String, Bool, true, false, Option, none, some, [], inr}
use propeller.Value.{Fields}
use propeller.Errors.{not_found}
use propeller.Outcome.{ok, err}
use propeller.Manager.Start.{elastic_config}
use propeller.Manager.Interface.{Outside, Service, Method}
use propeller.Api.{ApiError, validate_task_req}
use propeller.Api.Elastic.{IsSound}
use propeller.Api.Response.{Failure, encode_error}
use propeller.Api.Endpoint.{TaskReq, create_task_endpoint}
use propeller.Api.Decode.{HttpRequest, is_json, decode_task_req, serve}
use propeller.Api.Decode.Created.{Answered, create_task_served}
use propeller.Storage
use propeller.Badger.Adapter.{status, get_stored_task, get_stored_proplet, missing-status}
use propeller.Samples.{alive_proplet, first_task}
use propeller.Samples.Database.{entries, only, kept, sprint, found}

abbrev outside : Outside
outside = record {
  Document = Unit;
  ExperimentConfig = String;
  FlTask = Unit;
  FlUpdate = String;
  RoundStatus = Unit;
  experiment_id = λ c. c;
  config_round_id = λ c. c;
  update_round_id = λ u. u;
  update_proplet_id = λ u. u;
}

-- Nothing is found.
abbrev absent {ℓ} : {A : Type ℓ} → Method String A
absent s = (err not_found, s)

abbrev done : String → Method String (Unit {0})
done id s = (ok tt, id)

abbrev service : Service outside String
service = record {
  get_proplet = λ _. absent;
  get_proplet_sdf = λ _. absent;
  list_proplets = λ _ _ _. absent;
  select_proplet = λ _. absent;
  delete_proplet = λ id. done id;
  create_task = λ _. absent;
  create_workflow = λ _. absent;
  create_job = λ _ _ _. absent;
  get_task = λ _. absent;
  get_job = λ _. absent;
  list_jobs = λ _ _ _. absent;
  start_job = λ id. done id;
  stop_job = λ id. done id;
  list_tasks = λ _. absent;
  update_task = λ _. absent;
  delete_task = λ id. done id;
  start_task = λ id. done id;
  stop_task = λ id. done id;
  invoke_task = λ _ _ _. absent;
  get_task_results = λ _. absent;
  get_parent_results = λ _. absent;
  get_task_metrics = λ _ _ _. absent;
  get_proplet_metrics = λ _ _ _. absent;
  get_proplet_alive_history = λ _ _ _. absent;
  configure_experiment = λ _. done "all";
  get_fl_task = λ _ _. absent;
  post_fl_update = λ _. done "all";
  post_fl_update_cbor = λ _. done "all";
  get_round_status = λ _. absent;
  subscribe = done "all";
  shutdown = done "all";
  recover_interrupted_tasks = done "all";
}

-- No text is a UUID, or a cron expression.
abbrev never : String → Bool
never value = false

abbrev no_size : Fields → Option ℕ
no_size m = none

missing-status_example :
    (status entries (get_stored_task entries (only first_task) sprint "c" kept) ≡ 500)
    × (status entries (get_stored_proplet entries (only alive_proplet) 5 "c" kept) ≡ 404)
unfolding found Storage.lookup
missing-status_example =
    missing-status entries (only first_task) (only alive_proplet) sprint 5 "c" kept refl refl

abbrev asked_for : TaskReq
asked_for = record {
  task = first_task;
  change = record {
    id = "";
    name = "";
    inputs = none;
    file = none;
    priority = 0;
    metadata = none;
    schedule = "";
    is_recurring = false;
    timezone = "";
  };
}

-- A request for a task, with all that it may carry.
abbrev creation : HttpRequest
creation = record {
  url_param = λ key. "a";
  query = λ key. [];
  content_type = "application/json";
  is_empty = true;
  task_body = some asked_for;
  workflow_body = none;
  job_body = none;
  invoke_body = none;
  form_file = none;
}

create_task_served_example :
    ((f : Failure) × (serve decode_task_req
          (create_task_endpoint never never no_size service)
          creation
          "before"
        ≡ (inr f, "before"))
      × (encode_error f ≡ 400)
      × ((is_json creation ≡ false)
          ⊎ ((some asked_for ≡ none)
              ⊎ ((q : TaskReq) × (e : ApiError) × (some asked_for ≡ some q)
                  × (validate_task_req never never no_size q.task ≡ some e)))))
    ⊎ ((q : TaskReq) × (is_json creation ≡ true)
        × (some asked_for ≡ some q)
        × (validate_task_req never never no_size q.task ≡ none)
        × ((cfg : Fields) → elastic_config q.task ≡ some cfg → IsSound cfg)
        × Answered never never no_size service creation "before" q (
            serve decode_task_req
              (create_task_endpoint never never no_size service)
              creation
              "before"))
create_task_served_example = create_task_served never never no_size service creation "before"
