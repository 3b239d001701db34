-- ===== src/Api/Endpoint/Refused.antt =====
-- Requests that the endpoints of manager/api/endpoint.go refuse.
use propeller.Prelude.{
  ◌≡◌, refl, ℕ, String, Bool, true, false, Option, none, some, ◌⊎◌, inl, inr, Option-cases,
}
use propeller.Value.{Fields}
use propeller.Manager.Interface.{Outside, Service}
use propeller.Api.{ApiError, validate_workflow_req}
use propeller.Api.Response.{Response, Failure, invalid_data, invalid, encode_error}
use propeller.Api.Endpoint.{
  Request, Endpoint, as_entity, as_list_entity, as_list_tasks, as_task, as_workflow, as_job,
  as_invoke, as_metrics, check_entity, check_list, check_tasks, check_task, check_job, check_invoke,
  check_metrics, unchecked, guarded, list_proplets_endpoint, get_proplet_endpoint,
  get_proplet_alive_history_endpoint, get_proplet_sdf_endpoint, delete_proplet_endpoint,
  create_task_endpoint, create_workflow_endpoint, create_job_endpoint, get_job_endpoint,
  list_jobs_endpoint, start_job_endpoint, stop_job_endpoint, list_tasks_endpoint, get_task_endpoint,
  update_task_endpoint, delete_task_endpoint, start_task_endpoint, stop_task_endpoint,
  invoke_task_endpoint, get_task_metrics_endpoint, get_proplet_metrics_endpoint,
  get_task_results_endpoint,
}

-- The endpoints.
pub data Route : Type 0 where
  list_proplets get_proplet get_proplet_alive_history get_proplet_sdf delete_proplet create_task
        create_workflow create_job get_job list_jobs start_job stop_job list_tasks get_task
        update_task delete_task start_task stop_task invoke_task get_task_metrics
        get_proplet_metrics get_task_results :
      Route

module _ {Q : Type 0} where
  -- A request of the type that is asked for, without an error of its check.
  abbrev passes : Option Q → (Q → Option ApiError) → Bool
  passes none check = false
  passes (some q) check = elim (check q) [ none ↦ true | some e ↦ false ]

module _ (valid_cron valid_uuid : String → Bool) (json_size : Fields → Option ℕ) where
  -- The requests that an endpoint takes, by its type and by the check of that type.
  abbrev pub accepts : Route → Request → Bool
  accepts list_proplets r = passes (as_list_entity r) (check_list valid_cron valid_uuid json_size)
  accepts get_proplet r = passes (as_entity r) (check_entity valid_cron valid_uuid json_size)
  accepts get_proplet_alive_history r =
      passes (as_metrics r) (check_metrics valid_cron valid_uuid json_size)
  accepts get_proplet_sdf r = passes (as_entity r) (check_entity valid_cron valid_uuid json_size)
  accepts delete_proplet r = passes (as_entity r) (check_entity valid_cron valid_uuid json_size)
  accepts create_task r = passes (as_task r) (check_task valid_cron valid_uuid json_size)
  accepts create_workflow r = passes (as_workflow r) validate_workflow_req
  accepts create_job r = passes (as_job r) (check_job valid_cron valid_uuid json_size)
  accepts get_job r = passes (as_entity r) (check_entity valid_cron valid_uuid json_size)
  accepts list_jobs r = passes (as_list_entity r) (check_list valid_cron valid_uuid json_size)
  accepts start_job r = passes (as_entity r) (check_entity valid_cron valid_uuid json_size)
  accepts stop_job r = passes (as_entity r) (check_entity valid_cron valid_uuid json_size)
  accepts list_tasks r = passes (as_list_tasks r) (check_tasks valid_cron valid_uuid json_size)
  accepts get_task r = passes (as_entity r) (check_entity valid_cron valid_uuid json_size)
  accepts update_task r = passes (as_task r) (unchecked valid_cron valid_uuid json_size)
  accepts delete_task r = passes (as_entity r) (check_entity valid_cron valid_uuid json_size)
  accepts start_task r = passes (as_entity r) (check_entity valid_cron valid_uuid json_size)
  accepts stop_task r = passes (as_entity r) (check_entity valid_cron valid_uuid json_size)
  accepts invoke_task r = passes (as_invoke r) (check_invoke valid_cron valid_uuid json_size)
  accepts get_task_metrics r = passes (as_metrics r) (check_metrics valid_cron valid_uuid json_size)
  accepts get_proplet_metrics r =
      passes (as_metrics r) (check_metrics valid_cron valid_uuid json_size)
  accepts get_task_results r = passes (as_entity r) (check_entity valid_cron valid_uuid json_size)

  module _ {O : Outside} {S : Type 0} (svc : Service O S) where
    abbrev pub endpoint : Route → Endpoint O S
    endpoint list_proplets = list_proplets_endpoint valid_cron valid_uuid json_size svc
    endpoint get_proplet = get_proplet_endpoint valid_cron valid_uuid json_size svc
    endpoint get_proplet_alive_history =
        get_proplet_alive_history_endpoint valid_cron valid_uuid json_size svc
    endpoint get_proplet_sdf = get_proplet_sdf_endpoint valid_cron valid_uuid json_size svc
    endpoint delete_proplet = delete_proplet_endpoint valid_cron valid_uuid json_size svc
    endpoint create_task = create_task_endpoint valid_cron valid_uuid json_size svc
    endpoint create_workflow = create_workflow_endpoint valid_cron valid_uuid json_size svc
    endpoint create_job = create_job_endpoint valid_cron valid_uuid json_size svc
    endpoint get_job = get_job_endpoint valid_cron valid_uuid json_size svc
    endpoint list_jobs = list_jobs_endpoint valid_cron valid_uuid json_size svc
    endpoint start_job = start_job_endpoint valid_cron valid_uuid json_size svc
    endpoint stop_job = stop_job_endpoint valid_cron valid_uuid json_size svc
    endpoint list_tasks = list_tasks_endpoint valid_cron valid_uuid json_size svc
    endpoint get_task = get_task_endpoint valid_cron valid_uuid json_size svc
    endpoint update_task = update_task_endpoint valid_cron valid_uuid json_size svc
    endpoint delete_task = delete_task_endpoint valid_cron valid_uuid json_size svc
    endpoint start_task = start_task_endpoint valid_cron valid_uuid json_size svc
    endpoint stop_task = stop_task_endpoint valid_cron valid_uuid json_size svc
    endpoint invoke_task = invoke_task_endpoint valid_cron valid_uuid json_size svc
    endpoint get_task_metrics = get_task_metrics_endpoint valid_cron valid_uuid json_size svc
    endpoint get_proplet_metrics = get_proplet_metrics_endpoint valid_cron valid_uuid json_size svc
    endpoint get_task_results = get_task_results_endpoint valid_cron valid_uuid json_size svc

    -- A failure with status 400, and the state as it was.
    abbrev Refuses : S → (Response O ⊎ Failure) × S → Type 0
    Refuses s out = (f : Failure) × (out ≡ (inr f, s)) × (encode_error f ≡ 400)

    guarded-Refuses :
        {Q : Type 0} (o : Option Q) (check : Q → Option ApiError)
        (call : Q → S → (Response O ⊎ Failure) × S) (s : S)
        → passes o check ≡ false
        → Refuses s (guarded o check call s)
    unfolding guarded encode_error
    guarded-Refuses none check call s h = (invalid_data, refl, refl)
    guarded-Refuses (some q) check call s h = elim (Option-cases (check q)) [
      | inl e ↦ (let g = rw (e, passes) at h in cc)
      | inr (f, e) ↦ rw (e, guarded) (invalid f, refl, refl)
    ]

    -- An endpoint answers a request that is of another type than its own, or that its check has
    -- an error for, with status 400, and does not call the service: the state stays as it was.
    pub refused_request :
        (route : Route) (r : Request) (s : S)
        → accepts route r ≡ false
        → Refuses s (endpoint route r s)
    unfolding list_proplets_endpoint get_proplet_endpoint get_proplet_alive_history_endpoint
        get_proplet_sdf_endpoint delete_proplet_endpoint create_task_endpoint
        create_workflow_endpoint create_job_endpoint get_job_endpoint list_jobs_endpoint
        start_job_endpoint stop_job_endpoint list_tasks_endpoint get_task_endpoint
        update_task_endpoint delete_task_endpoint start_task_endpoint stop_task_endpoint
        invoke_task_endpoint get_task_metrics_endpoint get_proplet_metrics_endpoint
        get_task_results_endpoint
    refused_request list_proplets r s h =
        guarded-Refuses (as_list_entity r) (check_list valid_cron valid_uuid json_size) _ s h
    refused_request get_proplet r s h =
        guarded-Refuses (as_entity r) (check_entity valid_cron valid_uuid json_size) _ s h
    refused_request get_proplet_alive_history r s h =
        guarded-Refuses (as_metrics r) (check_metrics valid_cron valid_uuid json_size) _ s h
    refused_request get_proplet_sdf r s h =
        guarded-Refuses (as_entity r) (check_entity valid_cron valid_uuid json_size) _ s h
    refused_request delete_proplet r s h =
        guarded-Refuses (as_entity r) (check_entity valid_cron valid_uuid json_size) _ s h
    refused_request create_task r s h =
        guarded-Refuses (as_task r) (check_task valid_cron valid_uuid json_size) _ s h
    refused_request create_workflow r s h =
        guarded-Refuses (as_workflow r) validate_workflow_req _ s h
    refused_request create_job r s h =
        guarded-Refuses (as_job r) (check_job valid_cron valid_uuid json_size) _ s h
    refused_request get_job r s h =
        guarded-Refuses (as_entity r) (check_entity valid_cron valid_uuid json_size) _ s h
    refused_request list_jobs r s h =
        guarded-Refuses (as_list_entity r) (check_list valid_cron valid_uuid json_size) _ s h
    refused_request start_job r s h =
        guarded-Refuses (as_entity r) (check_entity valid_cron valid_uuid json_size) _ s h
    refused_request stop_job r s h =
        guarded-Refuses (as_entity r) (check_entity valid_cron valid_uuid json_size) _ s h
    refused_request list_tasks r s h =
        guarded-Refuses (as_list_tasks r) (check_tasks valid_cron valid_uuid json_size) _ s h
    refused_request get_task r s h =
        guarded-Refuses (as_entity r) (check_entity valid_cron valid_uuid json_size) _ s h
    refused_request update_task r s h =
        guarded-Refuses (as_task r) (unchecked valid_cron valid_uuid json_size) _ s h
    refused_request delete_task r s h =
        guarded-Refuses (as_entity r) (check_entity valid_cron valid_uuid json_size) _ s h
    refused_request start_task r s h =
        guarded-Refuses (as_entity r) (check_entity valid_cron valid_uuid json_size) _ s h
    refused_request stop_task r s h =
        guarded-Refuses (as_entity r) (check_entity valid_cron valid_uuid json_size) _ s h
    refused_request invoke_task r s h =
        guarded-Refuses (as_invoke r) (check_invoke valid_cron valid_uuid json_size) _ s h
    refused_request get_task_metrics r s h =
        guarded-Refuses (as_metrics r) (check_metrics valid_cron valid_uuid json_size) _ s h
    refused_request get_proplet_metrics r s h =
        guarded-Refuses (as_metrics r) (check_metrics valid_cron valid_uuid json_size) _ s h
    refused_request get_task_results r s h =
        guarded-Refuses (as_entity r) (check_entity valid_cron valid_uuid json_size) _ s h
