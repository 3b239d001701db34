-- ===== src/Api/Endpoint.antt =====
-- manager/api/endpoint.go: the endpoints of the manager, which check a request and call the service.
-- A request is what the decoders of transport.go make of one; a task request carries besides the
-- task what UpdateTask reads of it.
pub mod Refused
use propeller.Prelude.{
  ℕ, String, Bool, true, false, Option, none, some, List, [], ◌∷◌, ◌⊎◌, inl, inr,
}
use propeller.Value.{Value, Fields, bool, text}
use propeller.Task.{Task}
use propeller.Outcome.{Result, ok, err}
use propeller.Manager.Update.{TaskChange}
use propeller.Manager.Interface.{Outside, Service, Method, PageMetadata}
use propeller.Api.{
  ApiError, ListEntityStatus, validate_task_req, validate_workflow_req, validate_job_req,
  validate_entity_req, validate_list_entity_req, validate_list_tasks_req, validate_metrics_req,
}
use propeller.Api.Response.{
  Response, proplet_response, proplet_deleted, proplet_sdf_response, list_proplet_response,
  proplet_alive_history_response, task_response, task_deleted, list_task_response, message_response,
  task_metrics_response, proplet_metrics_response, workflow_response, task_results_response,
  job_response, list_job_response, view, page_view, Failure, invalid_data, invalid, failed,
}

pub record ListEntityReq : Type 0 where
  pub offset : ℕ
  pub limit : ℕ
  pub status : String
  pub status_filter : ListEntityStatus

pub record TaskReq : Type 0 where
  pub task : Task
  pub change : TaskChange

pub record JobReq : Type 0 where
  pub name : String
  pub tasks : List Task
  pub execution_mode : String

pub record InvokeReq : Type 0 where
  pub id : String
  pub inputs : List String
  pub env : List (String × String)

pub record MetricsReq : Type 0 where
  pub id : String
  pub offset : ℕ
  pub limit : ℕ

-- The values of the type `any` that a decoder returns.
pub data Request : Type 0 where
  entity_req : String → Request
  list_entity_req : ListEntityReq → Request
  list_tasks_req : PageMetadata → Request
  task_req : TaskReq → Request
  workflow_req : List Task → Request
  job_req : JobReq → Request
  invoke_req : InvokeReq → Request
  metrics_req : MetricsReq → Request

-- The type assertions `req, ok := request.(entityReq)` and so on.
unfoldable pub as_entity : Request → Option String
as_entity (entity_req r) = some r
as_entity _ = none

unfoldable pub as_list_entity : Request → Option ListEntityReq
as_list_entity (list_entity_req r) = some r
as_list_entity _ = none

unfoldable pub as_list_tasks : Request → Option PageMetadata
as_list_tasks (list_tasks_req r) = some r
as_list_tasks _ = none

unfoldable pub as_task : Request → Option TaskReq
as_task (task_req r) = some r
as_task _ = none

unfoldable pub as_workflow : Request → Option (List Task)
as_workflow (workflow_req r) = some r
as_workflow _ = none

unfoldable pub as_job : Request → Option JobReq
as_job (job_req r) = some r
as_job _ = none

unfoldable pub as_invoke : Request → Option InvokeReq
as_invoke (invoke_req r) = some r
as_invoke _ = none

unfoldable pub as_metrics : Request → Option MetricsReq
as_metrics (metrics_req r) = some r
as_metrics _ = none

-- An endpoint: the response or a failure, and what becomes of the state.
abbrev pub Endpoint : Outside → Type 0 → Type 0
Endpoint O S = Request → S → (Response O ⊎ Failure) × S

module _ {O : Outside} {S : Type 0} where
  checked : Option ApiError → (S → (Response O ⊎ Failure) × S) → S → (Response O ⊎ Failure) × S
  checked none call s = call s
  checked (some e) call s = (inr (invalid e), s)

  -- The beginning of an endpoint: the assertion, and the check of the request.
  unfoldable pub guarded :
      {Q : Type 0}
      → Option Q
      → (Q → Option ApiError)
      → (Q → S → (Response O ⊎ Failure) × S)
      → S
      → (Response O ⊎ Failure) × S
  unfolding checked
  guarded none check call s = (inr invalid_data, s)
  guarded (some q) check call s = checked (check q) (call q) s

  -- The rest: the service's error, or the response to its result.
  unfoldable pub answer :
      {A : Type 0} → (A → Response O) → Method S A → S → (Response O ⊎ Failure) × S
  answer respond m s =
      let (r, t) = m s in
      (elim r as (λ _. Response O ⊎ Failure) [ ok a ↦ inl (respond a) | err e ↦ inr (failed e) ], t)

module _ (valid_cron valid_uuid : String → Bool) (json_size : Fields → Option ℕ) where
  abbrev pub check_entity : String → Option ApiError
  check_entity id = validate_entity_req valid_cron valid_uuid json_size id

  abbrev pub check_list : ListEntityReq → Option ApiError
  check_list q = validate_list_entity_req q.status q.status_filter

  abbrev pub check_tasks : PageMetadata → Option ApiError
  check_tasks q = validate_list_tasks_req q.limit

  abbrev pub check_task : TaskReq → Option ApiError
  check_task q = validate_task_req valid_cron valid_uuid json_size q.task

  abbrev pub check_job : JobReq → Option ApiError
  check_job q = validate_job_req q.tasks

  -- `invokeReq.validate`, the same as that of an entity.
  abbrev pub check_invoke : InvokeReq → Option ApiError
  check_invoke q = check_entity q.id

  abbrev pub check_metrics : MetricsReq → Option ApiError
  check_metrics q = validate_metrics_req q.id

  -- No check: that of an update.
  abbrev pub unchecked : {Q : Type 0} → Q → Option ApiError
  unchecked q = none

  module _ {O : Outside} {S : Type 0} (svc : Service O S) where
    unfoldable pub list_proplets_endpoint : Endpoint O S
    unfolding as_list_entity guarded answer view page_view
    list_proplets_endpoint r = guarded (as_list_entity r) check_list (λ q.
        answer (λ p. list_proplet_response (page_view p))
          (svc.list_proplets q.offset q.limit q.status))

    unfoldable pub get_proplet_endpoint : Endpoint O S
    unfolding as_entity guarded answer view page_view
    get_proplet_endpoint r =
        guarded (as_entity r) check_entity
          (λ id. answer (λ p. proplet_response (view p)) (svc.get_proplet id))

    unfoldable pub get_proplet_alive_history_endpoint : Endpoint O S
    unfolding as_metrics guarded answer view page_view
    get_proplet_alive_history_endpoint r = guarded (as_metrics r) check_metrics (λ q.
        answer proplet_alive_history_response (svc.get_proplet_alive_history q.id q.offset q.limit))

    unfoldable pub get_proplet_sdf_endpoint : Endpoint O S
    unfolding as_entity guarded answer view page_view
    get_proplet_sdf_endpoint r =
        guarded (as_entity r) check_entity
          (λ id. answer proplet_sdf_response (svc.get_proplet_sdf id))

    unfoldable pub delete_proplet_endpoint : Endpoint O S
    unfolding as_entity guarded answer view page_view
    delete_proplet_endpoint r =
        guarded (as_entity r) check_entity
          (λ id. answer (λ _. proplet_deleted) (svc.delete_proplet id))

    unfoldable pub create_task_endpoint : Endpoint O S
    unfolding as_task guarded answer view page_view
    create_task_endpoint r =
        guarded (as_task r) check_task (λ q. answer (task_response true) (svc.create_task q.task))

    unfoldable pub create_workflow_endpoint : Endpoint O S
    unfolding as_workflow guarded answer view page_view
    create_workflow_endpoint r =
        guarded (as_workflow r) validate_workflow_req
          (λ ts. answer workflow_response (svc.create_workflow ts))

    unfoldable pub create_job_endpoint : Endpoint O S
    unfolding as_job guarded answer view page_view
    create_job_endpoint r = guarded (as_job r) check_job (λ q.
        answer (λ (id, ts). job_response id ts) (svc.create_job q.name q.tasks q.execution_mode))

    unfoldable pub get_job_endpoint : Endpoint O S
    unfolding as_entity guarded answer view page_view
    get_job_endpoint r =
        guarded (as_entity r) check_entity (λ id. answer (job_response id) (svc.get_job id))

    unfoldable pub list_jobs_endpoint : Endpoint O S
    unfolding as_list_entity guarded answer view page_view
    list_jobs_endpoint r =
        guarded (as_list_entity r) check_list
          (λ q. answer list_job_response (svc.list_jobs q.offset q.limit q.status))

    unfoldable pub start_job_endpoint : Endpoint O S
    unfolding as_entity guarded answer view page_view
    start_job_endpoint r = guarded (as_entity r) check_entity (λ id.
        answer (λ _. message_response (("message", text "job started") ∷ ("job_id", text id) ∷ []))
          (svc.start_job id))

    unfoldable pub stop_job_endpoint : Endpoint O S
    unfolding as_entity guarded answer view page_view
    stop_job_endpoint r = guarded (as_entity r) check_entity (λ id.
        answer (λ _. message_response (("message", text "job stopped") ∷ ("job_id", text id) ∷ []))
          (svc.stop_job id))

    unfoldable pub list_tasks_endpoint : Endpoint O S
    unfolding as_list_tasks guarded answer view page_view
    list_tasks_endpoint r =
        guarded (as_list_tasks r) check_tasks (λ q. answer list_task_response (svc.list_tasks q))

    unfoldable pub get_task_endpoint : Endpoint O S
    unfolding as_entity guarded answer view page_view
    get_task_endpoint r =
        guarded (as_entity r) check_entity (λ id. answer (task_response false) (svc.get_task id))

    unfoldable pub update_task_endpoint : Endpoint O S
    unfolding as_task guarded answer view page_view
    update_task_endpoint r =
        guarded (as_task r) unchecked (λ q. answer (task_response false) (svc.update_task q.change))

    unfoldable pub delete_task_endpoint : Endpoint O S
    unfolding as_entity guarded answer view page_view
    delete_task_endpoint r =
        guarded (as_entity r) check_entity (λ id. answer (λ _. task_deleted) (svc.delete_task id))

    unfoldable pub start_task_endpoint : Endpoint O S
    unfolding as_entity guarded answer view page_view
    start_task_endpoint r =
        guarded (as_entity r) check_entity
          (λ id. answer (λ _. message_response (("started", bool true) ∷ [])) (svc.start_task id))

    unfoldable pub stop_task_endpoint : Endpoint O S
    unfolding as_entity guarded answer view page_view
    stop_task_endpoint r =
        guarded (as_entity r) check_entity
          (λ id. answer (λ _. message_response (("stopped", bool true) ∷ [])) (svc.stop_task id))

    unfoldable pub invoke_task_endpoint : Endpoint O S
    unfolding as_invoke guarded answer view page_view
    invoke_task_endpoint r = guarded (as_invoke r) check_invoke (λ q.
        answer (λ out. message_response (("invoked", bool true) ∷ ("results", text out) ∷ []))
          (svc.invoke_task q.id q.inputs q.env))

    unfoldable pub get_task_metrics_endpoint : Endpoint O S
    unfolding as_metrics guarded answer view page_view
    get_task_metrics_endpoint r =
        guarded (as_metrics r) check_metrics
          (λ q. answer task_metrics_response (svc.get_task_metrics q.id q.offset q.limit))

    unfoldable pub get_proplet_metrics_endpoint : Endpoint O S
    unfolding as_metrics guarded answer view page_view
    get_proplet_metrics_endpoint r =
        guarded (as_metrics r) check_metrics
          (λ q. answer proplet_metrics_response (svc.get_proplet_metrics q.id q.offset q.limit))

    unfoldable pub get_task_results_endpoint : Endpoint O S
    unfolding as_entity guarded answer view page_view
    get_task_results_endpoint r =
        guarded (as_entity r) check_entity
          (λ id. answer task_results_response (svc.get_task_results id))
