-- ===== src/Api/Response.antt =====
-- manager/api/responses.go and the views of pkg/proplet/proplet.go: what the endpoints of the manager
-- answer, with the status, the header for the location, and whether there is a body; and EncodeError
-- of pkg/api/api.go, the status of a failure.
use Prim.Native.String.{◌++◌ as ◌++ᵗ◌}
use propeller.Prelude.{ℕ, String, Bool, true, false, Option, none, some, List, [], map}
use propeller.Value.{Value, nil}
use propeller.Task.{Task, Proplet, PropletMetadata, last?}
use propeller.Jobs.{JobSummary}
use propeller.Metrics.{TaskMetrics, PropletMetrics}
use propeller.Errors.{
  Err, empty_key, invalid_value, not_found, conflict, create_error, update_error, delete_error,
  query_error,
}
use propeller.Api.{ApiError}
use propeller.Manager.Interface.{Outside, Page}

pub record PropletView : Type 0 where
  pub id : String
  pub name : String
  pub task_count : ℕ
  pub alive : Bool
  pub last_alive_at : Option ℕ
  pub metadata : PropletMetadata

unfoldable pub view : Proplet → PropletView
unfolding last?
view p = record {
  id = p.id;
  name = p.name;
  task_count = p.task_count;
  alive = p.alive;
  last_alive_at = last? p.alive_history;
  metadata = p.metadata;
}

unfoldable pub page_view : Page Proplet → Page PropletView
unfolding view
page_view p = record {
  offset = p.offset;
  limit = p.limit;
  total = p.total;
  items = map view p.items;
}

-- The responses; a deletion answers with the zero value. No endpoint creates a proplet.
pub data Response (O : Outside) : Type 0 where
  proplet_response : PropletView → Response O
  proplet_deleted : Response O
  proplet_sdf_response : O.Document → Response O
  list_proplet_response : Page PropletView → Response O
  proplet_alive_history_response : Page ℕ → Response O
  task_response : (created : Bool) → Task → Response O
  task_deleted : Response O
  list_task_response : Page Task → Response O
  message_response : List (String × Value) → Response O
  task_metrics_response : Page TaskMetrics → Response O
  proplet_metrics_response : Page PropletMetrics → Response O
  workflow_response : List Task → Response O
  task_results_response : Value → Response O
  job_response : (job_id : String) → List Task → Response O
  list_job_response : Page JobSummary → Response O

module _ {O : Outside} where
  unfoldable pub code : Response O → ℕ
  code proplet_deleted = 204
  code (task_response true t) = 201
  code task_deleted = 204
  code (workflow_response ts) = 201
  code (job_response id ts) = 201
  code _ = 200

  -- The `Location` of `Headers`.
  unfoldable pub location : Response O → Option String
  location (task_response true t) = some ("/tasks/" ++ᵗ t.id)
  location (job_response id ts) = some ("/jobs/" ++ᵗ id)
  location _ = none

  unfoldable has_no_body : Response O → Bool
  has_no_body proplet_deleted = true
  has_no_body task_deleted = true
  has_no_body (workflow_response []) = true
  has_no_body (task_results_response nil) = true
  has_no_body _ = false

-- What a request fails with: an error of its decoder, joined to ErrValidation or not; in an endpoint
-- a request of the wrong type or with an error of its check, both joined to ErrValidation; or the
-- service's error.
pub data Failure : Type 0 where
  undecodable unreadable : Failure
  invalid_data : Failure
  invalid : ApiError → Failure
  failed : Err → Failure

-- The cases of `errors.Is` on an error of the service.
unfoldable status_of : Err → ℕ
status_of empty_key = 400
status_of invalid_value = 400
status_of not_found = 404
status_of conflict = 409
status_of (create_error e) = status_of e
status_of (update_error e) = status_of e
status_of (delete_error e) = status_of e
status_of (query_error e) = status_of e
status_of _ = 500

unfoldable pub encode_error : Failure → ℕ
unfolding status_of
encode_error undecodable = 400
encode_error unreadable = 500
encode_error invalid_data = 400
encode_error (invalid e) = 400
encode_error (failed e) = status_of e
