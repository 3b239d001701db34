-- ===== src/Api.antt =====
-- The checks of requests in manager/api/requests.go. The parsers of cron expressions and of UUIDs
-- are libraries, and so are arguments, as is the length of a value as JSON, none where it has
-- none. A priority is an `int` as its pattern of 64 bits, negative from 2 ^ 63 on.
pub mod Elastic
pub mod Response
pub mod Endpoint
pub mod Federated
pub mod Decode
use propeller.Prelude.{
  ℕ, String, Bool, true, false, Option, none, some, List, [], ◌∷◌, str_eq, if◌then◌else◌, ltb, leb,
  ◌^◌, ◌==◌, ◌||◌, ◌&&◌, not,
}
use propeller.Value.{Value, text, obj, Fields, end, field, get_field}
use propeller.Task.{Task}
use propeller.Task.Status.{to_proplet_status, to_job_status}

pub data ApiError : Type 0 where
  missing_name validation missing_id invalid_query_params limit_size : ApiError
  invalid_cron_expression invalid_priority exclusive_fields metadata_not_json : ApiError
  metadata_too_large elastic_not_object elastic_both status_unsupported invalid_status : ApiError
  elastic_not_string : (key : String) → ApiError

abbrev max_metadata_bytes : ℕ
max_metadata_bytes = 1048576

abbrev max_limit_size : ℕ
max_limit_size = 100

-- `task.ElasticKeys`.
abbrev pub elastic_keys : List String
elastic_keys = "wasi_security" ∷ "wasi_pep" ∷ []

-- The early return on an error.
abbrev pub or_next : Option ApiError → Option ApiError → Option ApiError
or_next none next = next
or_next (some e) next = some e

unfoldable pub check_string : String → Option Value → Option ApiError
check_string key none = none
check_string key (some (text s)) = none
check_string key (some v) = some (elastic_not_string key)

-- The loop over the keys.
unfoldable pub check_strings : Fields → List String → Option ApiError
unfolding check_string get_field
check_strings cfg [] = none
check_strings cfg (k ∷ ks) = or_next (check_string k (get_field cfg k)) (check_strings cfg ks)

unfoldable pub has : Fields → String → Bool
unfolding get_field
has cfg key = elim (get_field cfg key) [ none ↦ false | some v ↦ true ]

unfoldable pub check_elastic : Option Value → Option ApiError
unfolding check_strings has
check_elastic none = none
check_elastic (some (obj cfg)) =
    or_next (check_strings cfg elastic_keys)
      (if has cfg "wasi_security" && has cfg "wasi_pep" then some elastic_both else none)
check_elastic (some v) = some elastic_not_object

unfoldable pub validate_elastic_config : Fields → Option ApiError
unfolding check_elastic get_field
validate_elastic_config m = check_elastic (get_field m "elastic")

unfoldable pub bad_run_if : Task → Bool
bad_run_if t =
    not (str_eq t.run_if "") && (not (str_eq t.run_if "success") && not (str_eq t.run_if "failure"))

-- The loop over the tasks of a workflow or of a job.
check_named : List Task → Option ApiError
unfolding bad_run_if
check_named [] = none
check_named (t ∷ ts) =
    let rest = check_named ts in
    if str_eq t.name "" then some missing_name else if bad_run_if t then some validation else rest

unfoldable pub validate_workflow_req : List Task → Option ApiError
unfolding check_named
validate_workflow_req [] = some validation
validate_workflow_req (t ∷ ts) = check_named (t ∷ ts)

unfoldable pub validate_job_req : List Task → Option ApiError
unfolding check_named
validate_job_req [] = some validation
validate_job_req (t ∷ ts) = check_named (t ∷ ts)

unfoldable pub validate_list_tasks_req : ℕ → Option ApiError
validate_list_tasks_req limit =
    if ltb max_limit_size limit || ltb limit 1 then some limit_size else none

unfoldable pub validate_metrics_req : String → Option ApiError
validate_metrics_req id = if str_eq id "" then some missing_id else none

-- `listEntityStatus`.
pub data ListEntityStatus : Type 0 where
  without_status_filter proplet_status_filter job_status_filter : ListEntityStatus

check_known : {S : Type 0} → Option S → Option ApiError
check_known none = some invalid_status
check_known (some s) = none

unfoldable pub validate_list_entity_req : String → ListEntityStatus → Option ApiError
unfolding check_known to_proplet_status to_job_status
validate_list_entity_req status filter = if str_eq status "" then none else elim filter [
  | without_status_filter ↦ some status_unsupported
  | proplet_status_filter ↦ check_known (to_proplet_status status)
  | job_status_filter ↦ check_known (to_job_status status)
]

module _ (valid_cron valid_uuid : String → Bool) (json_size : Fields → Option ℕ) where
  unfoldable check_size : Option ℕ → Option ApiError
  check_size none = some metadata_not_json
  check_size (some n) = if ltb max_metadata_bytes n then some metadata_too_large else none

  unfoldable pub check_metadata : Fields → Option ApiError
  unfolding check_size
  check_metadata end = none
  check_metadata (field k v m) = check_size (json_size (field k v m))

  unfoldable pub check_schedule : String → Option ApiError
  check_schedule s =
      if str_eq s "" then none else if valid_cron s then none else some invalid_cron_expression

  unfoldable pub validate_task_req : Task → Option ApiError
  unfolding bad_run_if check_schedule check_metadata validate_elastic_config
  validate_task_req t =
      if str_eq t.name ""
      then some missing_name
      else if bad_run_if t
      then some validation
      else or_next (check_schedule t.schedule) (
          if leb (2 ^ 63) t.priority || ltb 100 t.priority
          then some invalid_priority
          else if t.broadcast && not (str_eq t.proplet_id "")
          then some exclusive_fields
          else or_next (check_metadata t.metadata) (validate_elastic_config t.metadata))

  unfoldable pub validate_entity_req : String → Option ApiError
  validate_entity_req id =
      if str_eq id ""
      then some missing_id
      else if valid_uuid id
      then none
      else some invalid_query_params
