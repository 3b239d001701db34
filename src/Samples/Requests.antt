-- ===== src/Samples/Requests.antt =====
-- The check of a request at a task with a configuration for its proplet.
use propeller.Prelude.{refl, false, some}
use propeller.Value.{text, obj, Fields, field, end, get_field}
use propeller.Task.{Task}
use propeller.Manager.Start.{elastic_config}
use propeller.Api.{validate_task_req}
use propeller.Api.Elastic.{IsSound, validate_task_req-IsSound}
use propeller.Samples.{first_task}

abbrev guarded : Fields
guarded = field "wasi_pep" (text "deny") end

abbrev elastic_task : Task
elastic_task = record first_task { metadata = field "elastic" (obj guarded) end }

validate_task_req_example : IsSound guarded
unfolding validate_task_req elastic_config get_field
validate_task_req_example =
    validate_task_req-IsSound (λ s. false) (λ s. false) (λ m. some 20) elastic_task guarded refl
      refl
