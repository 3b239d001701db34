-- ===== src/Samples/Service.antt =====
-- The service at samples: a world in which one call fails, and a service with two proplets.
use propeller.Prelude.{String, ◌≢◌, arith, All, str_eq, eq_iff, ◌≡◌, refl, true, some, [], ◌∷◌}
use propeller.Errors.{Err}
use propeller.Outcome.{ok, err}
use propeller.Storage
use propeller.Scheduler.{select_proplet}
use propeller.Dag.{validate_dependencies_exist, validate_dag}
use propeller.Manager.State.{Env, Svc, external, now}
use propeller.Manager.Create.{create_workflow, create_job, first_id}
use propeller.Manager.Create.Atomic.{create_workflow_undone}
use propeller.Value.{field, text, end, get_field}
use propeller.Task.{Proplet}
use propeller.Manager.State.{new_task_info}
use propeller.Manager.Handlers.{update_liveness_handler}
use propeller.Manager.Handlers.Liveness.{IsSeen, update_liveness_handler_lem}
use propeller.Manager.Plugins.{run_on_before_proplet_select, proplet_matches_constraints}
use propeller.Manager.Plugins.Merge.{Agrees}
use propeller.Manager.Proplets.{select_proplet_with_constraints, refresh}
use propeller.Manager.Proplets.Choice.{selected_proplet_lem}
use propeller.Value.{Fields}
use propeller.Samples.World.{world, service}
use propeller.Samples.{gpu, asks_for_gpu, first_task, two_tasks, dead_proplet, alive_proplet}

-- The second task cannot be created, so the first one is deleted again.
workflow_fails :
    create_workflow (world 4) two_tasks service
    ≡ (err (Err.outside 28), (create_workflow (world 4) two_tasks service).1)
unfolding create_workflow validate_dependencies_exist validate_dag external Storage.create
    Storage.lookup
workflow_fails = refl

create_workflow_undone_example :
    Storage.lookup (create_workflow (world 4) two_tasks service).1.tasks "a"
    ≡ Storage.lookup service.tasks "a"
create_workflow_undone_example =
    create_workflow_undone (world 4) (λ n. refl) two_tasks service
      (create_workflow (world 4) two_tasks service).1 (Err.outside 28) "a" workflow_fails

job_fails :
    create_job (world 4) "job" two_tasks "" service
    ≡ (err (Err.outside 28), (create_job (world 4) "job" two_tasks "" service).1)
unfolding create_job validate_dependencies_exist validate_dag external Storage.create first_id
    Storage.lookup Storage.delete
job_fails = refl

-- A sign of life of the second proplet.
abbrev alive_message : Fields
alive_message = field "proplet_id" (text "p1") end

p1_named : ◌≢◌ {A = String} "p1" ""
p1_named e = let h : str_eq "p1" "" ≡ true = (eq_iff "p1" "").1 e in absurd (ground arith)

update_liveness_handler_example :
    ((update_liveness_handler (world 0) alive_message service).0 ≡ ok tt)
    × ((q : Proplet) × (Storage.lookup
            (update_liveness_handler (world 0) alive_message service).1.proplets
            "p1"
          ≡ some q)
        × IsSeen 2 alive_proplet q)
    × ((j : String)
        → ◌≢◌ {A = String} j "p1"
        → Storage.lookup (update_liveness_handler (world 0) alive_message service).1.proplets j
          ≡ Storage.lookup service.proplets j)
unfolding get_field Storage.lookup
update_liveness_handler_example =
    update_liveness_handler_lem (world 0) (λ n. (refl, refl)) alive_message alive_proplet service
      refl p1_named refl

-- The second proplet was seen at 3, so the choice finds it.
abbrev awake : Proplet
awake = record alive_proplet { alive_history = 3 ∷ [] }

abbrev awake_service : Svc
awake_service = record service { proplets = ("p0", dead_proplet) ∷ ("p1", awake) ∷ [] }

abbrev gpu_world : Env
gpu_world = record (world 0) { plugins = asks_for_gpu ∷ asks_for_gpu ∷ [] }

gpu_agreed : run_on_before_proplet_select gpu_world.plugins first_task ≡ ok gpu
unfolding run_on_before_proplet_select
gpu_agreed = refl

awake_selected :
    select_proplet_with_constraints gpu_world gpu awake_service
    ≡ (ok awake, (select_proplet_with_constraints gpu_world gpu awake_service).1)
unfolding select_proplet_with_constraints now Storage.page Storage.sorted_values
    Storage.sort_entries refresh proplet_matches_constraints select_proplet
awake_selected = refl

selected_proplet_example :
    All (Agrees (new_task_info first_task) awake) gpu_world.plugins × (awake.alive ≡ true)
selected_proplet_example =
    selected_proplet_lem gpu_world first_task gpu awake awake_service
      (select_proplet_with_constraints gpu_world gpu awake_service).1 gpu_agreed awake_selected
