-- ===== src/Samples/Placement.antt =====
-- The choice of proplets and tasks at the samples.
use propeller.Prelude.{ℕ, ◌+◌, ◌<◌, ◌%◌, ◌≡◌, ◌↔◌, refl, inl, inr, true, some, [], ◌∷◌, All, length}
use propeller.Task.{completed, Proplet}
use propeller.Outcome.{ok}
use propeller.Scheduler.{select_proplet}
use propeller.Scheduler.RoundRobin.{IsFirst, select_proplet_total}
use propeller.Jobs.{compute_job_state}
use propeller.Jobs.Totals.{Means, compute_job_state-Means}
use propeller.Manager.State.{new_task_info}
use propeller.Manager.Plugins.{run_on_before_proplet_select, proplet_matches_constraints}
use propeller.Manager.Plugins.Merge.{Agrees, constraints_bind}
use propeller.Manager.Workflow.{evaluate_conditional_execution}
use propeller.Manager.Workflow.Conditions.{ShouldRun, evaluate_conditional_execution_iff}
use propeller.Samples.{
  gpu, asks_for_gpu, two_tasks, first_task, second_task, alive_proplet, two_proplets,
}

-- The cursor at the proplet that is alive: the scan goes around.
select_proplet_example :
    (p : Proplet) × (k : ℕ) × (k < length two_proplets)
    × (select_proplet 1 two_proplets ≡ (ok p, (1 + 1 + k) % length two_proplets))
    × IsFirst two_proplets 1 k p
select_proplet_example = select_proplet_total 1 two_proplets alive_proplet (inr (inl refl)) refl

compute_job_state_example : Means two_tasks (compute_job_state two_tasks)
compute_job_state_example = compute_job_state-Means first_task (second_task ∷ [])

gpu_matches : proplet_matches_constraints alive_proplet gpu ≡ true
unfolding proplet_matches_constraints
gpu_matches = refl

agreed : run_on_before_proplet_select (asks_for_gpu ∷ asks_for_gpu ∷ []) first_task ≡ ok gpu
unfolding run_on_before_proplet_select
agreed = refl

constraints_bind_example :
    All (Agrees (new_task_info first_task) alive_proplet) (asks_for_gpu ∷ asks_for_gpu ∷ [])
constraints_bind_example =
    constraints_bind (asks_for_gpu ∷ asks_for_gpu ∷ []) first_task alive_proplet gpu agreed
      gpu_matches

evaluate_conditional_execution_example :
    (evaluate_conditional_execution second_task (λ id. some completed) ≡ true)
    ↔ ShouldRun second_task (λ id. some completed)
evaluate_conditional_execution_example =
    evaluate_conditional_execution_iff second_task (λ id. some completed)
