-- ===== src/Samples/Launch.antt =====
-- The start of a job and the guard of the plugins at samples.
use propeller.Prelude.{String, ◌≡◌, refl, false, none, List, [], ◌∷◌}
use propeller.Task.{Task}
use propeller.Errors.{Err}
use propeller.Outcome.{ok, err}
use propeller.Dag.Exist.{ids}
use propeller.Manager.State.{Svc, Action, Plugin, AuthContext, action_start, asked}
use propeller.Storage
use propeller.Manager.Workflow.{is_active}
use propeller.Manager.Stop.{start_job_sequential}
use propeller.Manager.Start.{start_task}
use propeller.Manager.Start.Effect.{calm}
use propeller.Manager.Launch.Unstopped.{start_each, start_job_sequential_unstopped}
use propeller.Manager.Middleware.{behind_plugins}
use propeller.Manager.Middleware.Served.{served}
use propeller.Manager.Middleware.Guard.{AllAllow, start_job_guarded}
use propeller.Samples.{first_task, second_task, asks_for_gpu}
use propeller.Samples.World.{world, service}

-- A job of two tasks, the dependent one first.
abbrev job_tasks : List Task
job_tasks = record second_task { job_id = "j" } ∷ record first_task { job_id = "j" } ∷ []

abbrev listed : List Task
listed = record first_task { job_id = "j" } ∷ record second_task { job_id = "j" } ∷ []

abbrev with_job : Svc
with_job = record service {
  tasks =
      ("a", record first_task { job_id = "j" }) ∷ ("b", record second_task { job_id = "j" }) ∷ [];
}

abbrev start : String → Action (Unit {0})
start id = start_task (calm (world 0)) 3 id

start_job_sequential_example :
    start_job_sequential (world 0) start job_tasks job_tasks with_job
    ≡ start_each start job_tasks with_job
unfolding is_active
start_job_sequential_example =
    start_job_sequential_unstopped (world 0) start job_tasks job_tasks with_job (refl, (refl, tt))

-- A plugin that lets nobody start a task.
abbrev denies : Plugin
denies = record asks_for_gpu { authorize = λ auth info. ok (record { allow = false; reason = "" }) }

abbrev nobody : AuthContext
nobody = record { user_id = ""; token = ""; action = none }

start_job_guarded_example :
    (AllAllow (denies ∷ []) nobody action_start listed
      → (behind_plugins (denies ∷ []) nobody (served (world 0) 3 (λ ts. ids ts))).start_job "j"
          with_job
        ≡ (served (world 0) 3 (λ ts. ids ts)).start_job "j" (asked with_job))
    × ((¬ AllAllow (denies ∷ []) nobody action_start listed)
        → (e : Err) × ((behind_plugins
                (denies ∷ [])
                nobody
                (served (world 0) 3 (λ ts. ids ts))).start_job
              "j" with_job
            ≡ (err e, asked with_job)))
unfolding Storage.sorted_values Storage.sort_entries
start_job_guarded_example =
    start_job_guarded (world 0) 3 (λ ts. ids ts) (denies ∷ []) nobody "j" with_job refl
