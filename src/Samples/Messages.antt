-- ===== src/Samples/Messages.antt =====
-- The results, the deletion and the metrics of a task at samples.
use propeller.Prelude.{
  ℕ, List, take, drop, length, String, ◌≡◌, ◌≢◌, refl, ap, arith, str_eq, eq_iff, true, none, some,
  [], ◌∷◌, if◌then◌else◌,
}
use propeller.Metrics.{ProcessMetrics}
use propeller.Metrics.Store.{
  StoredMetrics, of_task, task_metrics_of, proplet_metrics_of, list_task_metrics,
  list_proplet_metrics,
}
use propeller.Metrics.Store.Paged.{picked, list_metrics_lem}
use propeller.Value.{text, Fields, field, end, get_field}
use propeller.Task.{Task}
use propeller.Outcome.{ok}
use propeller.Storage
use propeller.Manager.State.{Svc, Action}
use propeller.Manager.Start.{start_task}
use propeller.Manager.Start.Effect.{calm}
use propeller.Manager.Workflow.{on_task_completion}
use propeller.Manager.Results.{update_results_handler}
use propeller.Manager.Results.Handled.{HasResult, JobFollows, update_results_handler_lem}
use propeller.Manager.Update.{delete_task}
use propeller.Manager.Update.Gone.{delete_task_lem}
use propeller.Samples.{first_task, second_task}
use propeller.Samples.World.{world, service}

abbrev workflow : Svc
workflow = record service { tasks = ("a", first_task) ∷ ("b", second_task) ∷ [] }

abbrev start : String → Action (Unit {0})
start id = start_task (calm (world 0)) 2 id

abbrev on_completion : String → Action (Unit {0})
on_completion id = on_task_completion (calm (world 0)) start id

abbrev sum_message : Fields
sum_message = field "task_id" (text "a") (field "results" (text "42") end)

a_named : ◌≢◌ {A = String} "a" ""
a_named e = let h : str_eq "a" "" ≡ true = (eq_iff "a" "").1 e in absurd (ground arith)

update_results_handler_example :
    (done : Task) × (s' : Svc) × HasResult 1 sum_message first_task done
    × JobFollows
        (world 0)
        start
        on_completion
        done
        (record workflow { tasks = Storage.put "a" done workflow.tasks; calls = 3 })
        s'
    × (update_results_handler (calm (world 0)) start on_completion sum_message workflow
        ≡ (ok tt, (on_completion "a" s').1))
unfolding get_field Storage.lookup
update_results_handler_example =
    update_results_handler_lem (world 0) start on_completion sum_message first_task workflow refl
      a_named refl

delete_task_example :
    ((delete_task (calm (world 0)) "a" workflow).0 ≡ ok tt)
    × ((other : String)
        → Storage.lookup (delete_task (calm (world 0)) "a" workflow).1.tasks other
          ≡ (if str_eq "a" other then none else Storage.lookup workflow.tasks other))
unfolding Storage.lookup
delete_task_example =
    delete_task_lem (world 0) "a" workflow a_named (λ t e. ap (λ (u : Task). u.id) (found t e))
  where
    found : (t : Task) → some first_task ≡ some t → t ≡ first_task
    found t e = cc

abbrev no_metrics : ProcessMetrics
no_metrics = record {
  cpu_percent = 0;
  memory_bytes = 0;
  memory_percent = 0;
  disk_read_bytes = 0;
  disk_write_bytes = 0;
  uptime_seconds = 0;
  thread_count = 0;
  file_descriptor_count = 0;
}

-- The metrics of a task at a time.
abbrev metrics_at : ℕ → StoredMetrics
metrics_at n = of_task (record {
  task_id = "a";
  proplet_id = "p1";
  metrics = no_metrics;
  aggregated = none;
  timestamp = n;
})

abbrev metrics_store : List (String × StoredMetrics)
metrics_store = ("a:1", metrics_at 1) ∷ ("a:2", metrics_at 2) ∷ []

list_metrics_example :
    (list_task_metrics "a" 1 5 metrics_store
      ≡ some (
        take 5 (drop 1 (picked (task_metrics_of "a") (Storage.sorted_values metrics_store))),
        length (picked (task_metrics_of "a") (Storage.sorted_values metrics_store)),
      ))
    × (list_proplet_metrics "a" 1 5 metrics_store
        ≡ some (
          take 5 (drop 1 (picked (proplet_metrics_of "a") (Storage.sorted_values metrics_store))),
          length (picked (proplet_metrics_of "a") (Storage.sorted_values metrics_store)),
        ))
list_metrics_example = list_metrics_lem "a" 1 5 metrics_store (omega arith)
