-- ===== src/Samples/Settled.antt =====
-- The list of all tasks and the shutdown at samples: a running task, and one that has completed.
use propeller.Prelude.{ℕ, ◌≡◌, ◌≢◌, refl, false, none, some, [], arith}
use propeller.Task.{Task, running, completed, interrupted}
use propeller.Outcome.{ok}
use propeller.Storage
use propeller.Manager.State.{Svc}
use propeller.Manager.Workflow.{is_active}
use propeller.Manager.Start.Effect.{calm}
use propeller.Manager.Listing.{list_all_tasks}
use propeller.Manager.Listing.Whole.{list_all_tasks_lem}
use propeller.Manager.Shutdown.{shutdown}
use propeller.Manager.Shutdown.Covered.{IsKeyed, put-IsKeyed}
use propeller.Manager.Shutdown.Settled.{shutdown_lem}
use propeller.Samples.{first_task, second_task}
use propeller.Samples.World.{world, service}

abbrev busy : Task
busy = record first_task { state = running }

abbrev done : Task
done = record second_task { state = completed }

abbrev at_work : Svc
at_work = record service { tasks = Storage.put "b" done (Storage.put "a" busy []) }

at_work-IsKeyed : IsKeyed at_work.tasks
unfolding Storage.lookup
at_work-IsKeyed =
    put-IsKeyed done (Storage.put "a" busy []) refl
      (put-IsKeyed busy [] refl (record { named = refl; keyed = λ id t e. absurd (nothing e) }))
  where
    nothing : {t : Task} → ◌≢◌ none (some t)
    nothing e = cc

list_all_tasks_example :
    (n : ℕ) × (list_all_tasks (calm (world 0)) at_work
      ≡ (ok (Storage.sorted_values at_work.tasks), record at_work { calls = n }))
unfolding Storage.put
list_all_tasks_example = list_all_tasks_lem (world 0) at_work (omega arith)

shutdown_example : ((shutdown (calm (world 0)) at_work).0 ≡ ok tt) × (is_active interrupted ≡ false)
unfolding Storage.put Storage.lookup shutdown Storage.list Storage.page Storage.sorted_values
    Storage.sort_entries Storage.get Storage.update
shutdown_example =
    shutdown_lem (world 0) at_work "a"
      (record busy {
        state = interrupted;
        error = "interrupted by shutdown";
        finish_time = 3;
        updated_at = 3;
      })
      (omega arith) at_work-IsKeyed refl
