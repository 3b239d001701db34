-- ===== src/Samples/Running.antt =====
-- The start and the stop of a task at samples.
use propeller.Prelude.{
  String, ◌≡◌, ◌≢◌, refl, true, false, none, some, [], ◌∷◌, arith, str_eq, eq_iff, if◌then◌else◌,
}
use propeller.Task.{Task, Proplet, completed, set_alive}
use propeller.Value.{text}
use propeller.Outcome.{ok}
use propeller.Storage
use propeller.Manager.State.{Svc, stop_message}
use propeller.Manager.Proplets.{count_down}
use propeller.Manager.Start.Effect.{calm}
use propeller.Manager.Stop.{stop_task}
use propeller.Manager.Stop.Effect.{stop_task_effect}
use propeller.Samples.{first_task, alive_proplet}
use propeller.Samples.World.{world, service}

-- A service with one task and one proplet, before and after the start of the task.
abbrev before : Svc
before = record service { tasks = ("a", first_task) ∷ []; proplets = ("p1", alive_proplet) ∷ [] }

abbrev after : Svc
after = record before { task_proplets = ("a", "p1") ∷ [] }

a_named : ◌≢◌ {A = String} "a" ""
a_named e = let h : str_eq "a" "" ≡ true = (eq_iff "a" "").1 e in absurd (ground arith)

p1_is_named : ◌≢◌ {A = String} "p1" ""
p1_is_named e = let h : str_eq "p1" "" ≡ true = (eq_iff "p1" "").1 e in absurd (ground arith)

stop_task_effect_example :
    ((stop_task (calm (world 0)) "a" after).0 ≡ ok tt)
    × (Storage.lookup (stop_task (calm (world 0)) "a" after).1.task_proplets "a"
        ≡ (if str_eq "a" "a" then none else Storage.lookup after.task_proplets "a"))
    × (Storage.lookup (stop_task (calm (world 0)) "a" after).1.proplets "p1"
        ≡ some (record (set_alive 3 alive_proplet) { task_count = count_down 0 }))
    × ((stop_task (calm (world 0)) "a" after).1.published
        ≡ stop_message "a" (some false) (some "p1") ∷ [])
unfolding Storage.lookup
stop_task_effect_example =
    stop_task_effect (world 0) first_task alive_proplet after "a" refl a_named p1_is_named refl refl
      refl

-- A task that names its proplet, which was seen at 3.
abbrev placed : Task
placed = record first_task { proplet_id = "p1" }

abbrev seen_proplet : Proplet
seen_proplet = record alive_proplet { alive_history = 3 ∷ [] }

-- It depends on a task that has completed.
abbrev parent : Task
parent = record first_task { id = "d"; state = completed; results = text "42" }

abbrev child : Task
child = record placed { depends_on = "d" ∷ [] }

abbrev ready : Svc
ready = record service {
  tasks = ("a", child) ∷ ("d", parent) ∷ [];
  proplets = ("p1", seen_proplet) ∷ [];
}
