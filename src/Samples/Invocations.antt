-- ===== src/Samples/Invocations.antt =====
-- An invocation of a task that runs on any proplet.
use propeller.Prelude.{
  ℕ, ◌+◌, ◌%◌, ◌≡◌, ◌≢◌, refl, String, Bool, true, false, List, [], ◌∷◌, ◌++◌, inl, str_eq, eq_iff,
  if◌then◌else◌, arith,
}
use propeller.Task.{Task, Proplet}
use propeller.Errors.{Err, outside}
use propeller.Outcome.{Result, ok, err}
use propeller.Storage
use propeller.Scheduler.RoundRobin.{IsFirst}
use propeller.Manager.State.{Action, Svc, asked, now}
use propeller.Manager.Proplets.{list_all_active_proplets, refresh}
use propeller.Manager.Start.Effect.{calm}
use propeller.Manager.Invoke.Broadcast.{invoke_task}
use propeller.Manager.Invoke.Broadcast.Candidates.{Answered}
use propeller.Manager.Invoke.Broadcast.Whole.{invoke_task_broadcast}
use propeller.Samples.{first_task, dead_proplet, alive_proplet}
use propeller.Samples.World.{world, service}

abbrev missing_module : Err → Bool
missing_module (outside n) = true
missing_module _ = false

abbrev on_second : Task → String → Action String
on_second t id s = (if str_eq id "p1" then ok "42" else err (outside 7), s)

-- The task is stored as a latent one for any proplet, and one proplet was seen in time.
abbrev wide_task : Task
wide_task = record first_task { latent = true; broadcast = true }

abbrev seen_proplet : Proplet
seen_proplet = record alive_proplet { alive_history = 3 ∷ [] }

abbrev wide_service : Svc
wide_service = record service {
  tasks = ("a", wide_task) ∷ [];
  proplets = ("p0", dead_proplet) ∷ ("p1", seen_proplet) ∷ [];
}

abbrev listed : Result (List Proplet) × Svc
listed = list_all_active_proplets (calm (world 0)) (asked wide_service)

listed_ok : listed ≡ (ok (seen_proplet ∷ []), listed.1)
unfolding list_all_active_proplets now Storage.page Storage.sorted_values Storage.sort_entries
    refresh
listed_ok = refl

a_named : ◌≢◌ {A = String} "a" ""
a_named e = let h : str_eq "a" "" ≡ true = (eq_iff "a" "").1 e in absurd (ground arith)

invoke_task_broadcast_example :
    (c first : Proplet) × (rest before : List Proplet) × (k : ℕ) × (before ++ c ∷ rest
      ≡ seen_proplet ∷ [])
    × (c.id ≡ first.id)
    × IsFirst (seen_proplet ∷ []) listed.1.last_proplet k first
    × Answered
        (calm (world 0))
        missing_module
        on_second
        wide_task
        (c ∷ rest ++ before)
        (c ∷ rest ++ before)
        (record listed.1 { last_proplet = (listed.1.last_proplet + 1 + k) % 1 })
        (invoke_task (calm (world 0)) missing_module on_second "a" wide_service)
unfolding Storage.lookup
invoke_task_broadcast_example =
    invoke_task_broadcast (world 0) missing_module on_second wide_task (seen_proplet ∷ [])
      seen_proplet wide_service listed.1 refl a_named refl refl refl listed_ok (inl refl) refl
