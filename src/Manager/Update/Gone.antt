-- ===== src/Manager/Update/Gone.antt =====
-- What DeleteTask of manager/service.go leaves of the store of tasks.
use propeller.Prelude.{
  ◌≡◌, ◌≢◌, refl, ◌∙◌, ap, String, false, Option, none, some, str_eq, if◌then◌else◌, Bool-cases,
  Option-cases, inl, inr,
}
use propeller.Task.{Task}
use propeller.Outcome.{Result, ok}
use propeller.Storage
use propeller.Storage.Laws.{lookup-put, lookup-remove}
use propeller.Manager.State.{Env, Svc, external, asked, and_then}
use propeller.Manager.Repos.{task_get, task_update}
use propeller.Manager.Create.{unschedule_task}
use propeller.Manager.Start.Effect.{calm, not_empty}
use propeller.Manager.Calm.{task_get_stored, task_update_stored, task_delete_stored}
use propeller.Manager.Update.{delete_task}

module _ (env : Env) where
  -- The update before the deletion touches no task but the one that goes.
  unscheduled :
      (id other : String) (s : Svc)
      → str_eq id "" ≡ false
      → str_eq id other ≡ false
      → ((t : Task) → Storage.lookup s.tasks id ≡ some t → t.id ≡ id)
      → Storage.lookup (unschedule_task (calm env) id s).1.tasks other
        ≡ Storage.lookup s.tasks other
  unfolding unschedule_task task_get external Storage.get
  unscheduled id other s n d keyed = elim (Option-cases (Storage.lookup s.tasks id)) [
    | inl e ↦ rw (n, e) refl
    | inr (t, e) ↦
        let cleared = record t { schedule = ""; next_run = 0 } in
        let after : Result (Unit {0}) × Svc → Option Task = λ r. Storage.lookup r.1.tasks other in
        let read = task_get_stored env t id s n e in
        let written = task_update_stored env cleared t id (asked s) (keyed t e) n e in
        ap
          (λ r.
            after
              (and_then r (λ u. task_update (calm env) (record u { schedule = ""; next_run = 0 }))))
          read
        ∙ ap after written
        ∙ lookup-put id other cleared s.tasks
        ∙ rw d refl
  ]

  -- Where no call fails and the task is stored under its id, if at all, DeleteTask succeeds: the
  -- task is gone and every other task is as it was.
  pub delete_task_lem :
      (id : String) (s : Svc)
      → id ≢ ""
      → ((t : Task) → Storage.lookup s.tasks id ≡ some t → t.id ≡ id)
      → ((delete_task (calm env) id s).0 ≡ ok tt)
        × ((other : String)
            → Storage.lookup (delete_task (calm env) id s).1.tasks other
              ≡ (if str_eq id other then none else Storage.lookup s.tasks other))
  unfolding delete_task
  delete_task_lem id s named keyed =
      let n = not_empty id named in
      let before = (unschedule_task (calm env) id s).1 in
      let gone = task_delete_stored env id before n in
      (
        ap (λ r. r.0) gone,
        λ other.
            ap (λ r. Storage.lookup r.1.tasks other) gone
            ∙ lookup-remove id other before.tasks
            ∙ elim (Bool-cases (str_eq id other)) [
              | inl e ↦ rw e refl
              | inr e ↦ rw e (unscheduled id other s n e keyed)
            ],
      )
