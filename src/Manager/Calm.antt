-- ===== src/Manager/Calm.antt =====
-- Reads and updates of stored tasks where no call fails (manager/service.go).
use propeller.Prelude.{suc, ◌≡◌, refl, ◌∙◌, ap, String, false, some, str_eq}
use propeller.Task.{Task}
use propeller.Outcome.{ok}
use propeller.Storage
use propeller.Manager.State.{Env, Svc, external, asked}
use propeller.Manager.Repos.{task_get, task_update, task_delete}
use propeller.Manager.Start.Effect.{calm}

module _ (env : Env) where
  own_update_stored :
      (u old : Task) (s : Svc)
      → str_eq u.id "" ≡ false
      → Storage.lookup s.tasks u.id ≡ some old
      → task_update (calm env) u s
        ≡ (ok tt, record s { tasks = Storage.put u.id u s.tasks; calls = suc s.calls })
  unfolding task_update external Storage.update
  own_update_stored u old s n known = rw (n, known) refl

  pub task_update_stored :
      (u old : Task) (id : String) (s : Svc)
      → u.id ≡ id
      → str_eq id "" ≡ false
      → Storage.lookup s.tasks id ≡ some old
      → task_update (calm env) u s
        ≡ (ok tt, record s { tasks = Storage.put id u s.tasks; calls = suc s.calls })
  task_update_stored u old id s q n known =
      own_update_stored u old s (ap (λ k. str_eq k "") q ∙ n)
        (ap (Storage.lookup s.tasks) q ∙ known)
      ∙ ap (λ k. (ok tt, record s { tasks = Storage.put k u s.tasks; calls = suc s.calls })) q

  pub task_get_stored :
      (t : Task) (id : String) (s : Svc)
      → str_eq id "" ≡ false
      → Storage.lookup s.tasks id ≡ some t
      → task_get (calm env) id s ≡ (ok t, asked s)
  unfolding task_get external Storage.get
  task_get_stored t id s n known = rw (n, known) refl

  pub task_delete_stored :
      (id : String) (s : Svc)
      → str_eq id "" ≡ false
      → task_delete (calm env) id s
        ≡ (ok tt, record s { tasks = Storage.remove id s.tasks; calls = suc s.calls })
  unfolding task_delete external Storage.delete
  task_delete_stored id s n = rw n refl
