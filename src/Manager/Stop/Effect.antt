-- ===== src/Manager/Stop/Effect.antt =====
-- What StopTask of manager/service.go leaves behind when no call fails, and that it takes back the
-- count of a start.
use propeller.Prelude.{
  ℕ, suc, ◌+◌, ◌<◌, ◌^◌, ◌≡◌, ◌≢◌, refl, ◌∙◌, String, false, none, some, ◌∷◌, arith, str_eq,
  if◌then◌else◌,
}
use propeller.Task.{Task, Proplet, set_alive}
use propeller.Outcome.{ok}
use propeller.Storage
use propeller.Storage.Laws.{lookup-remove}
use propeller.Manager.State.{Env, Svc, external, now, asked, stop_message}
use propeller.Manager.Repos.{
  task_get, proplet_update, proplet_repo_get, pin_get, pin_delete, publish,
}
use propeller.Manager.Proplets.{get_proplet, bump_down, count_up, count_down}
use propeller.Manager.Start.Effect.{calm, not_empty, lookup-put_same}
use propeller.Manager.Stop.{stop_task, stop_on_proplet}

-- A stop takes back the count of a start, below the largest int64.
count_down-count_up : (n : ℕ) → n + 1 < 2 ^ 63 → count_down (count_up n) ≡ n
unfolding count_down count_up
count_down-count_up n h = ground arith

module _ (env : Env) where
  task_get_known :
      (t : Task) (s : Svc)
      → t.id ≢ ""
      → Storage.lookup s.tasks t.id ≡ some t
      → task_get (calm env) t.id s ≡ (ok t, asked s)
  unfolding task_get external Storage.get
  task_get_known t s named known = rw (not_empty t.id named, known) refl

  pin_get_known :
      (id p : String) (s : Svc)
      → id ≢ ""
      → Storage.lookup s.task_proplets id ≡ some p
      → pin_get (calm env) id s ≡ (ok p, asked s)
  unfolding pin_get external Storage.get
  pin_get_known id p s named known = rw (not_empty id named, known) refl

  get_proplet_present :
      (p : Proplet) (s : Svc)
      → p.id ≢ ""
      → Storage.lookup s.proplets p.id ≡ some p
      → get_proplet (calm env) p.id s
        ≡ (ok (set_alive (env.clock (suc s.calls)) p), asked (asked s))
  unfolding get_proplet proplet_repo_get external now Storage.get
  get_proplet_present p s named known = rw (not_empty p.id named, known) refl

  pin_delete_lem :
      (id : String) (s : Svc)
      → id ≢ ""
      → pin_delete (calm env) id s
        ≡ (ok tt, record (asked s) { task_proplets = Storage.remove id s.task_proplets })
  unfolding pin_delete external Storage.delete
  pin_delete_lem id s named = rw (not_empty id named) refl

  bump_down_known :
      (p old : Proplet) (s : Svc)
      → p.id ≢ ""
      → Storage.lookup s.proplets p.id ≡ some old
      → bump_down (calm env) p s ≡ (
        ok tt,
        record (asked s) {
          proplets =
              Storage.put p.id (record p { task_count = count_down p.task_count }) s.proplets;
        },
      )
  unfolding bump_down proplet_update external Storage.update
  bump_down_known p old s named known = rw (not_empty p.id named, known) refl

  stop_on_proplet_lem :
      (t : Task) (p : Proplet) (s : Svc)
      → t.id ≢ ""
      → p.id ≢ ""
      → Storage.lookup s.task_proplets t.id ≡ some p.id
      → Storage.lookup s.proplets p.id ≡ some p
      → stop_on_proplet (calm env) t.id t s ≡ (
        ok tt,
        record (asked (asked (asked (asked (asked (asked s)))))) {
          published = stop_message t.id (some t.broadcast) (some p.id) ∷ s.published;
          task_proplets = Storage.remove t.id s.task_proplets;
          proplets =
              Storage.put p.id
                (record p {
                  alive = (set_alive (env.clock (suc (suc s.calls))) p).alive;
                  task_count = count_down p.task_count;
                })
                s.proplets;
        },
      )
  unfolding stop_on_proplet set_alive publish external
  stop_on_proplet_lem t p s named named_p pinned known =
      let seen = set_alive (env.clock (suc (suc s.calls))) p in
      let told = record (asked (asked (asked (asked s)))) {
        published = stop_message t.id (some t.broadcast) (some p.id) ∷ s.published;
      } in
      let freed = record (asked told) { task_proplets = Storage.remove t.id s.task_proplets } in
      rw (pin_get_known t.id p.id s named pinned, stop_on_proplet)
        (rw (get_proplet_present p (asked s) named_p known) (
          rw (pin_delete_lem t.id told named)
            (rw (bump_down_known seen p freed named_p known) refl)))

  -- In a world where no call fails, StopTask succeeds for a task that is not sent to all proplets and
  -- is pinned to a stored proplet: the pin is gone and no other, the proplet is stored with one task
  -- fewer, and the stop message has gone out to it.
  pub stop_task_effect :
      (t : Task) (p : Proplet) (s : Svc) (j : String)
      → t.broadcast ≡ false
      → t.id ≢ ""
      → p.id ≢ ""
      → Storage.lookup s.tasks t.id ≡ some t
      → Storage.lookup s.task_proplets t.id ≡ some p.id
      → Storage.lookup s.proplets p.id ≡ some p
      → ((stop_task (calm env) t.id s).0 ≡ ok tt)
        × (Storage.lookup (stop_task (calm env) t.id s).1.task_proplets j
            ≡ (if str_eq t.id j then none else Storage.lookup s.task_proplets j))
        × (Storage.lookup (stop_task (calm env) t.id s).1.proplets p.id
            ≡ some (record (set_alive (env.clock (suc (suc (suc s.calls)))) p) {
              task_count = count_down p.task_count;
            }))
        × ((stop_task (calm env) t.id s).1.published
            ≡ stop_message t.id (some t.broadcast) (some p.id) ∷ s.published)
  unfolding stop_task set_alive
  stop_task_effect t p s j single named named_p stored pinned known =
      let reached : stop_task (calm env) t.id s ≡ stop_on_proplet (calm env) t.id t (asked s) =
        rw (task_get_known t s named stored, stop_task, single) refl in
      rw (reached ∙ stop_on_proplet_lem t p (asked s) named named_p pinned known)
        (refl, lookup-remove t.id j s.task_proplets, lookup-put_same p.id _ s.proplets, refl)
