-- ===== src/Manager/Start/Effect.antt =====
-- What StartTask of manager/service.go leaves behind when no call to a repository or to the broker
-- fails.
use propeller.Value.{Value}
use propeller.Prelude.{
  ℕ, suc, ◌≡◌, ◌≢◌, refl, ◌∙◌, String, true, false, none, some, List, ◌∷◌, str_eq, eq_iff,
  Bool-cases, inl, inr,
}
use propeller.Task.{Task, Proplet, running}
use propeller.Outcome.{ok}
use propeller.Storage
use propeller.Storage.Laws.{lookup-put}
use propeller.Manager.State.{Env, Svc, external, now, asked, start_message}
use propeller.Manager.Repos.{task_update, proplet_update, pin_create, publish}
use propeller.Manager.Proplets.{bump_up, count_up}
use propeller.Manager.Start.{
  dispatch, announce_start, count_start, finish_start, publish_start, start_payload,
  parent_results_of, stamped, made_running,
}

-- The same world, but no call fails.
abbrev pub calm : Env → Env
calm env = record env { fault = λ c n. none }

pub not_empty : (id : String) → id ≢ "" → str_eq id "" ≡ false
not_empty id named = elim (Bool-cases (str_eq id "")) [
  | inl e ↦ absurd (named ((eq_iff id "").0 e))
  | inr e ↦ e
]

pub str_eq_refl : (a : String) → str_eq a a ≡ true
str_eq_refl a = (eq_iff a a).1 refl

pub lookup-put_same :
    {V : Type 0} (k : String) (v : V) (s : List (String × V))
    → Storage.lookup (Storage.put k v s) k ≡ some v
lookup-put_same k v s = lookup-put k k v s ∙ rw (str_eq_refl k) refl

module _ (env : Env) where
  pin_create_new :
      (id value : String) (s : Svc)
      → id ≢ ""
      → Storage.lookup s.task_proplets id ≡ none
      → pin_create (calm env) id value s
        ≡ (ok tt, record (asked s) { task_proplets = Storage.put id value s.task_proplets })
  unfolding pin_create external Storage.create
  pin_create_new id value s named new = rw (not_empty id named, new) refl

  task_update_known :
      (t old : Task) (s : Svc)
      → t.id ≢ ""
      → Storage.lookup s.tasks t.id ≡ some old
      → task_update (calm env) t s
        ≡ (ok tt, record (asked s) { tasks = Storage.put t.id t s.tasks })
  unfolding task_update external Storage.update
  task_update_known t old s named known = rw (not_empty t.id named, known) refl

  bump_up_known :
      (p old : Proplet) (s : Svc)
      → p.id ≢ ""
      → Storage.lookup s.proplets p.id ≡ some old
      → bump_up (calm env) p s ≡ (
        ok tt,
        record (asked s) {
          proplets = Storage.put p.id (record p { task_count = count_up p.task_count }) s.proplets;
        },
      )
  unfolding bump_up proplet_update external Storage.update
  bump_up_known p old s named known = rw (not_empty p.id named, known) refl

  finish_start_lem :
      (t old : Task) (p : Proplet) (s : Svc)
      → t.id ≢ ""
      → Storage.lookup s.tasks t.id ≡ some old
      → finish_start (calm env) t.id t p s ≡ (
        ok tt,
        record (asked (asked (asked s))) {
          tasks =
              Storage.put t.id
                (record t {
                  state = running;
                  start_time = env.clock s.calls;
                  updated_at = env.clock (suc s.calls);
                })
                s.tasks;
        },
      )
  unfolding finish_start made_running now
  finish_start_lem t old p s named known =
      let t' = record t {
        state = running;
        start_time = env.clock s.calls;
        updated_at = env.clock (suc s.calls);
      } in
      rw (task_update_known t' old (asked (asked s)) named known, finish_start) refl

  count_start_lem :
      (t old : Task) (p old_p : Proplet) (s : Svc)
      → t.id ≢ ""
      → p.id ≢ ""
      → Storage.lookup s.tasks t.id ≡ some old
      → Storage.lookup s.proplets p.id ≡ some old_p
      → count_start (calm env) t.id t p s ≡ (
        ok tt,
        record (asked (asked (asked (asked s)))) {
          tasks =
              Storage.put t.id
                (record t {
                  state = running;
                  start_time = env.clock (suc s.calls);
                  updated_at = env.clock (suc (suc s.calls));
                })
                s.tasks;
          proplets = Storage.put p.id (record p { task_count = count_up p.task_count }) s.proplets;
        },
      )
  unfolding count_start
  count_start_lem t old p old_p s named named_p known known_p =
      let counted = record (asked s) {
        proplets = Storage.put p.id (record p { task_count = count_up p.task_count }) s.proplets;
      } in
      rw (bump_up_known p old_p s named_p known_p, count_start)
        (finish_start_lem t old p counted named known)

  -- The start message has the results that are read, while time goes on to `n`.
  announce_start_lem :
      (t : Task) (p : Proplet) (s : Svc) (results : List (String × Value)) (n : ℕ)
      → parent_results_of (calm env) t s ≡ (ok results, record s { calls = n })
      → announce_start (calm env) t.id t p s
        ≡ count_start (calm env) t.id t p (record s {
          calls = suc n;
          published = start_message (start_payload (calm env) t p.id results) ∷ s.published;
        })
  unfolding announce_start publish_start publish external
  announce_start_lem t p s results n read = rw (announce_start, read) refl

  -- The task between its pin and the start message.
  abbrev pub pinned : Task → Proplet → ℕ → Task
  pinned t p calls = record t { proplet_id = p.id; updated_at = env.clock (suc calls) }

  -- The state between the pin and the start message.
  abbrev pub at_pin : Task → Proplet → Svc → Svc
  at_pin t p s = record s {
    task_proplets = Storage.put t.id p.id s.task_proplets;
    tasks = Storage.put t.id (pinned t p s.calls) s.tasks;
    calls = suc (suc (suc s.calls));
  }

  dispatch_lem :
      (t old : Task) (p : Proplet) (s : Svc)
      → t.id ≢ ""
      → Storage.lookup s.task_proplets t.id ≡ none
      → Storage.lookup s.tasks t.id ≡ some old
      → dispatch (calm env) t.id t p s
        ≡ announce_start (calm env) t.id (pinned t p s.calls) p (at_pin t p s)
  unfolding dispatch stamped now
  dispatch_lem t old p s named new known =
      let s1 = record (asked s) { task_proplets = Storage.put t.id p.id s.task_proplets } in
      rw (pin_create_new t.id p.id s named new, dispatch)
        (rw (task_update_known (pinned t p s.calls) old (asked s1) named known) refl)

  -- In a world where no call fails, the dispatch of a task to a proplet succeeds if both are stored, the
  -- task has no pin, and the results of its parents can be read: the task is pinned to the proplet, it is
  -- stored as running there, the proplet is stored with one task more, all others are as they were,
  -- and the start message has gone out with those results.
  pub dispatch_effect :
      (t old : Task) (p old_p : Proplet) (s : Svc) (results : List (String × Value)) (n : ℕ)
      → t.id ≢ ""
      → p.id ≢ ""
      → Storage.lookup s.task_proplets t.id ≡ none
      → Storage.lookup s.tasks t.id ≡ some old
      → Storage.lookup s.proplets p.id ≡ some old_p
      → parent_results_of (calm env) (pinned t p s.calls) (at_pin t p s)
        ≡ (ok results, record (at_pin t p s) { calls = n })
      → dispatch (calm env) t.id t p s ≡ (
        ok tt,
        record s {
          task_proplets = Storage.put t.id p.id s.task_proplets;
          tasks =
              Storage.put t.id
                (record t {
                  proplet_id = p.id;
                  state = running;
                  start_time = env.clock (suc (suc n));
                  updated_at = env.clock (suc (suc (suc n)));
                })
                (Storage.put t.id (pinned t p s.calls) s.tasks);
          proplets = Storage.put p.id (record p { task_count = count_up p.task_count }) s.proplets;
          published =
              start_message (start_payload (calm env) (pinned t p s.calls) p.id results)
              ∷ s.published;
          calls = suc (suc (suc (suc (suc n))));
        },
      )
  dispatch_effect t old p old_p s results n named named_p new known known_p read =
      let t' = pinned t p s.calls in
      let s1 = at_pin t p s in
      let s2 = record s1 {
        calls = suc n;
        published = start_message (start_payload (calm env) t' p.id results) ∷ s.published;
      } in
      dispatch_lem t old p s named new known
      ∙ announce_start_lem t' p s1 results n read
      ∙ count_start_lem t' t' p old_p s2 named named_p (lookup-put_same t.id t' s.tasks) known_p
