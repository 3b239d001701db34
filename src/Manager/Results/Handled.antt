-- ===== src/Manager/Results/Handled.antt =====
-- A message of results is handled to its end (manager/service.go): what comes after the update of
-- the task does not fail the handler.
use propeller.Prelude.{
  ℕ, suc, ◌≡◌, ◌≢◌, ◌↔◌, ◌⊎◌, refl, sym, ◌∙◌, ap, String, false, Option, none, some, List, str_eq,
  eq_iff, keep, Elem, Elem-keep, keep-Elem, Bool-cases, inl, inr, arith,
}
use propeller.Value.{Value, nil, text, Fields, get_field}
use propeller.Task.{State, completed, failed, Task}
use propeller.Outcome.{ok}
use propeller.Storage
use propeller.Manager.State.{Env, Svc, Action, and_then, ◌>>=◌, ◌>>◌, now, asked, external}
use propeller.Manager.Repos.{task_get, task_update, list_by_job_id}
use propeller.Manager.Handlers.{id_of}
use propeller.Manager.Start.Effect.{calm, not_empty}
use propeller.Manager.Calm.{task_get_stored, task_update_stored}
use propeller.Manager.Results.Unfailing.{follow_up-Succeeds}
use propeller.Manager.Results.Follow.{Followed, followed}
use propeller.Manager.Results.{
  with_results, value_of, error_of, follow_up, after_result, update_results_handler,
}

-- The task with the result of a message, at a time: the value under "results", or nil; it has failed with the
-- text under "error" if there is one that is not empty, and otherwise it has completed; the rest of
-- it is as it was.
abbrev pub HasResult : ℕ → Fields → Task → Task → Type 0
HasResult n msg t u =
    (r : Value) × (st : State) × (e : String) × (u
      ≡ record t { results = r; state = st; error = e; updated_at = n; finish_time = n })
    × ((get_field msg "results" ≡ some r) ⊎ ((get_field msg "results" ≡ none) × (r ≡ nil)))
    × (((st ≡ failed) × (e ≢ "") × (get_field msg "error" ≡ some (text e)))
        ⊎ ((st ≡ completed)
            × (e ≡ t.error)
            × ((x : String) → get_field msg "error" ≡ some (text x) → x ≡ "")))

value_of-cases : (o : Option Value) → (o ≡ some (value_of o)) ⊎ ((o ≡ none) × (value_of o ≡ nil))
unfolding value_of
value_of-cases none = inr (refl, refl)
value_of-cases (some v) = inl refl

error_of-text : (o : Option Value) (x : String) → o ≡ some (text x) → error_of o ≡ x
unfolding error_of
error_of-text o x e = rw e refl

error_of-some : (o : Option Value) → error_of o ≢ "" → o ≡ some (text (error_of o))
unfolding error_of
error_of-some none h = absurd (h refl)
error_of-some (some (text e)) h = refl
error_of-some (some v) h = absurd (h refl)

with_results-HasResult :
    (n : ℕ) (msg : Fields) (t : Task) → HasResult n msg t (with_results n msg t)
unfolding with_results
with_results-HasResult n msg t =
    let o = get_field msg "error" in
    let r = value_of (get_field msg "results") in
    elim (Bool-cases (str_eq (error_of o) "")) [
      | inl e ↦ (
        r,
        completed,
        t.error,
        rw (with_results, e) refl,
        value_of-cases (get_field msg "results"),
        inr (refl, refl, λ x q. sym (error_of-text o x q) ∙ (eq_iff (error_of o) "").0 e),
      )
      | inr e ↦ (
        r,
        failed,
        error_of o,
        rw (with_results, e) refl,
        value_of-cases (get_field msg "results"),
        inl (refl, some_text o e, error_of-some o (some_text o e)),
      )
    ]
  where
    some_text : (o : Option Value) → str_eq (error_of o) "" ≡ false → error_of o ≢ ""
    some_text o e q = let y = (eq_iff (error_of o) "").1 q in absurd (ground arith)

-- The tasks of a job.
abbrev pub AreOfJob : String → List Task → Svc → Type 0
AreOfJob id ts s =
    (t : Task) → Elem t ts ↔ (Elem t (Storage.sorted_values s.tasks) × (t.job_id ≡ id))

module _ (env : Env) (start on_completion : String → Action (Unit {0})) where
  list_by_job_id-calm :
      (id : String) (s : Svc)
      → (ts : List Task) × (list_by_job_id (calm env) id s ≡ (ok ts, asked s)) × AreOfJob id ts s
  unfolding list_by_job_id external
  list_by_job_id-calm id s = (
    keep (λ t. str_eq t.job_id id) (Storage.sorted_values s.tasks),
    refl,
    λ t. (
      λ m.
          let (a, b) = Elem-keep (λ u. str_eq u.job_id id) t (Storage.sorted_values s.tasks) m in
          (a, (eq_iff t.job_id id).0 b),
      λ (m, e).
          keep-Elem (λ u. str_eq u.job_id id) t (Storage.sorted_values s.tasks) m
            ((eq_iff t.job_id id).1 e),
    ),
  )

  -- What happens between the update of a task and the call of the coordinator.
  abbrev pub JobFollows : Task → Svc → Svc → Type 0
  JobFollows done s s' =
      ((done.job_id ≡ "") × (s' ≡ s))
      ⊎ ((done.job_id ≢ "")
          × ((ts : List Task) × AreOfJob done.job_id ts s
              × Followed env start done ts (asked s) s'))

  follow_up-ok :
      (t : Task) (ts : List Task) (s : Svc)
      → follow_up (calm env) start on_completion t (ok ts) s
        ≡ (ok tt, (follow_up (calm env) start on_completion t (ok ts) s).1)
  follow_up-ok t ts s =
      let (a, s', e) = follow_up-Succeeds (calm env) start on_completion t (ok ts) s in rw e refl

  after_result_lem :
      (id : String) (t : Task) (s : Svc)
      → (s' : Svc) × (after_result (calm env) start on_completion id t s
          ≡ (ok tt, (on_completion id s').1))
        × JobFollows t s s'
  unfolding after_result
  after_result_lem id t s = elim (Bool-cases (str_eq t.job_id "")) [
    | inl e ↦ (s, rw (e, after_result) refl, inl ((eq_iff t.job_id "").0 e, refl))
    | inr e ↦
        let (ts, listed, of_job) = list_by_job_id-calm t.job_id s in
        let s' = (follow_up (calm env) start on_completion t (ok ts) (asked s)).1 in
        (
          s',
          rw (e, after_result, listed) (rw (follow_up-ok t ts (asked s)) refl),
          inr (
            λ q. (let y = (eq_iff t.job_id "").1 q in absurd (ground arith)),
            (ts, of_job, followed env start on_completion t ts (asked s)),
          ),
        )
  ]

results-kept :
    (n : ℕ) (msg : Fields) (t : Task)
    → ((with_results n msg t).id ≡ t.id) × ((with_results n msg t).job_id ≡ t.job_id)
unfolding with_results
results-kept n msg t = elim (Bool-cases (str_eq (error_of (get_field msg "error")) "")) [
  | inl e ↦ (rw e refl, rw e refl)
  | inr e ↦ (rw e refl, rw e refl)
]

id_of_text :
    (o : Option Value) (id : String) (s : Svc)
    → o ≡ some (text id)
    → str_eq id "" ≡ false
    → id_of o s ≡ (ok id, s)
unfolding id_of
id_of_text o id s e n = rw (e, id_of) (rw n refl)

module _ (env : Env) (start on_completion : String → Action (Unit {0})) where
  reduces :
      (msg : Fields) (t : Task) (s : Svc)
      → get_field msg "task_id" ≡ some (text t.id)
      → t.id ≢ ""
      → Storage.lookup s.tasks t.id ≡ some t
      → update_results_handler (calm env) start on_completion msg s
        ≡ after_result
            (calm env)
            start
            on_completion
            t.id
            (with_results (env.clock (suc s.calls)) msg t)
            (record s {
              tasks = Storage.put t.id (with_results (env.clock (suc s.calls)) msg t) s.tasks;
              calls = suc (suc (suc s.calls));
            })
  unfolding update_results_handler now
  reduces msg t s told named known =
      let n = not_empty t.id named in
      let done = with_results (env.clock (suc s.calls)) msg t in
      let updated =
        task_update_stored env done t t.id (record s { calls = suc (suc s.calls) })
          (results-kept (env.clock (suc s.calls)) msg t).0 n known in
      let finish : String → Task → Action (Unit {0}) = λ id u. (do
        m ← now (calm env)
        task_update (calm env) (with_results m msg u)
        after_result (calm env) start on_completion id (with_results m msg u)) in
      ap (λ r. and_then r (λ id. task_get (calm env) id >>= λ u. finish id u))
        (id_of_text (get_field msg "task_id") t.id s told n)
      ∙ ap (λ r. and_then r (λ u. finish t.id u)) (task_get_stored env t t.id s n known)
      ∙ ap (λ r. and_then r (λ _. after_result (calm env) start on_completion t.id done)) updated

  -- Where no call fails, a message with the results of a stored task is handled without error: the task
  -- is stored with its result; if it is a task of a job, the other tasks of the job are stopped,
  -- started or left alone as it has failed or completed and as they stand; and the handler ends with the
  -- call of the coordinator.
  pub update_results_handler_lem :
      (msg : Fields) (t : Task) (s : Svc)
      → get_field msg "task_id" ≡ some (text t.id)
      → t.id ≢ ""
      → Storage.lookup s.tasks t.id ≡ some t
      → (done : Task) × (s' : Svc) × HasResult (env.clock (suc s.calls)) msg t done
        × JobFollows env start on_completion done
            (record s { tasks = Storage.put t.id done s.tasks; calls = suc (suc (suc s.calls)) })
            s'
        × (update_results_handler (calm env) start on_completion msg s
            ≡ (ok tt, (on_completion t.id s').1))
  update_results_handler_lem msg t s told named known =
      let done = with_results (env.clock (suc s.calls)) msg t in
      let stored = record s {
        tasks = Storage.put t.id done s.tasks;
        calls = suc (suc (suc s.calls));
      } in
      let (s', e, follows) = after_result_lem env start on_completion t.id done stored in
      (
        done,
        s',
        with_results-HasResult (env.clock (suc s.calls)) msg t,
        follows,
        reduces msg t s told named known ∙ e,
      )
