-- ===== src/Manager/Start/Parents.antt =====
-- The dependencies of a task at its start (manager/service.go): the check that they have ended, and the
-- results that go into the start message, where no call fails.
use propeller.Prelude.{
  ℕ, suc, ◌+◌, ◌≡◌, ◌≢◌, ◌⊎◌, refl, sym, ◌∙◌, ap, inl, inr, String, true, Option, none, some, List,
  [], ◌∷◌, All, Elem, arith, length, str_eq, eq_iff, Bool-cases,
}
use propeller.Value.{Value, nil}
use propeller.Task.{State, completed, failed, skipped, Task}
use propeller.Outcome.{ok}
use propeller.Storage
use propeller.Storage.Laws.{lookup-put}
use propeller.Manager.State.{Env, Svc, Action, asked}
use propeller.Manager.Workflow.{is_completed}
use propeller.Manager.Calm.{task_get_stored}
use propeller.Manager.Start.Effect.{calm, not_empty}
use propeller.Manager.Start.{
  is_met, check_task_dependencies, add_results, put_results, collect_results, get_parent_results,
  parent_results_of,
}

-- A dependency is stored, and has Completed, Failed or was Skipped.
abbrev pub Met : List (String × Task) → String → Type 0
Met m d =
    (d ≢ "")
    × ((dep : Task) × (Storage.lookup m d ≡ some dep)
        × ((dep.state ≡ completed) ⊎ ((dep.state ≡ failed) ⊎ (dep.state ≡ skipped))))

-- The results of a parent that has completed and has some, under its id.
abbrev with_value : State → String → Value → List (String × Value) → List (String × Value)
with_value completed d nil results = results
with_value completed d v results = Storage.put d v results
with_value st d v results = results

abbrev with_parent : String → Option Task → List (String × Value) → List (String × Value)
with_parent d none results = results
with_parent d (some dep) results = with_value dep.state d dep.results results

-- The results of all parents.
abbrev pub gathered :
    List (String × Task) → List String → List (String × Value) → List (String × Value)
gathered m [] results = results
gathered m (d ∷ ds) results = gathered m ds (with_parent d (Storage.lookup m d) results)

-- The questions to the world while they are read.
abbrev pub reads : List String → ℕ
reads [] = 0
reads (d ∷ ds) = suc (length (d ∷ ds))

met-is_met : (st : State) → (st ≡ completed) ⊎ ((st ≡ failed) ⊎ (st ≡ skipped)) → is_met st ≡ true
unfolding is_met
met-is_met st (inl e) = rw e refl
met-is_met st (inr (inl e)) = rw e refl
met-is_met st (inr (inr e)) = rw e refl

module _ (env : Env) where
  put_results-with_value :
      (d : String) (v : Value) (results : List (String × Value))
      → put_results env d v results ≡ with_value completed d v results
  unfolding put_results
  put_results-with_value d nil results = refl
  put_results-with_value d v results = refl

  add_results-with_parent :
      (st : State) (d : String) (dep : Task) (results : List (String × Value))
      → dep.state ≡ st
      → add_results env d dep results ≡ with_parent d (some dep) results
  unfolding add_results is_completed
  add_results-with_parent completed d dep results e =
      rw (add_results, e) (put_results-with_value d dep.results results)
  add_results-with_parent st d dep results e = rw (add_results, e) refl

  one_more : (n k : ℕ) (s : Svc) → record s { calls = n + suc k } ≡ record s { calls = suc n + k }
  one_more n k s = ap (λ c. record s { calls = c }) (step_on n k)
    where
      step_on : (n k : ℕ) → n + suc k ≡ suc n + k
      step_on n k = omega arith

  none_more : (s : Svc) → s ≡ record s { calls = 0 + s.calls }
  none_more s = ap (λ c. record s { calls = c }) (plus s.calls)
    where
      plus : (k : ℕ) → k ≡ 0 + k
      plus k = omega arith

  -- Where all dependencies have ended, the check passes.
  pub check_task_dependencies-Met :
      (coordinate : String → Action (Unit {0})) (id : String) (t : Task) (ds : List String)
      (s : Svc)
      → All (Met s.tasks) ds
      → check_task_dependencies (calm env) coordinate id t ds s
        ≡ (ok tt, record s { calls = length ds + s.calls })
  unfolding check_task_dependencies
  check_task_dependencies-Met coordinate id t [] s h = ap (λ u. (ok tt, u)) (none_more s)
  check_task_dependencies-Met coordinate id t (d ∷ ds) s ((named, (dep, known, met)), rest) =
      rw
        (
          check_task_dependencies,
          task_get_stored env dep d s (not_empty d named) known,
          met-is_met dep.state met,
        )
        (check_task_dependencies-Met coordinate id t ds (asked s) rest
          ∙ ap (λ u. (ok tt, u)) (one_more (length ds) s.calls s))

  collect_results-gathered :
      (ds : List String) (results : List (String × Value)) (s : Svc)
      → All (Met s.tasks) ds
      → collect_results (calm env) ds results s
        ≡ (ok (gathered s.tasks ds results), record s { calls = length ds + s.calls })
  unfolding collect_results
  collect_results-gathered [] results s h = ap (λ u. (ok results, u)) (none_more s)
  collect_results-gathered (d ∷ ds) results s ((named, (dep, known, met)), rest) =
      rw (collect_results, task_get_stored env dep d s (not_empty d named) known)
        (rw (known, add_results-with_parent dep.state d dep results refl)
          (collect_results-gathered ds (with_parent d (some dep) results) (asked s) rest
            ∙ ap (λ u. (ok (gathered s.tasks ds (with_parent d (some dep) results)), u))
                (one_more (length ds) s.calls s)))

  -- What is read for the start message of a stored task whose dependencies have ended.
  pub parent_results_of-gathered :
      (t : Task) (ds : List String) (s : Svc)
      → t.depends_on ≡ ds
      → t.id ≢ ""
      → Storage.lookup s.tasks t.id ≡ some t
      → All (Met s.tasks) ds
      → parent_results_of (calm env) t s
        ≡ (ok (gathered s.tasks ds []), record s { calls = reads ds + s.calls })
  unfolding parent_results_of get_parent_results
  parent_results_of-gathered t [] s e named known h =
      rw (parent_results_of, e) (ap (λ u. (ok [], u)) (none_more s))
  parent_results_of-gathered t (d ∷ ds) s e named known h =
      rw
        (
          parent_results_of,
          e,
          get_parent_results,
          task_get_stored env t t.id s (not_empty t.id named) known,
          e,
          collect_results-gathered (d ∷ ds) [] (asked s) h,
        )
        (ap (λ u. (ok (gathered s.tasks (d ∷ ds) []), u)) (one_more (length (d ∷ ds)) s.calls s))

-- Another task in the store changes nothing for the dependencies.
pub lookup-other :
    (m : List (String × Task)) (id d : String) (t : Task)
    → d ≢ id
    → Storage.lookup (Storage.put id t m) d ≡ Storage.lookup m d
lookup-other m id d t other = elim (Bool-cases (str_eq id d)) [
  | inl e ↦ absurd (other (sym ((eq_iff id d).0 e)))
  | inr e ↦ lookup-put id d t m ∙ rw e refl
]

pub Met-put :
    (m : List (String × Task)) (id : String) (t : Task) (ds : List String)
    → (¬ Elem id ds)
    → All (Met m) ds
    → All (Met (Storage.put id t m)) ds
Met-put m id t [] alone h = tt
Met-put m id t (d ∷ ds) alone ((named, (dep, known, met)), rest) = (
  (named, (dep, lookup-other m id d t (λ e. alone (inl e)) ∙ known, met)),
  Met-put m id t ds (λ n. alone (inr n)) rest,
)

pub gathered-put :
    (m : List (String × Task)) (id : String) (t : Task) (ds : List String)
    (results : List (String × Value))
    → (¬ Elem id ds)
    → gathered (Storage.put id t m) ds results ≡ gathered m ds results
gathered-put m id t [] results alone = refl
gathered-put m id t (d ∷ ds) results alone =
    ap (λ o. gathered (Storage.put id t m) ds (with_parent d o results))
      (lookup-other m id d t (λ e. alone (inl e)))
    ∙ gathered-put m id t ds (with_parent d (Storage.lookup m d) results) (λ n. alone (inr n))
