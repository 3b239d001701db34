-- ===== src/Manager/Create/Atomic.antt =====
-- CreateWorkflow and CreateJob of manager/service.go, when they fail.
use propeller.Prelude.{
  ℕ, ◌≡◌, refl, sym, ◌∙◌, ap, inl, inr, String, List, [], ◌∷◌, arith, str_eq, Bool-cases,
  Option-cases, contains,
}
use propeller.Task.{Task, Job}
use propeller.Errors.{Err}
use propeller.Outcome.{Result, ok, err}
use propeller.Storage
use propeller.Dag.{validate_dependencies_exist, validate_dag}
use propeller.Manager.State.{Env, Svc, Action, and_then, ◌>>=◌, pure, external, now, new_uuid}
use propeller.Manager.Frame.{Keeps, Keeps-bind, Keeps-if, now-Keeps, new_uuid-Keeps}
use propeller.Manager.Repos.{job_create, job_delete}
use propeller.Manager.Create.{
  create_all, create_workflow, in_workflow, with_id, check_dependencies, check_run_if, first_id,
  in_job, create_job, store_job, unstore_job,
}
use propeller.Manager.Create.Rollback.{tasks_of, DeletesWork, create_all-lookup}

-- If the action fails, the tasks read as before.
abbrev Atomic : {A : Type 0} → Action A → Type 0
Atomic m =
    (s s' : Svc) (e : Err) (j : String)
    → m s ≡ (err e, s')
    → Storage.lookup s'.tasks j ≡ Storage.lookup s.tasks j

Keeps-Atomic : {A : Type 0} (m : Action A) → Keeps tasks_of m → Atomic m
Keeps-Atomic {A} m keeps s s' e j h =
    ap (λ (l : List (String × Task)). Storage.lookup l j)
      (ap (λ (r : Result A × Svc). r.1.tasks) (sym h) ∙ keeps s)

Atomic-bind :
    {A B : Type 0} (m : Action A) (f : A → Action B)
    → Keeps tasks_of m
    → ((a : A) → Atomic (f a))
    → Atomic (m >>= f)
Atomic-bind {A} {B} m f keeps rest s s' e j h = go (m s) (keeps s) h
  where
    go :
        (r : Result A × Svc)
        → r.1.tasks ≡ s.tasks
        → and_then r f ≡ (err e, s')
        → Storage.lookup s'.tasks j ≡ Storage.lookup s.tasks j
    go (ok a, s1) k q = rest a s1 s' e j q ∙ ap (λ (l : List (String × Task)). Storage.lookup l j) k
    go (err x, s1) k q =
        ap (λ (l : List (String × Task)). Storage.lookup l j)
          (ap (λ (r : Result B × Svc). r.1.tasks) (sym q) ∙ k)

Atomic-pure : {A B : Type 0} (m : Action A) (f : A → B) → Atomic m → Atomic (m >>= λ a. pure (f a))
Atomic-pure {A} {B} m f atomic s s' e j h = go (m s) refl h
  where
    go :
        (r : Result A × Svc)
        → m s ≡ r
        → and_then r (λ a. pure (f a)) ≡ (err e, s')
        → Storage.lookup s'.tasks j ≡ Storage.lookup s.tasks j
    go (ok a, s1) k q = cc
    go (err x, s1) k q =
        ap (λ (l : List (String × Task)). Storage.lookup l j)
          (ap (λ (r : Result B × Svc). r.1.tasks) (sym q))
        ∙ atomic s s1 x j k

module _ (env : Env) (works : DeletesWork env) where
  create_all-Atomic :
      (undo : Action (Unit {0})) (ts : List Task)
      → Keeps tasks_of undo
      → Atomic (create_all env undo [] ts)
  unfolding contains
  create_all-Atomic undo ts keeps s s' e j h =
      create_all-lookup env works (λ k. Storage.lookup s.tasks k) undo keeps ts [] s s' e j
        (record { named = tt; fresh = λ k c. cc; rest = λ k c. refl }) h

  with_id-Keeps : (t : Task) → Keeps tasks_of (with_id env t)
  unfolding with_id
  with_id-Keeps t s = elim (Bool-cases (str_eq t.id "")) [
    | inl e ↦ rw (e, with_id) refl
    | inr e ↦ rw (e, with_id) refl
  ]

  in_workflow-Keeps : (w : String) (ts : List Task) → Keeps tasks_of (in_workflow env w ts)
  unfolding in_workflow
  in_workflow-Keeps w [] = λ s. refl
  in_workflow-Keeps w (t ∷ ts) =
      let after = λ (t' : Task) (n : ℕ) (rest : List Task).
        pure {A = List Task} (record t' { created_at = n } ∷ rest) in
      let stamp = λ (t' : Task) (n : ℕ). in_workflow env w ts >>= after t' n in
      Keeps-bind tasks_of (with_id env (record t { workflow_id = w })) (λ t'. now env >>= stamp t')
        (with_id-Keeps _)
        λ t'. Keeps-bind tasks_of (now env) (stamp t') (now-Keeps tasks_of env (λ s. refl)) λ n.
          Keeps-bind tasks_of (in_workflow env w ts) (after t' n) (in_workflow-Keeps w ts)
            (λ rest s. refl)

  in_job-Keeps : (i : String) (n : ℕ) (ts : List Task) → Keeps tasks_of (in_job env i n ts)
  unfolding in_job
  in_job-Keeps i n [] = λ s. refl
  in_job-Keeps i n (t ∷ ts) =
      Keeps-bind tasks_of (with_id env (record t { job_id = i })) _ (with_id-Keeps _)
        λ t'. Keeps-bind tasks_of (in_job env i n ts) _ (in_job-Keeps i n ts) (λ rest s. refl)

  check_run_if-Keeps : (ts : List Task) → Keeps tasks_of (check_run_if env ts)
  unfolding check_run_if
  check_run_if-Keeps [] = λ s. refl
  check_run_if-Keeps (t ∷ ts) =
      let rest = check_run_if-Keeps ts in
      Keeps-if tasks_of (str_eq t.run_if "") _ _ rest (
        Keeps-if tasks_of (str_eq t.run_if "success") _ _ rest
          (Keeps-if tasks_of (str_eq t.run_if "failure") _ _ rest (λ s. refl)))

  check_dependencies-Keeps : (ts : List Task) → Keeps tasks_of (check_dependencies ts)
  unfolding check_dependencies
  check_dependencies-Keeps ts s = elim (Option-cases (validate_dependencies_exist ts)) [
    | inr (e, h) ↦ rw (h, check_dependencies) refl
    | inl h ↦ elim (Option-cases (validate_dag ts)) [
      | inr (e, k) ↦ rw (h, check_dependencies, k) refl
      | inl k ↦ rw (h, check_dependencies, k) refl
    ]
  ]

  create_workflow-Atomic : (ts : List Task) → Atomic (create_workflow env ts)
  unfolding create_workflow
  create_workflow-Atomic [] = Keeps-Atomic (create_workflow env []) (λ s. refl)
  create_workflow-Atomic (t ∷ ts) =
      Atomic-bind (new_uuid env) _ (new_uuid-Keeps tasks_of env (λ s. refl)) λ fresh.
        Atomic-bind (in_workflow env (first_id (λ u. u.workflow_id) (t ∷ ts) fresh) (t ∷ ts)) _
          (in_workflow-Keeps (first_id (λ u. u.workflow_id) (t ∷ ts) fresh) (t ∷ ts))
          λ tasks. Atomic-bind (check_dependencies tasks) _ (check_dependencies-Keeps tasks) λ u.
            Atomic-bind (check_run_if env tasks) _ (check_run_if-Keeps tasks)
              λ v. create_all-Atomic (pure tt) tasks (λ s. refl)

  job_create-Keeps : (j : Job) → Keeps tasks_of (job_create env j)
  unfolding job_create external
  job_create-Keeps j s = ground arith

  abbrev new_job : String → String → String → ℕ → Job
  new_job id name mode n = record {
    id = id;
    name = name;
    execution_mode = mode;
    created_at = n;
    updated_at = n;
  }

  store_job-Keeps : (j : Job) → Keeps tasks_of (store_job env j)
  unfolding store_job
  store_job-Keeps j s = let k = job_create-Keeps j s in ground arith

  unstore_job-Keeps : (id : String) → Keeps tasks_of (unstore_job env id)
  unfolding unstore_job job_delete external
  unstore_job-Keeps id s = ground arith

  create_job-Atomic :
      (name : String) (ts : List Task) (mode : String) → Atomic (create_job env name ts mode)
  unfolding create_job
  create_job-Atomic name [] mode = Keeps-Atomic (create_job env name [] mode) (λ s. refl)
  create_job-Atomic name (t ∷ ts) mode =
      Atomic-bind (new_uuid env) _ (new_uuid-Keeps tasks_of env (λ s. refl)) λ fresh.
        let id = first_id (λ u. u.job_id) (t ∷ ts) fresh in
        Atomic-bind (now env) _ (now-Keeps tasks_of env (λ s. refl)) λ n.
          Atomic-bind (in_job env id n (t ∷ ts)) _ (in_job-Keeps id n (t ∷ ts)) λ tasks.
            Atomic-bind (check_dependencies tasks) _ (check_dependencies-Keeps tasks) λ u.
              Atomic-bind (store_job env (new_job id name mode n)) _
                (store_job-Keeps (new_job id name mode n))
                λ v.
                  Atomic-pure (create_all env (unstore_job env id) [] tasks)
                    (λ created. (id, created))
                    (create_all-Atomic (unstore_job env id) tasks (unstore_job-Keeps id))

  -- With deletions that do not fail, a creation of a workflow that fails, wherever it does, leaves
  -- every task as it was before: none is new, changed or gone.
  pub create_workflow_undone :
      (ts : List Task) (s s' : Svc) (e : Err) (j : String)
      → create_workflow env ts s ≡ (err e, s')
      → Storage.lookup s'.tasks j ≡ Storage.lookup s.tasks j
  create_workflow_undone ts = create_workflow-Atomic ts

  -- With deletions that do not fail, a creation of a job that fails, wherever it does, leaves every
  -- task as it was before.
  create_job_undone :
      (name : String) (ts : List Task) (mode : String) (s s' : Svc) (e : Err) (j : String)
      → create_job env name ts mode s ≡ (err e, s')
      → Storage.lookup s'.tasks j ≡ Storage.lookup s.tasks j
  create_job_undone name ts mode = create_job-Atomic name ts mode
