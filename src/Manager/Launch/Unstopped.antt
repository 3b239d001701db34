-- ===== src/Manager/Launch/Unstopped.antt =====
-- What StartJob of manager/service.go leaves running when a start fails: it looks at the tasks as
-- they were listed before the starts.
use propeller.Prelude.{◌≡◌, refl, String, false, List, [], ◌∷◌, All, if◌then◌else◌}
use propeller.Task.{Task}
use propeller.Outcome.{Result, ok, err}
use propeller.Manager.State.{Env, Svc, Action, and_then, ◌>>◌, pure, throw}
use propeller.Manager.Workflow.{is_active}
use propeller.Manager.Stop.{is_root, stop_job_tasks, start_job_sequential}

-- The tasks without dependencies are started in order, up to the first error; nothing is stopped.
unfoldable pub start_each : (String → Action (Unit {0})) → List Task → Action (Unit {0})
unfolding is_root
start_each start [] = pure tt
start_each start (t ∷ ts) = do if is_root t then start t.id else pure tt; start_each start ts

module _ (env : Env) where
  none_stopped :
      (ts : List Task) (s : Svc)
      → All (λ t. is_active t.state ≡ false) ts
      → stop_job_tasks env ts s ≡ (ok tt, s)
  unfolding stop_job_tasks
  none_stopped [] s h = refl
  none_stopped (t ∷ ts) s (a, h) = rw (a, stop_job_tasks) (none_stopped ts s h)

  after_start :
      (start : String → Action (Unit {0})) (all ts : List Task)
      → All (λ t. is_active t.state ≡ false) all
      → ((s : Svc) → start_job_sequential env start all ts s ≡ start_each start ts s)
      → (r : Result (Unit {0}) × Svc)
      → and_then
          (ok r.0, r.1)
          (λ (x : Result (Unit {0})). elim x [
            | ok _ ↦ start_job_sequential env start all ts
            | err e ↦ (do stop_job_tasks env all; throw e)
          ])
        ≡ and_then r (λ u. start_each start ts)
  after_start start all ts h rest (ok u, s) = rest s
  after_start start all ts h rest (err e, s) = rw (none_stopped all s h) refl

  -- Where none of the job's tasks was active when they were listed, the sequential start that fails
  -- leaves everything as the starts before left it: no task that it started is stopped.
  pub start_job_sequential_unstopped :
      (start : String → Action (Unit {0})) (all ts : List Task) (s : Svc)
      → All (λ t. is_active t.state ≡ false) all
      → start_job_sequential env start all ts s ≡ start_each start ts s
  unfolding start_job_sequential start_each
  start_job_sequential_unstopped start all [] s h = refl
  start_job_sequential_unstopped start all (t ∷ ts) s h =
      after_start start all ts h (λ s'. start_job_sequential_unstopped start all ts s' h)
        ((if is_root t then start t.id else pure tt) s)
