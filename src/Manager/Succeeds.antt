-- ===== src/Manager/Succeeds.antt =====
-- Actions that return without an error, and the stop of a job's tasks as one of them (stopJobTasks of
-- manager/service.go).
use propeller.Prelude.{◌≡◌, refl, ◌∙◌, ap, Bool, true, false, if◌then◌else◌, List, [], ◌∷◌}
use propeller.Task.{Task}
use propeller.Outcome.{ok}
use propeller.Manager.State.{Env, Svc, Action, and_then, ◌>>=◌, pure, try, ignore}
use propeller.Manager.Stop.{stop_task, stop_job_tasks}
use propeller.Manager.Workflow.{is_active}

-- The action returns without an error.
abbrev pub Succeeds : {A : Type 0} → Action A → Type 0
Succeeds {A} m = (s : Svc) → (a : A) × (s' : Svc) × (m s ≡ (ok a, s'))

pub Succeeds-bind :
    {A B : Type 0} (m : Action A) (f : A → Action B)
    → Succeeds m
    → ((a : A) → Succeeds (f a))
    → Succeeds (m >>= f)
Succeeds-bind m f h k s =
    let (a, s', e) = h s in let (b, s'', e') = k a s' in (b, s'', ap (λ r. and_then r f) e ∙ e')

pub Succeeds-if :
    {A : Type 0} (b : Bool) (m n : Action A)
    → Succeeds m
    → Succeeds n
    → Succeeds (if b then m else n)
Succeeds-if true m n h k = h
Succeeds-if false m n h k = k

pub pure-Succeeds : {A : Type 0} (a : A) → Succeeds (pure a)
pure-Succeeds a s = (a, s, refl)

pub ignore-Succeeds : {A : Type 0} (m : Action A) → Succeeds (ignore m)
ignore-Succeeds m s = (tt, (m s).1, refl)

pub try-Succeeds : {A : Type 0} (m : Action A) → Succeeds (try m)
try-Succeeds m s = ((m s).0, (m s).1, refl)

pub stop_job_tasks-Succeeds : (env : Env) (ts : List Task) → Succeeds (stop_job_tasks env ts)
unfolding stop_job_tasks
stop_job_tasks-Succeeds env [] = pure-Succeeds tt
stop_job_tasks-Succeeds env (t ∷ ts) =
    Succeeds-bind (if is_active t.state then ignore (stop_task env t.id) else pure tt)
      (λ _. stop_job_tasks env ts)
      (Succeeds-if (is_active t.state) _ _ (ignore-Succeeds (stop_task env t.id))
        (pure-Succeeds tt))
      (λ _. stop_job_tasks-Succeeds env ts)
