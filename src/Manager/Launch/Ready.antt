-- ===== src/Manager/Launch/Ready.antt =====
-- The tasks that the configurable start of a job starts (manager/service.go).
use propeller.Prelude.{◌≡◌, ◌⊎◌, String, List, [], ◌∷◌, ◌++◌}
use propeller.Task.{Task}
use propeller.Manager.State.{Env, Svc, Action}
use propeller.Errors.{Err}
use propeller.Outcome.{Result, ok, err}
use propeller.Manager.Stop.{stop_job_tasks}

-- Starting the tasks in this order succeeds each time, and leads from one state to the other.
pub data Started (start : String → Action (Unit {0})) : List Task → Svc → Svc → Type 0 where
  no_more : {s : Svc} → Started start [] s s
  and_next :
      {t : Task} {ts : List Task} {s u v : Svc}
      → start t.id s ≡ (ok tt, u)
      → Started start ts u v
      → Started start (t ∷ ts) s v

module _ (env : Env) (start : String → Action (Unit {0})) (all : List Task) where
  -- How the tasks in this order are started, one after the other: all are, without an error; or all
  -- up to one whose start fails, and then none after it: the tasks of the job that are active are
  -- stopped, and the error of that start is returned.
  abbrev pub Launched : List Task → Svc → Result (Unit {0}) × Svc → Type 0
  Launched ts s out =
      ((v : Svc) × Started start ts s v × (out ≡ (ok tt, v)))
      ⊎ ((before : List Task) × (t : Task) × (after : List Task) × (u v : Svc) × (e : Err) × (ts
            ≡ before ++ t ∷ after)
          × Started start before s u
          × (start t.id u ≡ (err e, v))
          × (out ≡ (err e, (stop_job_tasks env all v).1)))
