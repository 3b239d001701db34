-- ===== src/Manager/Results/Unfailing.antt =====
-- What comes after the update of a task in the handler of results (manager/service.go) returns no error.
use propeller.Prelude.{String, true, false, List, [], ◌∷◌, contains, if◌then◌else◌}
use propeller.Task.{Task, is_terminal}
use propeller.Outcome.{Result, ok, err}
use propeller.Manager.State.{Env, Action, pure, try}
use propeller.Manager.Repos.{task_get}
use propeller.Manager.Succeeds.{
  Succeeds, Succeeds-bind, Succeeds-if, pure-Succeeds, ignore-Succeeds, try-Succeeds,
  stop_job_tasks-Succeeds,
}
use propeller.Manager.Results.{
  is_pending, failed_state, all_over, has_failed, all_dependencies_complete, start_dependent,
  start_job_dependent_tasks, follow_up,
}

module _ (env : Env) (start on_completion : String → Action (Unit {0})) where
  all_dependencies_complete-Succeeds :
      (ds : List String) → Succeeds (all_dependencies_complete env start on_completion ds)
  unfolding all_dependencies_complete
  all_dependencies_complete-Succeeds [] = pure-Succeeds true
  all_dependencies_complete-Succeeds (d ∷ ds) =
      Succeeds-bind (try (task_get env d)) _ (try-Succeeds _)
        (read (all_dependencies_complete-Succeeds ds))
    where
      read :
          Succeeds (all_dependencies_complete env start on_completion ds)
          → (r : Result Task)
          → Succeeds (elim r [
            | err e ↦ pure false
            | ok dep ↦
                if is_terminal dep.state
                then all_dependencies_complete env start on_completion ds
                else pure false
          ])
      read rest (err e) = pure-Succeeds false
      read rest (ok dep) = Succeeds-if (is_terminal dep.state) _ _ rest (pure-Succeeds false)

  start_dependent-Succeeds :
      (id : String) (t : Task) → Succeeds (start_dependent env start on_completion id t)
  unfolding start_dependent
  start_dependent-Succeeds id t =
      Succeeds-if (is_pending t.state) _ _
        (Succeeds-if (contains t.depends_on id) _ _
          (Succeeds-bind (all_dependencies_complete env start on_completion t.depends_on) _
            (all_dependencies_complete-Succeeds t.depends_on)
            (λ b. Succeeds-if b _ _ (ignore-Succeeds (start t.id)) (pure-Succeeds tt)))
          (pure-Succeeds tt))
        (pure-Succeeds tt)

  start_job_dependent_tasks-Succeeds :
      (id : String) (ts : List Task)
      → Succeeds (start_job_dependent_tasks env start on_completion id ts)
  unfolding start_job_dependent_tasks
  start_job_dependent_tasks-Succeeds id [] = pure-Succeeds tt
  start_job_dependent_tasks-Succeeds id (t ∷ ts) =
      Succeeds-bind (start_dependent env start on_completion id t) _ (start_dependent-Succeeds id t)
        (λ _. start_job_dependent_tasks-Succeeds id ts)

  pub follow_up-Succeeds :
      (t : Task) (r : Result (List Task)) → Succeeds (follow_up env start on_completion t r)
  unfolding follow_up
  follow_up-Succeeds t (err e) = pure-Succeeds tt
  follow_up-Succeeds t (ok ts) =
      Succeeds-if (failed_state t.state) _ _ (stop_job_tasks-Succeeds env ts) (
        Succeeds-if (all_over ts) _ _ (pure-Succeeds tt) (
          Succeeds-if (has_failed ts) _ _ (pure-Succeeds tt)
            (start_job_dependent_tasks-Succeeds t.id ts)))
