-- ===== src/Manager/Proplets/Choice.antt =====
-- The proplet that StartTask chooses for a task (selectPropletWithConstraints of
-- manager/service.go) is alive and meets what the plugins ask for.
use propeller.Prelude.{
  ◌≡◌, ap, true, List, arith, Bool-cases, inl, inr, Elem, Elem-keep, All, keep, length, ◌==◌,
}
use propeller.Task.{Task, Proplet}
use propeller.Outcome.{Result, ok}
use propeller.Scheduler.{select_proplet}
use propeller.Scheduler.Alive.{select_proplet_alive}
use propeller.Manager.State.{Env, Svc, and_then-eq-ok, SelectResponse, new_task_info}
use propeller.Manager.Plugins.{run_on_before_proplet_select, proplet_matches_constraints}
use propeller.Manager.Plugins.Merge.{Agrees, constraints_bind}
use propeller.Manager.Proplets.{
  schedule, choose, list_all_active_proplets, select_proplet_with_constraints,
}

module _ (env : Env) where
  choose_alive :
      (c : SelectResponse) (candidates : List Proplet) (p : Proplet) (s s' : Svc)
      → choose env c candidates s ≡ (ok p, s')
      → Elem p candidates × (p.alive ≡ true)
  unfolding choose schedule
  choose_alive c candidates p s s' h = elim (Bool-cases (length candidates == 0)) [
    | inl e ↦ (let k = rw (e, choose) at h in absurd (ground arith))
    | inr e ↦
        let k = rw (e, choose) at h in
        select_proplet_alive s.last_proplet candidates p
          (select_proplet s.last_proplet candidates).1
          (ap (λ (r : Result Proplet × Svc). (r.0, (select_proplet s.last_proplet candidates).1)) k)
  ]

  -- A proplet that the selection answers with is alive, and meets the constraints.
  select_with_constraints_lem :
      (c : SelectResponse) (p : Proplet) (s s' : Svc)
      → select_proplet_with_constraints env c s ≡ (ok p, s')
      → (proplet_matches_constraints p c ≡ true) × (p.alive ≡ true)
  unfolding select_proplet_with_constraints
  select_with_constraints_lem c p s s' h =
      let (ps, s1, listed, chosen) =
        and_then-eq-ok (list_all_active_proplets env s)
          (λ ps. choose env c (keep (λ q. proplet_matches_constraints q c) ps)) h in
      let (member, alive) = choose_alive c _ p s1 s' chosen in
      ((Elem-keep (λ q. proplet_matches_constraints q c) p ps member).1, alive)

  -- If the plugins' answers come to some constraints, and the selection under them answers with a
  -- proplet, then the proplet is alive, and each plugin has allowed the task and has the tags and
  -- the memory on that proplet that it asked for.
  pub selected_proplet_lem :
      (t : Task) (c : SelectResponse) (p : Proplet) (s s' : Svc)
      → run_on_before_proplet_select env.plugins t ≡ ok c
      → select_proplet_with_constraints env c s ≡ (ok p, s')
      → All (Agrees (new_task_info t) p) env.plugins × (p.alive ≡ true)
  selected_proplet_lem t c p s s' agreed h =
      let (fits, alive) = select_with_constraints_lem c p s s' h in
      (constraints_bind env.plugins t p c agreed fits, alive)
