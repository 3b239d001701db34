-- ===== src/Manager/Invoke/Broadcast/Whole.antt =====
-- InvokeTask of manager/service.go for a task that runs on any proplet.
use propeller.Prelude.{
  ℕ, ◌+◌, ◌%◌, ◌≡◌, ◌≢◌, refl, String, Bool, true, false, some, List, ◌∷◌, ◌++◌, Elem, length,
  if◌then◌else◌,
}
use propeller.Task.{Task, Proplet}
use propeller.Errors.{Err, shutting_down}
use propeller.Outcome.{ok}
use propeller.Storage
use propeller.Scheduler.{select_proplet}
use propeller.Scheduler.RoundRobin.{IsFirst, IsFirst-Elem, select_proplet_total}
use propeller.Manager.State.{Env, Svc, Action, asked, throw, pure}
use propeller.Manager.Proplets.{list_all_active_proplets, schedule}
use propeller.Manager.Start.Effect.{calm, not_empty}
use propeller.Manager.Calm.{task_get_stored}
use propeller.Manager.Invoke.Broadcast.{
  ordered_proplets, invoke_rest, invoke_broadcast, invoke_task,
}
use propeller.Manager.Invoke.Broadcast.Candidates.{
  Answered, invoke_rest-Answered, ordered_proplets_lem,
}

module _ (env : Env) (not_precompiled : Err → Bool) (on : Task → String → Action String) where
  let_through :
      (b : Bool) (e : Err)
      → b ≡ false
      → (s : Svc) → (if b then throw {A = Unit {0}} e else pure tt) s ≡ (ok tt, s)
  let_through b e q s = rw q refl

  to_candidates :
      (t : Task) (ps : List Proplet) (first : Proplet) (last : ℕ) (s u : Svc)
      → s.shutting_down ≡ false
      → t.id ≢ ""
      → Storage.lookup s.tasks t.id ≡ some t
      → t.latent ≡ true
      → t.broadcast ≡ true
      → list_all_active_proplets (calm env) (asked s) ≡ (ok ps, u)
      → select_proplet u.last_proplet ps ≡ (ok first, last)
      → invoke_task (calm env) not_precompiled on t.id s
        ≡ invoke_rest
            (calm env)
            not_precompiled
            on
            t
            (ordered_proplets ps first.id)
            (ordered_proplets ps first.id)
            (record u { last_proplet = last })
  unfolding invoke_task invoke_broadcast schedule
  to_candidates t ps first last s u up named known latent wide listed chosen =
      rw (let_through s.shutting_down shutting_down up s, invoke_task)
        (rw (task_get_stored env t t.id s (not_empty t.id named) known)
          (rw (latent, wide, listed, chosen) refl))

  -- Where no call to a repository or to the broker fails, the service is not shutting down, the task is
  -- stored and is latent and for any proplet, and one of the active proplets counts as alive:
  -- the active proplets are asked in their order, from the one with the id of the first alive one
  -- after the scheduler's cursor on and around the end, until one answers with results or with an error
  -- other than a missing module; if none does, the task is sent to all of them again, and the last
  -- error is returned.
  pub invoke_task_broadcast :
      (t : Task) (ps : List Proplet) (p : Proplet) (s u : Svc)
      → s.shutting_down ≡ false
      → t.id ≢ ""
      → Storage.lookup s.tasks t.id ≡ some t
      → t.latent ≡ true
      → t.broadcast ≡ true
      → list_all_active_proplets (calm env) (asked s) ≡ (ok ps, u)
      → Elem p ps
      → p.alive ≡ true
      → (c first : Proplet) × (rest before : List Proplet) × (k : ℕ) × (before ++ c ∷ rest ≡ ps)
        × (c.id ≡ first.id)
        × IsFirst ps u.last_proplet k first
        × Answered
            (calm env)
            not_precompiled
            on
            t
            (c ∷ rest ++ before)
            (c ∷ rest ++ before)
            (record u { last_proplet = (u.last_proplet + 1 + k) % length ps })
            (invoke_task (calm env) not_precompiled on t.id s)
  invoke_task_broadcast t ps p s u up named known latent wide listed m alive =
      let (first, k, near, chosen, is) = select_proplet_total u.last_proplet ps p m alive in
      let (c, rest, before, cut, same, whole) =
        ordered_proplets_lem first.id ps first (IsFirst-Elem ps u.last_proplet k first is) refl in
      let asked_now =
        to_candidates t ps first ((u.last_proplet + 1 + k) % length ps) s u up named known latent
          wide listed chosen in
      (
        c,
        first,
        rest,
        before,
        k,
        whole,
        same,
        is,
        rw (asked_now, cut)
            (invoke_rest-Answered (calm env) not_precompiled on t (c ∷ rest ++ before) c
              (rest ++ before) (record u { last_proplet = (u.last_proplet + 1 + k) % length ps })),
      )
