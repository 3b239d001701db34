-- ===== src/Manager/Shutdown/Settled.antt =====
-- After the shutdown of manager/service.go no task is left active.
use propeller.Prelude.{
  ℕ, suc, ◌+◌, ◌<◌, ◌≡◌, ◌⊎◌, refl, String, true, false, Option, none, some, List, [], ◌∷◌, str_eq,
  Bool-cases, Option-cases, inl, inr, length,
}
use propeller.Task.{Task}
use propeller.Outcome.{Result, ok, err}
use propeller.Storage
use propeller.Storage.{word_mod}
use propeller.Storage.Sorted.{lookup-Elem}
use propeller.Manager.State.{Env, Svc, Action, external, now, asked, and_then}
use propeller.Manager.Frame.{Keeps, Keeps-bind, Keeps-if}
use propeller.Manager.Repos.{task_update, pin_get, publish}
use propeller.Manager.Workflow.{is_active}
use propeller.Manager.Start.Effect.{calm}
use propeller.Manager.Listing.Whole.{list_all_tasks_lem}
use propeller.Manager.Stop.{interrupt, interrupt_all}
use propeller.Manager.Shutdown.Covered.{
  IsKeyed, Covered, stopped, put-IsKeyed, put-Covered, same-Covered,
}
use propeller.Manager.Shutdown.{
  tell_stop, signal_stop, signal_all, signal_stop_to_active_tasks, interrupt_running_tasks,
  close_door, shutdown,
}

abbrev tasks_of : Svc → List (String × Task)
tasks_of s = s.tasks

module _ (env : Env) where
  interrupt_update :
      (time : ℕ) (t old : Task) (s : Svc)
      → str_eq t.id "" ≡ false
      → Storage.lookup s.tasks t.id ≡ some old
      → is_active t.state ≡ true
      → (interrupt (calm env) time t s).1.tasks ≡ Storage.put t.id (stopped time t) s.tasks
  unfolding interrupt task_update external Storage.update
  interrupt_update time t old s n e a = rw a (rw (n, e) refl)

  interrupt_same :
      (time : ℕ) (t : Task) (s : Svc)
      → (is_active t.state ≡ false) ⊎ (str_eq t.id "" ≡ true) ⊎ (Storage.lookup s.tasks t.id ≡ none)
      → (interrupt (calm env) time t s).1.tasks ≡ s.tasks
  unfolding interrupt task_update external Storage.update
  interrupt_same time t s (inl a) = rw a refl
  interrupt_same time t s (inr (inl e)) = elim (Bool-cases (is_active t.state)) [
    | inl a ↦ rw a (rw e refl)
    | inr a ↦ rw a refl
  ]
  interrupt_same time t s (inr (inr e)) = elim (Bool-cases (is_active t.state)) [
    | inl a ↦
        rw a (elim (Bool-cases (str_eq t.id "")) [ inl n ↦ rw n refl | inr n ↦ rw (n, e) refl ])
    | inr a ↦ rw a refl
  ]

  interrupt_ok : (time : ℕ) (t : Task) (s : Svc) → (interrupt (calm env) time t s).0 ≡ ok tt
  unfolding interrupt
  interrupt_ok time t s = elim (Bool-cases (is_active t.state)) [
    | inl a ↦ rw a refl
    | inr a ↦ rw a refl
  ]

bind_ok :
    {B : Type 0} (r : Result (Unit {0}) × Svc) (f : Unit {0} → Action B)
    → r.0 ≡ ok tt
    → and_then r f ≡ f tt r.1
bind_ok (ok u, s) f h = refl
bind_ok (err e, s) f h = cc

module _ (env : Env) where
  interrupt_step :
      (time : ℕ) (t : Task) (ts : List Task) (s : Svc)
      → IsKeyed s.tasks
      → Covered (t ∷ ts) s.tasks
      → IsKeyed (interrupt (calm env) time t s).1.tasks
        × Covered ts (interrupt (calm env) time t s).1.tasks
  interrupt_step time t ts s k c = elim (Bool-cases (is_active t.state)) [
    | inr a ↦ unchanged (inl a)
    | inl a ↦ elim (Bool-cases (str_eq t.id "")) [
      | inl n ↦ unchanged (inr (inl n))
      | inr n ↦ elim (Option-cases (Storage.lookup s.tasks t.id)) [
        | inl e ↦ unchanged (inr (inr e))
        | inr (old, e) ↦
            rw (interrupt_update env time t old s n e a)
              (put-IsKeyed (stopped time t) s.tasks n k, put-Covered time t ts s.tasks c)
      ]
    ]
  ]
    where
      unchanged :
          (is_active t.state ≡ false)
            ⊎ (str_eq t.id "" ≡ true)
            ⊎ (Storage.lookup s.tasks t.id ≡ none)
          → IsKeyed (interrupt (calm env) time t s).1.tasks
            × Covered ts (interrupt (calm env) time t s).1.tasks
      unchanged why = rw (interrupt_same env time t s why) (k, same-Covered t ts s.tasks k why c)

  interrupt_all_lem :
      (time : ℕ) (ts : List Task) (s : Svc)
      → IsKeyed s.tasks
      → Covered ts s.tasks
      → Covered [] (interrupt_all (calm env) time ts s).1.tasks
  unfolding interrupt_all
  interrupt_all_lem time [] s k c = c
  interrupt_all_lem time (t ∷ ts) s k c =
      let (k', c') = interrupt_step time t ts s k c in
      rw
        (bind_ok (interrupt (calm env) time t s) (λ u. interrupt_all (calm env) time ts)
          (interrupt_ok env time t s))
        (interrupt_all_lem time ts (interrupt (calm env) time t s).1 k' c')

  -- An action of the signals leaves the tasks and the flag of the shutdown as they are.
  abbrev Quiet : Action (Unit {0}) → Type 0
  Quiet m = Keeps tasks_of m × Keeps (λ s. s.shutting_down) m

  tell_stop-Quiet : (t : Task) (o : Option String) → Quiet (tell_stop (calm env) t o)
  unfolding tell_stop publish external
  tell_stop-Quiet t none = (λ s. refl, λ s. refl)
  tell_stop-Quiet t (some id) = (λ s. refl, λ s. refl)

  signal_stop-Quiet : (t : Task) → Quiet (signal_stop (calm env) t)
  unfolding signal_stop pin_get external
  signal_stop-Quiet t = (
    Keeps-if tasks_of (is_active t.state) _ _ (λ s. (tell_stop-Quiet t _).0 (asked s)) (λ s. refl),
    Keeps-if (λ s. s.shutting_down) (is_active t.state) _ _ (λ s. (tell_stop-Quiet t _).1 (asked s))
        (λ s. refl),
  )

  signal_all-Quiet : (ts : List Task) → Quiet (signal_all (calm env) ts)
  unfolding signal_all
  signal_all-Quiet [] = (λ s. refl, λ s. refl)
  signal_all-Quiet (t ∷ ts) =
      let (a, b) = signal_stop-Quiet t in
      let (c, d) = signal_all-Quiet ts in
      (
        Keeps-bind tasks_of (signal_stop (calm env) t) (λ u. signal_all (calm env) ts) a (λ u. c),
        Keeps-bind (λ s. s.shutting_down) (signal_stop (calm env) t) (λ u. signal_all (calm env) ts)
            b (λ u. d),
      )

  signalled-Quiet :
      (s : Svc)
      → length s.tasks + 100 < word_mod
      → ((signal_stop_to_active_tasks (calm env) s).1.tasks ≡ s.tasks)
        × ((signal_stop_to_active_tasks (calm env) s).1.shutting_down ≡ s.shutting_down)
  unfolding signal_stop_to_active_tasks
  signalled-Quiet s fits =
      let (n, listed) = list_all_tasks_lem env s fits in
      let (a, b) = signal_all-Quiet (Storage.sorted_values s.tasks) in
      rw (listed, signal_stop_to_active_tasks)
        (a (record s { calls = n }), b (record s { calls = n }))

  interrupted_lem :
      (s : Svc)
      → length s.tasks + 100 < word_mod
      → IsKeyed s.tasks
      → Covered [] (interrupt_running_tasks (calm env) s).1.tasks
  unfolding interrupt_running_tasks now
  interrupted_lem s fits k =
      let (n, listed) = list_all_tasks_lem env s fits in
      rw (listed, interrupt_running_tasks)
        (interrupt_all_lem (env.clock n) (Storage.sorted_values s.tasks)
          (record s { calls = suc n }) k
          (λ id t e a. (t, lookup-Elem s.tasks id t e, k.keyed id t e, a)))

  -- Where no call fails, the shutdown succeeds and leaves no stored task running or scheduled.
  pub shutdown_lem :
      (s : Svc) (id : String) (t : Task)
      → length s.tasks + 100 < word_mod
      → IsKeyed s.tasks
      → Storage.lookup (shutdown (calm env) s).1.tasks id ≡ some t
      → ((shutdown (calm env) s).0 ≡ ok tt) × (is_active t.state ≡ false)
  unfolding shutdown close_door
  shutdown_lem s id t fits k e =
      let closed = record s { shutting_down = true } in
      let told = (signal_stop_to_active_tasks (calm env) closed).1 in
      let same = (signalled-Quiet closed fits).0 in
      let all_in = interrupted_lem told (rw same fits) (rw same k) in
      (
        refl,
        elim (Bool-cases (is_active t.state)) [ inl a ↦ absurd (all_in id t e a).1 | inr a ↦ a ],
      )
