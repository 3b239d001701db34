-- ===== src/Manager/Results/Follow.antt =====
-- What follows in a job when a task of it has ended: startJobDependentTasks of manager/service.go and the
-- decision before it, where no call fails.
use propeller.Prelude.{
  ℕ, suc, ◌≡◌, ◌≢◌, ◌⊎◌, refl, ◌∙◌, ap, String, Bool, true, false, none, some, List, [], ◌∷◌,
  str_eq, eq_iff, contains, contains→Elem, Elem→contains, if◌then◌else◌, Bool-cases, Option-cases,
  inl, inr, Elem, All, arith,
}
use propeller.Task.{State, pending, completed, failed, skipped, Task, is_terminal}
use propeller.Outcome.{ok}
use propeller.Storage
use propeller.Manager.State.{Env, Svc, Action, pure, ignore, asked, external}
use propeller.Manager.Repos.{task_get}
use propeller.Manager.Start.Effect.{calm}
use propeller.Manager.Stop.{stop_job_tasks}
use propeller.Manager.Results.{
  is_pending, failed_state, is_over, all_over, has_failed, all_dependencies_complete,
  start_dependent, start_job_dependent_tasks, follow_up,
}

-- A dependency is stored and has ended.
abbrev pub Over : Svc → String → Type 0
Over s d =
    (d ≢ "")
    × ((dep : Task) × (Storage.lookup s.tasks d ≡ some dep) × (is_terminal dep.state ≡ true))

-- The same but for the number of questions to the world.
abbrev pub later : ℕ → Svc → Svc
later n s = record s { calls = n }

-- The tasks of a job, one after the other, when the task with an id has ended: a task that is
-- pending and depends on it is started if all of its dependencies have ended by then, whatever comes
-- of the start; no other task is.
pub data Advanced (start : String → Action (Unit {0})) (id : String)
    : List Task → Svc → Svc → Type 0 where
  no_more : {s : Svc} → Advanced start id [] s s
  started :
      {t : Task} {ts : List Task} {s v : Svc} (n : ℕ)
      → t.state ≡ pending
      → Elem id t.depends_on
      → All (Over s) t.depends_on
      → Advanced start id ts (start t.id (later n s)).1 v
      → Advanced start id (t ∷ ts) s v
  passed :
      {t : Task} {ts : List Task} {s v : Svc} (n : ℕ)
      → ((t.state ≢ pending) ⊎ ((¬ Elem id t.depends_on) ⊎ (¬ All (Over s) t.depends_on)))
      → Advanced start id ts (later n s) v
      → Advanced start id (t ∷ ts) s v

task_get-calm :
    (env : Env) (d : String) (s : Svc) → task_get (calm env) d s ≡ (Storage.get d s.tasks, asked s)
unfolding task_get external
task_get-calm env d s = refl

pending_is : is_pending pending ≡ true
unfolding is_pending
pending_is = refl

is_pending-≡ : (st : State) → is_pending st ≡ true → st ≡ pending
unfolding is_pending
is_pending-≡ pending e = refl
is_pending-≡ st e = absurd (ground arith)

module _ (env : Env) (start on_completion : String → Action (Unit {0})) where
  -- What the check of the dependencies tells.
  abbrev Told : List String → Svc → Type 0
  Told ds s =
      (n : ℕ) × (((all_dependencies_complete (calm env) start on_completion ds s
            ≡ (ok true, later n s))
          × All (Over s) ds)
        ⊎ ((all_dependencies_complete (calm env) start on_completion ds s ≡ (ok false, later n s))
            × (¬ All (Over s) ds)))

  missing : (d : String) (ds : List String) (s : Svc) → str_eq d "" ≡ true → Told (d ∷ ds) s
  unfolding all_dependencies_complete task_get external Storage.get
  missing d ds s e =
      (suc s.calls, inr (rw (all_dependencies_complete, e) refl, λ h. h.0.0 ((eq_iff d "").0 e)))

  unknown :
      (d : String) (ds : List String) (s : Svc)
      → str_eq d "" ≡ false
      → Storage.lookup s.tasks d ≡ none
      → Told (d ∷ ds) s
  unfolding all_dependencies_complete task_get external Storage.get
  unknown d ds s e q = (
    suc s.calls,
    inr (
      rw (all_dependencies_complete, e, q) refl,
      λ h. (let p = h.0.1.1 in absurd (ground arith)),
    ),
  )

  unfinished :
      (d : String) (ds : List String) (s : Svc) (dep : Task)
      → str_eq d "" ≡ false
      → Storage.lookup s.tasks d ≡ some dep
      → is_terminal dep.state ≡ false
      → Told (d ∷ ds) s
  unfolding all_dependencies_complete task_get external Storage.get
  unfinished d ds s dep e q z = (
    suc s.calls,
    inr (
      rw (all_dependencies_complete, e, q, z) refl,
      λ h.
          let same : h.0.1.0 ≡ dep = (let p = h.0.1.1 in cc) in
          let over = h.0.1.2 in
          absurd (let z' = ap (λ (x : Task). is_terminal x.state) same ∙ z in ground arith),
    ),
  )

  finished :
      (d : String) (ds : List String) (s : Svc) (dep : Task)
      → str_eq d "" ≡ false
      → Storage.lookup s.tasks d ≡ some dep
      → is_terminal dep.state ≡ true
      → Told ds (asked s)
      → Told (d ∷ ds) s
  unfolding all_dependencies_complete task_get external Storage.get
  finished d ds s dep e q z (n, inl (h, over)) = (
    n,
    inl (
      rw (all_dependencies_complete, e, q, z) h,
      ((λ same. (let y = (eq_iff d "").1 same in absurd (ground arith)), (dep, q, z)), over),
    ),
  )
  finished d ds s dep e q z (n, inr (h, not_over)) =
      (n, inr (rw (all_dependencies_complete, e, q, z) h, λ over. not_over over.1))

  told : (ds : List String) (s : Svc) → Told ds s
  unfolding all_dependencies_complete
  told [] s = (s.calls, inl (refl, tt))
  told (d ∷ ds) s = elim (Bool-cases (str_eq d "")) [
    | inl e ↦ missing d ds s e
    | inr e ↦ elim (Option-cases (Storage.lookup s.tasks d)) [
      | inl q ↦ unknown d ds s e q
      | inr (dep, q) ↦ elim (Bool-cases (is_terminal dep.state)) [
        | inl z ↦ finished d ds s dep e q z (told ds (asked s))
        | inr z ↦ unfinished d ds s dep e q z
      ]
    ]
  ]

  idle :
      (id : String) (t : Task) (s : Svc)
      → is_pending t.state ≡ false
      → start_dependent (calm env) start on_completion id t s ≡ (ok tt, s)
  unfolding start_dependent
  idle id t s n = rw (start_dependent, n) refl

  unrelated :
      (id : String) (t : Task) (s : Svc)
      → is_pending t.state ≡ true
      → contains t.depends_on id ≡ false
      → start_dependent (calm env) start on_completion id t s ≡ (ok tt, s)
  unfolding start_dependent
  unrelated id t s p n = rw (start_dependent, p, n) refl

  checked :
      (id : String) (t : Task) (s : Svc) (b : Bool) (n : ℕ)
      → is_pending t.state ≡ true
      → contains t.depends_on id ≡ true
      → all_dependencies_complete (calm env) start on_completion t.depends_on s ≡ (ok b, later n s)
      → start_dependent (calm env) start on_completion id t s
        ≡ (if b then ignore (start t.id) else pure tt) (later n s)
  unfolding start_dependent
  checked id t s b n p m h = rw (start_dependent, p, m, h) refl

  -- One task, and then the rest.
  step :
      (id : String) (t : Task) (ts : List Task) (s : Svc)
      → ((u : Svc)
          → Advanced start id ts u
              (start_job_dependent_tasks (calm env) start on_completion id ts u).1)
      → Advanced start id
          (t ∷ ts)
          s
          (start_job_dependent_tasks (calm env) start on_completion id (t ∷ ts) s).1
  unfolding start_job_dependent_tasks
  step id t ts s rest = elim (Bool-cases (is_pending t.state)) [
    | inr n ↦
        rw (start_job_dependent_tasks, idle id t s n)
          (passed s.calls
            (inl (λ e. absurd (let y = ap is_pending e in let z = pending_is in ground arith)))
            (rest s))
    | inl p ↦ elim (Bool-cases (contains t.depends_on id)) [
      | inr n ↦
          rw (start_job_dependent_tasks, unrelated id t s p n)
            (passed s.calls
              (inr (inl (λ m. absurd (let y = Elem→contains t.depends_on id m in ground arith))))
              (rest s))
      | inl m ↦ by_dependencies p m (told t.depends_on s)
    ]
  ]
    where
      by_dependencies :
          is_pending t.state ≡ true
          → contains t.depends_on id ≡ true
          → Told t.depends_on s
          → Advanced start id
              (t ∷ ts)
              s
              (start_job_dependent_tasks (calm env) start on_completion id (t ∷ ts) s).1
      by_dependencies p m (n, inl (h, over)) =
          rw (start_job_dependent_tasks, checked id t s true n p m h)
            (started n (is_pending-≡ t.state p) (contains→Elem t.depends_on id m) over (rest _))
      by_dependencies p m (n, inr (h, not_over)) =
          rw (start_job_dependent_tasks, checked id t s false n p m h)
            (passed n (inr (inr not_over)) (rest _))

  pub advanced :
      (id : String) (ts : List Task) (s : Svc)
      → Advanced start id ts s (start_job_dependent_tasks (calm env) start on_completion id ts s).1
  unfolding start_job_dependent_tasks
  advanced id [] s = no_more
  advanced id (t ∷ ts) s = step id t ts s (λ u. advanced id ts u)

-- A task has Completed or was Skipped.
abbrev pub IsOver : Task → Type 0
IsOver t = (t.state ≡ completed) ⊎ (t.state ≡ skipped)

abbrev pub SomeFailed : List Task → Type 0
SomeFailed ts = (t : Task) × Elem t ts × (t.state ≡ failed)

is_over-IsOver : (t : Task) (st : State) → t.state ≡ st → is_over st ≡ true → IsOver t
unfolding is_over
is_over-IsOver t completed q e = inl q
is_over-IsOver t skipped q e = inr q
is_over-IsOver t st q e = absurd (ground arith)

IsOver-is_over : (t : Task) → IsOver t → is_over t.state ≡ true
unfolding is_over
IsOver-is_over t (inl q) = ap is_over q
IsOver-is_over t (inr q) = ap is_over q

all_over-All : (ts : List Task) → all_over ts ≡ true → All IsOver ts
unfolding all_over
all_over-All [] e = tt
all_over-All (t ∷ ts) e =
    (is_over-IsOver t t.state refl (ground arith), all_over-All ts (ground arith))

All-all_over : (ts : List Task) → All IsOver ts → all_over ts ≡ true
unfolding all_over
All-all_over [] h = refl
All-all_over (t ∷ ts) h =
    let a = IsOver-is_over t h.0 in let b = All-all_over ts h.1 in ground arith

failed_state-≡ : (st : State) → failed_state st ≡ true → st ≡ failed
unfolding failed_state
failed_state-≡ failed e = refl
failed_state-≡ st e = absurd (ground arith)

failed_is : failed_state failed ≡ true
unfolding failed_state
failed_is = refl

not_failed : (st : State) → failed_state st ≡ false → st ≢ failed
not_failed st e q = let y = ap failed_state q in let z = failed_is in absurd (ground arith)

has_failed-SomeFailed : (ts : List Task) → has_failed ts ≡ true → SomeFailed ts
unfolding has_failed
has_failed-SomeFailed [] e = absurd (ground arith)
has_failed-SomeFailed (t ∷ ts) e = elim (Bool-cases (failed_state t.state)) [
  | inl y ↦ (t, inl refl, failed_state-≡ t.state y)
  | inr n ↦ let (u, m, q) = has_failed-SomeFailed ts (rw (has_failed, n) at e) in (u, inr m, q)
]

SomeFailed-has_failed :
    (ts : List Task) (t : Task) → Elem t ts → t.state ≡ failed → has_failed ts ≡ true
unfolding has_failed
SomeFailed-has_failed [] t m q = absurd m
SomeFailed-has_failed (u ∷ ts) t (inl e) q =
    let y = ap (λ (x : Task). failed_state x.state) e ∙ ap failed_state q ∙ failed_is in
    ground arith
SomeFailed-has_failed (u ∷ ts) t (inr m) q = let r = SomeFailed-has_failed ts t m q in ground arith

-- What becomes of the other tasks of a job, all of which are given, when a task of it is done: if it
-- failed, those that are active are stopped. Otherwise nothing is done where all have completed or were skipped, or
-- one has failed; and else the job goes on with the tasks that depend on it.
abbrev pub Followed : Env → (String → Action (Unit {0})) → Task → List Task → Svc → Svc → Type 0
Followed env start done ts s s' =
    ((done.state ≡ failed) × (s' ≡ (stop_job_tasks (calm env) ts s).1))
    ⊎ (((done.state ≢ failed) × (All IsOver ts ⊎ SomeFailed ts) × (s' ≡ s))
        ⊎ ((done.state ≢ failed)
            × (¬ All IsOver ts)
            × (¬ SomeFailed ts)
            × Advanced start done.id ts s s'))

module _ (env : Env) (start on_completion : String → Action (Unit {0})) where
  pub followed :
      (done : Task) (ts : List Task) (s : Svc)
      → Followed env start done ts s (follow_up (calm env) start on_completion done (ok ts) s).1
  unfolding follow_up
  followed done ts s = elim (Bool-cases (failed_state done.state)) [
    | inl y ↦ rw (follow_up, y) (inl (failed_state-≡ done.state y, refl))
    | inr n ↦
        let no = not_failed done.state n in
        elim (Bool-cases (all_over ts)) [
          | inl a ↦ rw (follow_up, n, a) (inr (inl (no, inl (all_over-All ts a), refl)))
          | inr b ↦ elim (Bool-cases (has_failed ts)) [
            | inl f ↦
                rw (follow_up, n, b, f) (inr (inl (no, inr (has_failed-SomeFailed ts f), refl)))
            | inr g ↦
                rw (follow_up, n, b, g)
                  (inr (
                    inr (
                      no,
                      λ h. (let y = All-all_over ts h in absurd (ground arith)),
                      λ (t, m, q).
                          (let y = SomeFailed-has_failed ts t m q in absurd (ground arith)),
                      advanced env start on_completion done.id ts s,
                    )))
          ]
        ]
  ]
