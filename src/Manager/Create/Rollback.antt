-- ===== src/Manager/Create/Rollback.antt =====
-- The creation of a workflow is all or nothing.
use propeller.Prelude.{
  ℕ, ◌≡◌, ◌≢◌, refl, sym, ◌∙◌, ap, inl, inr, String, true, false, Option, none, List, [], ◌∷◌, ◌++◌,
  arith, str_eq, eq_iff, if◌then◌else◌, Bool-cases, Option-cases, All, subst, contains,
}
use propeller.Task.{Task}
use propeller.Errors.{Err}
use propeller.Outcome.{Result, ok, err}
use propeller.Storage
use propeller.Storage.Laws.{lookup-put, lookup-remove}
use propeller.Dag.Exist.{ids}
use propeller.Manager.State.{Env, creating, deleting, Svc, Action, and_then, ◌>>◌, throw, external}
use propeller.Manager.Frame.{Keeps}
use propeller.Manager.Repos.{task_create, task_delete}
use propeller.Manager.Create.{rollback, create_all}

abbrev pub tasks_of : Svc → List (String × Task)
tasks_of s = s.tasks

-- Deletions do not fail.
abbrev pub DeletesWork : Env → Type 0
DeletesWork env = (n : ℕ) → env.fault deleting n ≡ none

module _ (env : Env) where
  -- What a creation that succeeds has done.
  task_create-eq-ok :
      (t : Task) (s s' : Svc) {u : Unit {0}}
      → task_create env t s ≡ (ok u, s')
      → (t.id ≢ "") × (Storage.lookup s.tasks t.id ≡ none) × (s'.tasks ≡ Storage.put t.id t s.tasks)
  unfolding task_create external Storage.create
  task_create-eq-ok t s s' h = elim (Option-cases (env.fault creating s.calls)) [
    | inr (n, e) ↦ (let k = rw e at h in absurd (ground arith))
    | inl e ↦ elim (Bool-cases (str_eq t.id "")) [
      | inl b ↦ (let k = rw (e, b) at h in absurd (ground arith))
      | inr b ↦ elim (Option-cases (Storage.lookup s.tasks t.id)) [
        | inr (w, l) ↦ (let k = rw (e, b, l) at h in absurd (ground arith))
        | inl l ↦ (
          λ q. (let z = (eq_iff t.id "").1 q in absurd (ground arith)),
          l,
          (let k = rw (e, b, l) at h in sym (ap (λ (r : Result (Unit {0}) × Svc). r.1.tasks) k)),
        )
      ]
    ]
  ]

  task_create-err :
      (t : Task) (s s' : Svc) (e : Err) → task_create env t s ≡ (err e, s') → s'.tasks ≡ s.tasks
  unfolding task_create external Storage.create
  task_create-err t s s' e h = ground arith

  -- With deletions that do not fail, the task is gone and all others are as before.
  lookup-task_delete :
      DeletesWork env
      → (id : String) (s : Svc) (j : String) → id ≢ ""
      → Storage.lookup (task_delete env id s).1.tasks j
        ≡ (if str_eq id j then none else Storage.lookup s.tasks j)
  unfolding task_delete external Storage.delete
  lookup-task_delete works id s j named = elim (Bool-cases (str_eq id "")) [
    | inl b ↦ absurd (named ((eq_iff id "").0 b))
    | inr b ↦ rw (works s.calls, b) (lookup-remove id j s.tasks)
  ]

  rollback-eq-ok : (ts : List Task) (s : Svc) → rollback env ts s ≡ (ok tt, (rollback env ts s).1)
  unfolding rollback
  rollback-eq-ok [] s = refl
  rollback-eq-ok (t ∷ ts) s = rollback-eq-ok ts (task_delete env t.id s).1

  lookup-rollback :
      DeletesWork env
      → (ts : List Task) (s : Svc) (j : String) → All (λ (t : Task). t.id ≢ "") ts
      → Storage.lookup (rollback env ts s).1.tasks j
        ≡ (if contains (ids ts) j then none else Storage.lookup s.tasks j)
  unfolding rollback contains
  lookup-rollback works [] s j h = refl
  lookup-rollback works (t ∷ ts) s j (named, h) =
      let step = lookup-task_delete works t.id s j named in
      let rest = lookup-rollback works ts (task_delete env t.id s).1 j h in
      ground (arith, step, rest)

contains-append :
    (ts : List Task) (t : Task) (j : String)
    → contains (ids (ts ++ t ∷ [])) j ≡ (if contains (ids ts) j then true else str_eq t.id j)
unfolding contains
contains-append [] t j = ground arith
contains-append (u ∷ ts) t j = ground (arith, contains-append ts t j)

abbrev Named : List Task → Type 0
Named = All (λ t. t.id ≢ "")

Named-append : (ts : List Task) (t : Task) → Named ts → t.id ≢ "" → Named (ts ++ t ∷ [])
Named-append [] t h n = (n, tt)
Named-append (u ∷ ts) t h n = (h.0, Named-append ts t h.1 n)

module _ (env : Env) (works : DeletesWork env) (base : String → Option Task) where
  -- The tasks created so far were not there before, and all else reads as before.
  pub record Inv (created : List Task) (tasks : List (String × Task)) : Type 0 where
    pub named : Named created
    pub fresh : (j : String) → contains (ids created) j ≡ true → base j ≡ none
    pub rest : (j : String) → contains (ids created) j ≡ false → Storage.lookup tasks j ≡ base j

  base-none :
      (created : List Task) (tasks : List (String × Task)) (j : String)
      → Inv created tasks
      → Storage.lookup tasks j ≡ none
      → base j ≡ none
  base-none created tasks j inv free = elim (Bool-cases (contains (ids created) j)) [
    | inl c ↦ inv.fresh j c
    | inr c ↦ sym (inv.rest j c) ∙ free
  ]

  Inv-create :
      (t : Task) (created : List Task) (s s' : Svc) {u : Unit {0}}
      → Inv created s.tasks
      → task_create env t s ≡ (ok u, s')
      → Inv (created ++ t ∷ []) s'.tasks
  Inv-create t created s s' inv h =
      let (named, free, made) = task_create-eq-ok env t s s' h in
      let free_base = base-none created s.tasks t.id inv free in
      record {
        named = Named-append created t inv.named named;
        fresh = λ j c. elim (Bool-cases (contains (ids created) j)) [
          | inl old ↦ inv.fresh j old
          | inr new ↦
              let same = (eq_iff t.id j).0 (let k = contains-append created t j in ground arith) in
              subst (λ i. base i ≡ none) same free_base
        ];
        rest = λ j c.
            let k = contains-append created t j in
            let old = inv.rest j (ground arith) in
            let put = lookup-put t.id j t s.tasks in
            ap (λ (l : List (String × Task)). Storage.lookup l j) made ∙ put ∙ ground arith;
      }

  undone :
      (created : List Task) (s : Svc) (j : String)
      → Inv created s.tasks
      → Storage.lookup (rollback env created s).1.tasks j ≡ base j
  undone created s j inv =
      lookup-rollback env works created s j inv.named
      ∙ elim (Bool-cases (contains (ids created) j)) [
        | inl c ↦ rw c (sym (inv.fresh j c))
        | inr c ↦ rw c (inv.rest j c)
      ]

  module _ (undo : Action (Unit {0})) (keeps : Keeps tasks_of undo) where
    after_undo :
        (r : Result (Unit {0}) × Svc) (tasks : List (String × Task)) (x e : Err) (s' : Svc)
        → r.1.tasks ≡ tasks
        → and_then r (λ u. throw {A = List Task} x) ≡ (err e, s')
        → s'.tasks ≡ tasks
    after_undo (ok u, s) tasks x e s' k h =
        ap (λ (r : Result (List Task) × Svc). r.1.tasks) (sym h) ∙ k
    after_undo (err y, s) tasks x e s' k h =
        ap (λ (r : Result (List Task) × Svc). r.1.tasks) (sym h) ∙ k

    after_rollback :
        (r : Result (Unit {0}) × Svc) (x e : Err) (s' : Svc)
        → r ≡ (ok tt, r.1)
        → and_then r (λ u. undo >> throw {A = List Task} x) ≡ (err e, s')
        → s'.tasks ≡ r.1.tasks
    after_rollback (ok u, s) x e s' q h = after_undo (undo s) s.tasks x e s' (keeps s) h
    after_rollback (err y, s) x e s' q h = cc

    -- The end of a failed creation: the roll-back, what else is to undo, and the error.
    failed_lookup :
        (created : List Task) (s s' : Svc) (x e : Err) (j : String)
        → Inv created s.tasks
        → (rollback env created >> (undo >> throw {A = List Task} x)) s ≡ (err e, s')
        → Storage.lookup s'.tasks j ≡ base j
    failed_lookup created s s' x e j inv h =
        ap (λ (l : List (String × Task)). Storage.lookup l j)
          (after_rollback (rollback env created s) x e s' (rollback-eq-ok env created s) h)
        ∙ undone created s j inv

    pub create_all-lookup :
        (ts created : List Task) (s s' : Svc) (e : Err) (j : String)
        → Inv created s.tasks
        → create_all env undo created ts s ≡ (err e, s')
        → Storage.lookup s'.tasks j ≡ base j
    unfolding create_all
    create_all-lookup [] created s s' e j inv h = cc
    create_all-lookup (t ∷ ts) created s s' e j inv h =
        go (task_create env t s) refl
          (λ s1 inv1 h1. create_all-lookup ts (created ++ t ∷ []) s1 s' e j inv1 h1)
      where
        go :
            (r : Result (Unit {0}) × Svc)
            → task_create env t s ≡ r
            → ((s1 : Svc)
                → Inv (created ++ t ∷ []) s1.tasks
                → create_all env undo (created ++ t ∷ []) ts s1 ≡ (err e, s')
                → Storage.lookup s'.tasks j ≡ base j)
            → Storage.lookup s'.tasks j ≡ base j
        go (ok u, s1) q next = next s1 (Inv-create t created s s1 inv q) (rw q at h)
        go (err x, s1) q next =
            failed_lookup created s1 s' x e j
              (subst (Inv created) (sym (task_create-err env t s s1 x q)) inv) (rw q at h)
