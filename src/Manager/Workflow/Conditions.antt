-- ===== src/Manager/Workflow/Conditions.antt =====
-- EvaluateConditionalExecution of manager/workflow.go.
use propeller.Prelude.{
  ◌≡◌, ◌↔◌, ◌⊎◌, refl, inl, inr, String, true, Option, none, some, List, [], ◌∷◌, arith, str_eq,
  eq_iff, Bool-cases, Elem, if◌then◌else◌, ap, subst, sym,
}
use propeller.Task.{State, completed, failed, Task}
use propeller.Manager.Workflow.{
  parent_completed, parent_failed, all_completed, any_failed, is_completed, is_failed,
  run_condition, evaluate_conditional_execution,
}

is_completed→ : (s : State) → is_completed s ≡ true → s ≡ completed
unfolding is_completed
is_completed→ completed h = refl
is_completed→ _ h = ground arith

is_failed→ : (s : State) → is_failed s ≡ true → s ≡ failed
unfolding is_failed
is_failed→ failed h = refl
is_failed→ _ h = ground arith

parent_completed_iff : (o : Option State) → (parent_completed o ≡ true) ↔ (o ≡ some completed)
unfolding parent_completed is_completed
parent_completed_iff none = (λ e. cc, λ e. cc)
parent_completed_iff (some s) = (λ e. ap some (is_completed→ s e), λ e. ground arith)

parent_failed_iff : (o : Option State) → (parent_failed o ≡ true) ↔ (o ≡ some failed)
unfolding parent_failed is_failed
parent_failed_iff none = (λ e. cc, λ e. cc)
parent_failed_iff (some s) = (λ e. ap some (is_failed→ s e), λ e. ground arith)

module _ (parents : String → Option State) where
  abbrev AllCompleted : List String → Type 0
  AllCompleted deps = (d : String) → Elem d deps → parents d ≡ some completed

  abbrev AnyFailed : List String → Type 0
  AnyFailed deps = (d : String) × Elem d deps × (parents d ≡ some failed)

  all_completed→ : (deps : List String) → all_completed parents deps ≡ true → AllCompleted deps
  unfolding all_completed
  all_completed→ [] h d m = absurd m
  all_completed→ (x ∷ xs) h d (inl e) =
      subst (λ k. parents k ≡ some completed) e
        ((parent_completed_iff (parents x)).0 (ground arith))
  all_completed→ (x ∷ xs) h d (inr m) = all_completed→ xs (ground arith) d m

  →all_completed : (deps : List String) → AllCompleted deps → all_completed parents deps ≡ true
  unfolding all_completed
  →all_completed [] h = refl
  →all_completed (x ∷ xs) h =
      rw ((parent_completed_iff (parents x)).1 (h x (inl refl)))
        (→all_completed xs (λ d m. h d (inr m)))

  any_failed→ : (deps : List String) → any_failed parents deps ≡ true → AnyFailed deps
  unfolding any_failed
  any_failed→ [] h = cc
  any_failed→ (x ∷ xs) h = elim (Bool-cases (parent_failed (parents x))) [
    | inl e ↦ (x, inl refl, (parent_failed_iff (parents x)).0 e)
    | inr n ↦ let (d, m, e) = any_failed→ xs (ground arith) in (d, inr m, e)
  ]

  →any_failed : (deps : List String) → AnyFailed deps → any_failed parents deps ≡ true
  unfolding any_failed
  →any_failed [] (d, m, e) = absurd m
  →any_failed (x ∷ xs) (d, inl q, e) =
      rw ((parent_failed_iff (parents x)).1 (subst (λ k. parents k ≡ some failed) (sym q) e))
  →any_failed (x ∷ xs) (d, inr m, e) = let r = →any_failed xs (d, m, e) in ground arith

-- When a task is to run, given the last states of its parents.
abbrev pub ShouldRun : Task → (String → Option State) → Type 0
ShouldRun t parents =
    (t.depends_on ≡ [])
    ⊎ (((t.run_if ≡ "") ⊎ (t.run_if ≡ "success")) × AllCompleted parents t.depends_on)
    ⊎ ((t.run_if ≡ "failure") × AnyFailed parents t.depends_on)

module _ (parents : String → Option State) (run_if : String) (deps : List String) where
  abbrev Chosen : Type 0
  Chosen =
      (((run_if ≡ "") ⊎ (run_if ≡ "success")) × AllCompleted parents deps)
      ⊎ ((run_if ≡ "failure") × AnyFailed parents deps)

  abbrev effective_run_if : String
  effective_run_if = if str_eq run_if "" then "success" else run_if

  run_condition→ : run_condition effective_run_if parents deps ≡ true → Chosen
  unfolding run_condition
  run_condition→ h = elim (Bool-cases (str_eq run_if "")) [
    | inl e ↦ inl (inl ((eq_iff run_if "").0 e), all_completed→ parents deps (rw e at h))
    | inr n ↦ elim (Bool-cases (str_eq run_if "success")) [
      | inl e ↦
          inl (inr ((eq_iff run_if "success").0 e), all_completed→ parents deps (rw (n, e) at h))
      | inr n' ↦ elim (Bool-cases (str_eq run_if "failure")) [
        | inl e ↦ inr ((eq_iff run_if "failure").0 e, any_failed→ parents deps (rw (n, n', e) at h))
        | inr n'' ↦ (let k = rw (n, n', n'') at h in absurd (ground arith))
      ]
    ]
  ]

  →run_condition : Chosen → run_condition effective_run_if parents deps ≡ true
  unfolding run_condition
  →run_condition (inl (inl e, c)) = rw e (→all_completed parents deps c)
  →run_condition (inl (inr e, c)) = rw e (→all_completed parents deps c)
  →run_condition (inr (e, f)) = rw e (→any_failed parents deps f)

-- A task is to run exactly when it has no dependency, or is to run on success (the default) and
-- all of its dependencies have completed, or is to run on failure and one of them has failed.
pub evaluate_conditional_execution_iff :
    (t : Task) (parents : String → Option State)
    → (evaluate_conditional_execution t parents ≡ true) ↔ ShouldRun t parents
unfolding evaluate_conditional_execution
evaluate_conditional_execution_iff t parents = go t.depends_on refl
  where
    go :
        (deps : List String)
        → t.depends_on ≡ deps
        → (evaluate_conditional_execution t parents ≡ true) ↔ ShouldRun t parents
    go [] e = (λ h. inl e, λ h. rw e)
    go (d ∷ ds) e = (
      λ h. inr (
          subst (λ deps. Chosen parents t.run_if deps) (sym e)
            (run_condition→ parents t.run_if (d ∷ ds) (rw e at h))),
      λ h. rw e (→run_condition parents t.run_if (d ∷ ds) (rest h)),
    )
      where
        rest : ShouldRun t parents → Chosen parents t.run_if (d ∷ ds)
        rest (inl none_) = absurd (ground arith)
        rest (inr c) = subst (λ deps. Chosen parents t.run_if deps) e c
