-- ===== src/Dag/Exist.antt =====
-- ValidateDependenciesExist of pkg/dag/validator.go.
use propeller.Prelude.{
  ◌≡◌, refl, ◌↔◌, String, true, none, List, [], ◌∷◌, arith, str_eq, eq_iff, Bool-cases,
  Option-cases, inl, inr, All, Elem, map,
}
use propeller.Task.{Task}
use propeller.Dag.{has_task, check_deps, check_tasks, validate_dependencies_exist}

abbrev pub ids : List Task → List String
ids tasks = map (λ t. t.id) tasks

has_task→Elem : (all : List Task) (id : String) → has_task all id ≡ true → Elem id (ids all)
unfolding has_task
has_task→Elem [] id h = cc
has_task→Elem (t ∷ ts) id h = elim (Bool-cases (str_eq t.id id)) [
  | inl e ↦ inl ((eq_iff t.id id).0 e)
  | inr n ↦ inr (has_task→Elem ts id (ground arith))
]

Elem→has_task : (all : List Task) (id : String) → Elem id (ids all) → has_task all id ≡ true
unfolding has_task
Elem→has_task [] id h = absurd h
Elem→has_task (t ∷ ts) id (inl e) = ground (arith, eq_iff t.id id)
Elem→has_task (t ∷ ts) id (inr m) = ground (arith, Elem→has_task ts id m)

check_deps→All :
    (all : List Task) (t : Task) (ds : List String)
    → check_deps all t ds ≡ none
    → All (λ d. Elem d (ids all)) ds
unfolding check_deps
check_deps→All all t [] h = tt
check_deps→All all t (d ∷ ds) h = elim (Bool-cases (has_task all d)) [
  | inl e ↦ (has_task→Elem all d e, check_deps→All all t ds (rw e at h))
  | inr n ↦ absurd (ground arith)
]

All→check_deps :
    (all : List Task) (t : Task) (ds : List String)
    → All (λ d. Elem d (ids all)) ds
    → check_deps all t ds ≡ none
unfolding check_deps
All→check_deps all t [] h = refl
All→check_deps all t (d ∷ ds) h = rw (Elem→has_task all d h.0) (All→check_deps all t ds h.1)

-- Every dependency of every task of a list is the id of a task of the other.
abbrev pub DepsExist : List Task → List Task → Type 0
DepsExist all ts = All (λ t. All (λ d. Elem d (ids all)) t.depends_on) ts

check_tasks→DepsExist : (all ts : List Task) → check_tasks all ts ≡ none → DepsExist all ts
unfolding check_tasks
check_tasks→DepsExist all [] h = tt
check_tasks→DepsExist all (t ∷ ts) h = elim (Option-cases (check_deps all t t.depends_on)) [
  | inl e ↦ (check_deps→All all t t.depends_on e, check_tasks→DepsExist all ts (ground arith))
  | inr (x, e) ↦ absurd (ground arith)
]

DepsExist→check_tasks : (all ts : List Task) → DepsExist all ts → check_tasks all ts ≡ none
unfolding check_tasks
DepsExist→check_tasks all [] h = refl
DepsExist→check_tasks all (t ∷ ts) h =
    rw (All→check_deps all t t.depends_on h.0, check_tasks) (DepsExist→check_tasks all ts h.1)

-- The check passes exactly when each dependency of each task is the id of a task of the list.
pub validate_dependencies_exist_iff :
    (tasks : List Task) → (validate_dependencies_exist tasks ≡ none) ↔ DepsExist tasks tasks
unfolding validate_dependencies_exist
validate_dependencies_exist_iff tasks =
    (check_tasks→DepsExist tasks tasks, DepsExist→check_tasks tasks tasks)
