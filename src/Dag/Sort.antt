-- ===== src/Dag/Sort.antt =====
-- TopologicalSort of pkg/dag/validator.go. Go ranges over the map of degrees in any order: `order`
-- is the one that it takes. A degree below zero is none; nothing leads up again from there.
pub mod Counts
pub mod Release
pub mod Rounds
pub mod Drained
pub mod Order
use propeller.Prelude.{
  ℕ, zero, suc, ◌+◌, String, Bool, true, false, Option, none, some, List, [], ◌∷◌, ◌++◌, str_eq,
  contains, if◌then◌else◌, length, keep, ◌==◌,
}
use propeller.Task.{Task}
use propeller.Dag.{
  DagError, out_of_fuel, not_all_processed, find_task, validate_dependencies_exist, validate_dag,
}

pub data Sorting : Type 0 where
  sorted : List Task → Sorting
  refused : DagError → Sorting

-- The id of a task, once for each time that it depends on another.
unfoldable pub hold : String → String → List String → List String
hold task_id id [] = []
hold task_id id (d ∷ ds) =
    let rest = hold task_id id ds in if str_eq d id then task_id ∷ rest else rest

-- `dependents[id]`.
unfoldable pub dependents : List Task → String → List String
unfolding hold
dependents [] id = []
dependents (t ∷ ts) id = hold t.id id t.depends_on ++ dependents ts id

-- `inDegree` at first.
unfoldable pub in_degree : List Task → String → Option ℕ
unfolding find_task
in_degree tasks id = elim (find_task tasks id) [ none ↦ none | some t ↦ some (length t.depends_on) ]

unfoldable pub one_less : Option ℕ → Option ℕ
one_less (some (suc n)) = some n
one_less _ = none

unfoldable pub is_zero : Option ℕ → Bool
is_zero (some zero) = true
is_zero _ = false

-- `inDegree[depID]--`.
unfoldable pub lower : String → (String → Option ℕ) → String → Option ℕ
unfolding one_less
lower d degree id = if str_eq d id then one_less (degree id) else degree id

-- `if inDegree[depID] == 0 { queue = append(queue, depID) }`.
unfoldable pub push_if_zero : String → (String → Option ℕ) → List String → List String
unfolding is_zero
push_if_zero d degree queue = if is_zero (degree d) then queue ++ d ∷ [] else queue

-- The loop over the dependents of a task that is done.
unfoldable pub release :
    List String → (String → Option ℕ) → List String → (String → Option ℕ) × List String
unfolding lower push_if_zero
release [] degree queue = (degree, queue)
release (d ∷ ds) degree queue = release ds (lower d degree) (push_if_zero d (lower d degree) queue)

-- `taskMap[currentID]` before the rest of the result; only ids of tasks are in the queue.
abbrev add_task : Option Task → Option (List Task) → Option (List Task)
add_task (some t) (some rest) = some (t ∷ rest)
add_task (some t) none = none
add_task none rest = rest

-- The loop over the queue; none when the rounds run out.
unfoldable pub drain :
    List Task → ℕ → (String → Option ℕ) → List String → List String → Option (List Task)
unfolding release dependents find_task contains
drain all zero degree visited queue = none
drain all (suc rounds) degree visited [] = some []
drain all (suc rounds) degree visited (id ∷ queue) =
    if contains visited id
    then drain all rounds degree visited queue
    else add_task (find_task all id) (
        drain all rounds (release (dependents all id) degree queue).0 (id ∷ visited)
          (release (dependents all id) degree queue).1)

unfoldable pub check_length : List Task → Option (List Task) → Sorting
check_length tasks none = refused out_of_fuel
check_length tasks (some result) =
    if length result == length tasks then sorted result else refused not_all_processed

unfoldable pub topological_sort : List String → List Task → Sorting
unfolding drain in_degree is_zero check_length validate_dependencies_exist validate_dag
topological_sort order tasks = elim (validate_dependencies_exist tasks) [
  | some e ↦ refused e
  | none ↦ elim (validate_dag tasks) [
    | some e ↦ refused e
    | none ↦ check_length tasks (
        drain tasks (suc (length order + length tasks)) (in_degree tasks) []
          (keep (λ id. is_zero (in_degree tasks id)) order))
  ]
]
