-- ===== src/Dag.antt =====
-- pkg/dag/validator.go: the checks on a set of tasks and their dependencies. A Go map is the
-- function that reads it; the errors keep their kind, and the names that their text holds.
pub mod Exist
pub mod Find
pub mod Ready
pub mod Search
pub mod Visit
pub mod Acyclic
pub mod Sort
use propeller.Prelude.{
  ℕ, zero, suc, ◌+◌, String, Bool, true, false, Option, none, some, List, [], ◌∷◌, str_eq, contains,
  if◌then◌else◌, not, length,
}
use propeller.Task.{State, Task, is_terminal}

pub data DagError : Type 0 where
  missing_dependency : (task dep : String) → DagError
  self_dependency : (task : String) → DagError
  cycle_detected : (task dep : String) → DagError
  not_all_processed out_of_fuel : DagError

-- `taskMap[id]` once the map is filled from the slice: the last task of an id stays.
unfoldable pub find_task : List Task → String → Option Task
find_task [] id = none
find_task (t ∷ ts) id =
    let here = if str_eq t.id id then some t else none in
    elim (find_task ts id) [ none ↦ here | some u ↦ some u ]

-- `taskMap[id]` of ValidateDependenciesExist.
has_task : List Task → String → Bool
has_task [] id = false
has_task (t ∷ ts) id = if str_eq t.id id then true else has_task ts id

check_deps : List Task → Task → List String → Option DagError
check_deps all t [] = none
check_deps all t (d ∷ ds) =
    if has_task all d then check_deps all t ds else some (missing_dependency t.id d)

check_tasks : List Task → List Task → Option DagError
check_tasks all [] = none
check_tasks all (t ∷ ts) = elim (check_deps all t t.depends_on) [
  | some e ↦ some e
  | none ↦ check_tasks all ts
]

unfoldable pub validate_dependencies_exist : List Task → Option DagError
unfolding check_tasks check_deps has_task
validate_dependencies_exist tasks = check_tasks tasks tasks

-- The two maps of the depth-first search.
pub record Marks : Type 0 where
  pub visited : String → Bool
  pub rec_stack : String → Bool

abbrev pub mark : (String → Bool) → String → Bool → String → Bool
mark f id b k = if str_eq k id then b else f k

pub data Outcome : Type 0 where
  done : Marks → Outcome
  fails : DagError → Outcome

-- `if err := ...; err != nil { return err }`.
abbrev pub and_then : Outcome → (Marks → Outcome) → Outcome
and_then (done m) next = next m
and_then (fails e) next = fails e

module _ (visit : String → Marks → Outcome) (task_id : String) where
  -- The loop over `t.DependsOn`; `visit` is the recursive call.
  pub search_deps : List String → Marks → Outcome
  search_deps [] m = done m
  search_deps (d ∷ ds) m = elim (m.visited d) [
    | true ↦ elim (m.rec_stack d) [
      | true ↦ fails (cycle_detected task_id d)
      | false ↦ search_deps ds m
    ]
    | false ↦ and_then (visit d m) (λ m'. search_deps ds m')
  ]

-- `recStack[taskID] = false` at the end of the visit.
leave : String → Outcome → Outcome
leave id (done m) = done (record m { rec_stack = mark m.rec_stack id false })
leave id (fails e) = fails e

enter : String → Marks → Marks
enter id m = record { visited = mark m.visited id true; rec_stack = mark m.rec_stack id true }

pub dfs : List Task → ℕ → String → Marks → Outcome
unfolding search_deps leave enter
dfs all zero id m = fails out_of_fuel
dfs all (suc fuel) id m = elim (find_task all id) [
  | none ↦ done (enter id m)
  | some t ↦ leave id (search_deps (λ d. dfs all fuel d) id t.depends_on (enter id m))
]

-- The closing loop over the tasks.
search_tasks : List Task → ℕ → List Task → Marks → Option DagError
search_tasks all fuel [] m = none
search_tasks all fuel (t ∷ ts) m = elim (m.visited t.id) [
  | true ↦ search_tasks all fuel ts m
  | false ↦ elim (dfs all fuel t.id m) [ done m' ↦ search_tasks all fuel ts m' | fails e ↦ some e ]
]

check_self : List Task → Option DagError
check_self [] = none
check_self (t ∷ ts) =
    if contains t.depends_on t.id then some (self_dependency t.id) else check_self ts

no_marks : Marks
no_marks = record { visited = λ _. false; rec_stack = λ _. false }

-- The search goes one task deeper with each call, and a call on a missing task ends at once.
unfoldable pub validate_dag : List Task → Option DagError
unfolding check_self search_tasks dfs no_marks find_task contains
validate_dag tasks = elim (check_self tasks) [
  | some e ↦ some e
  | none ↦ search_tasks tasks (length tasks + 2) tasks no_marks
]

deps_terminal : (String → Option State) → List String → Bool
deps_terminal completed [] = true
deps_terminal completed (d ∷ ds) = elim (completed d) [
  | none ↦ false
  | some s ↦ if is_terminal s then deps_terminal completed ds else false
]

unfoldable pub get_ready_tasks : List Task → (String → Option State) → List Task
unfolding deps_terminal is_terminal
get_ready_tasks [] completed = []
get_ready_tasks (t ∷ ts) completed =
    let rest = get_ready_tasks ts completed in
    if is_terminal t.state
    then rest
    else if deps_terminal completed t.depends_on
    then t ∷ rest
    else rest
