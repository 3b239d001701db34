-- ===== src/Samples/Graphs.antt =====
-- The task graph at the two sample tasks, of which the second depends on the first.
use propeller.Prelude.{
  true, ℕ, ◌≡◌, ◌≢◌, ◌↔◌, ◌⊎◌, refl, inl, inr, String, Option, none, some, arith, str_eq, eq_iff,
  if◌then◌else◌, Elem, Distinct, List, [], ◌∷◌,
}
use propeller.Task.{State, completed, Task}
use propeller.Dag.{validate_dependencies_exist, validate_dag, get_ready_tasks, out_of_fuel}
use propeller.Dag.Exist.{ids, DepsExist}
use propeller.Dag.Ready.{IsReady, get_ready_tasks_iff}
use propeller.Dag.Acyclic.{Ranks, validate_dag_total, validate_dag_iff}
use propeller.Dag.Sort.{sorted, topological_sort}
use propeller.Dag.Sort.Drained.{Ordered}
use propeller.Dag.Sort.Order.{topological_sort_lem}
use propeller.Samples.{two_tasks, first_task, second_task}

two_tasks_exist : DepsExist two_tasks two_tasks
two_tasks_exist = (tt, ((inl refl, tt), tt))

b_is_new : ◌≡◌ {A = String} "b" "a" ⊎ ⊥ → ⊥
b_is_new (inl e) = let h : str_eq "b" "a" ≡ true = (eq_iff "b" "a").1 e in absurd (ground arith)
b_is_new (inr h) = absurd h

two_tasks-Distinct : Distinct (ids two_tasks)
two_tasks-Distinct = (b_is_new, (λ h. absurd h, tt))

validate_dag_total_example : validate_dag two_tasks ≢ some out_of_fuel
validate_dag_total_example = validate_dag_total two_tasks two_tasks_exist

validate_dag_example :
    (validate_dag two_tasks ≡ none) ↔ ((rank : String → ℕ) × Ranks rank two_tasks)
validate_dag_example = validate_dag_iff two_tasks two_tasks_exist two_tasks-Distinct

abbrev first_done : String → Option State
first_done id = if str_eq id "a" then some completed else none

get_ready_tasks_example :
    Elem second_task (get_ready_tasks two_tasks first_done)
    ↔ (Elem second_task two_tasks × IsReady first_done second_task)
get_ready_tasks_example = get_ready_tasks_iff two_tasks first_done second_task

-- The two tasks, the dependent one first.
abbrev swapped : List Task
swapped = second_task ∷ first_task ∷ []

a_is_new : ◌≡◌ {A = String} "a" "b" ⊎ ⊥ → ⊥
a_is_new (inl e) = let h : str_eq "a" "b" ≡ true = (eq_iff "a" "b").1 e in absurd (ground arith)
a_is_new (inr h) = absurd h

topological_sort_example :
    (result : List Task) × (topological_sort ("a" ∷ "b" ∷ []) swapped ≡ sorted result)
    × Ordered [] result
    × Distinct (ids result)
    × ((t : Task) → Elem t result ↔ Elem t swapped)
unfolding validate_dependencies_exist validate_dag
topological_sort_example =
    topological_sort_lem swapped ("a" ∷ "b" ∷ []) (a_is_new, (λ h. absurd h, tt))
      (λ id. (
        λ m. elim m [ inl e ↦ inr (inl e) | inr (inl e) ↦ inl e | inr (inr h) ↦ absurd h ],
        λ m. elim m [ inl e ↦ inr (inl e) | inr (inl e) ↦ inl e | inr (inr h) ↦ absurd h ],
      ))
      refl refl
