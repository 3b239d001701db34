-- ===== src/Scheduler.antt =====
-- pkg/scheduler: the round-robin choice of a proplet, and the order of ready tasks by priority.
pub mod RoundRobin
pub mod Priority
pub mod Alive
use propeller.Prelude.{
  ℕ, zero, suc, ◌+◌, ◌%◌, ◌^◌, Bool, true, false, Option, none, some, List, [], ◌∷◌, ltb, ◌==◌,
  if◌then◌else◌, length, get_elem?,
}
use propeller.Task.{Task, Proplet}
use propeller.Errors.{Err, no_proplet, dead_proplets}
use propeller.Outcome.{Result, ok, err}

-- `alive` of SelectProplet: how many of the proplets are alive.
unfoldable pub count_alive : List Proplet → ℕ
count_alive [] = 0
count_alive (p ∷ ps) = if p.alive then suc (count_alive ps) else count_alive ps

-- The body of the loop, for the rounds that are left: `none` is the end of the loop. The cursor is
-- an index of the slice in each read, so a missing element is an index out of range, which
-- `RoundRobin.select_proplet_total` rules out along with the end of the loop.
scan : ℕ → List Proplet → ℕ → Option (Proplet × ℕ)
scan zero proplets last = none
scan (suc rounds) proplets last =
    let next = (last + 1) % length proplets in
    elim (get_elem? proplets next) [
      | none ↦ none
      | some p ↦ let rest = scan rounds proplets next in if p.alive then some (p, next) else rest
    ]

-- The cursor is `LastProplet`; a round without a choice leaves it where the rounds have moved it.
moved : ℕ → List Proplet → ℕ → ℕ
moved zero proplets last = last
moved (suc rounds) proplets last = moved rounds proplets ((last + 1) % length proplets)

-- `SelectProplet`: the choice, and the cursor after it.
unfoldable pub select_proplet : ℕ → List Proplet → Result Proplet × ℕ
unfolding scan moved count_alive
select_proplet last proplets =
    if length proplets == 0
    then (err no_proplet, last)
    else if count_alive proplets == 0
    then (err dead_proplets, last)
    else elim (scan (length proplets) proplets last) [
      | some (p, next) ↦ (ok p, next)
      | none ↦ (err dead_proplets, moved (length proplets) proplets last)
    ]

abbrev default_priority : ℕ
default_priority = 50

-- The place of an `int` among all, from its pattern of 64 bits: the negative ones come first.
unfoldable rank : ℕ → ℕ
rank p = (p + 2 ^ 63) % 2 ^ 64

-- A priority of 0 stands for the default.
unfoldable pub effective : Task → ℕ
unfolding rank
effective t = rank (if t.priority == 0 then default_priority else t.priority)

-- The comparison of GetReadyTasksByPriority is at most 0: the first task may stand first.
unfoldable pub comes_first : Task → Task → Bool
unfolding effective
comes_first a b =
    if effective a == effective b
    then if ltb b.created_at a.created_at then false else true
    else ltb (effective b) (effective a)

-- `slices.SortFunc` by that comparison. Go leaves the order of equal tasks open; here they keep
-- their order, and the theorems speak of what every such sort gives.
insert_task : Task → List Task → List Task
insert_task t [] = t ∷ []
insert_task t (u ∷ us) = if comes_first t u then t ∷ u ∷ us else u ∷ insert_task t us

unfoldable pub get_ready_tasks_by_priority : List Task → List Task
unfolding insert_task comes_first
get_ready_tasks_by_priority [] = []
get_ready_tasks_by_priority (t ∷ ts) = insert_task t (get_ready_tasks_by_priority ts)
