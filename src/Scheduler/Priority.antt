-- ===== src/Scheduler/Priority.antt =====
-- GetReadyTasksByPriority of pkg/scheduler/priority.go.
use mathlib.Core.List.{Perm}
use mathlib.Core.List.Perm
use propeller.Prelude.{
  ◌≤◌, ◌<◌, ◌≡◌, ◌⊎◌, true, false, List, [], ◌∷◌, arith, Bool-cases, inl, inr, All,
}
use propeller.Task.{Task}
use propeller.Scheduler.{effective, comes_first, insert_task, get_ready_tasks_by_priority}

-- `a` may stand before `b`: its priority is higher, or it is the same and `a` is not the younger.
abbrev Before : Task → Task → Type 0
Before a b =
    (effective b < effective a) ⊎ ((effective a ≡ effective b) × (a.created_at ≤ b.created_at))

comes_first→Before : (a b : Task) → comes_first a b ≡ true → Before a b
unfolding comes_first
comes_first→Before a b h = ground arith

not_first→Before : (a b : Task) → comes_first a b ≡ false → Before b a
unfolding comes_first
not_first→Before a b h = ground arith

Before-trans : (a b c : Task) → Before a b → Before b c → Before a c
Before-trans a b c p q = ground arith

-- Every task may stand before all tasks after it.
abbrev IsOrdered : List Task → Type 0
IsOrdered [] = Unit
IsOrdered (t ∷ ts) = All (Before t) ts × IsOrdered ts

All-Before : (a b : Task) (ts : List Task) → Before a b → All (Before b) ts → All (Before a) ts
All-Before a b [] h l = tt
All-Before a b (t ∷ ts) h l = (Before-trans a b t h l.0, All-Before a b ts h l.1)

insert-All :
    (u t : Task) (ts : List Task)
    → Before u t
    → All (Before u) ts
    → All (Before u) (insert_task t ts)
unfolding insert_task
insert-All u t [] h l = (h, tt)
insert-All u t (v ∷ vs) h l = elim (Bool-cases (comes_first t v)) [
  | inl e ↦ rw e (h, l)
  | inr n ↦ rw n (l.0, insert-All u t vs h l.1)
]

insert-IsOrdered : (t : Task) (ts : List Task) → IsOrdered ts → IsOrdered (insert_task t ts)
unfolding insert_task
insert-IsOrdered t [] h = (tt, tt)
insert-IsOrdered t (u ∷ us) h = elim (Bool-cases (comes_first t u)) [
  | inl e ↦ let b = comes_first→Before t u e in rw e ((b, All-Before t u us b h.0), h)
  | inr n ↦ rw n (insert-All u t us (not_first→Before t u n) h.0, insert-IsOrdered t us h.1)
]

insert-perm : (t : Task) (ts : List Task) → Perm (insert_task t ts) (t ∷ ts)
unfolding insert_task
insert-perm t [] = Perm.rfl
insert-perm t (u ∷ us) = elim (Bool-cases (comes_first t u)) [
  | inl e ↦ rw e Perm.rfl
  | inr n ↦ rw n (Perm.trans (Perm.cons u (insert-perm t us)) (Perm.swap t u us))
]

sorted : (ts : List Task) → IsOrdered (get_ready_tasks_by_priority ts)
unfolding get_ready_tasks_by_priority
sorted [] = tt
sorted (t ∷ ts) = insert-IsOrdered t _ (sorted ts)

same_tasks : (ts : List Task) → Perm (get_ready_tasks_by_priority ts) ts
unfolding get_ready_tasks_by_priority
same_tasks [] = Perm.rfl
same_tasks (t ∷ ts) = Perm.trans (insert-perm t _) (Perm.cons t (same_tasks ts))

-- The result holds the given tasks, each as often as given; in it a task of higher priority stands
-- before all of lower priority, with 0 read as 50, and the elder of two of one priority first.
get_ready_tasks_by_priority_lem :
    (ts : List Task)
    → Perm (get_ready_tasks_by_priority ts) ts × IsOrdered (get_ready_tasks_by_priority ts)
get_ready_tasks_by_priority_lem ts = (same_tasks ts, sorted ts)
