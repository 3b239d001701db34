-- ===== src/Dag/Ready.antt =====
-- GetReadyTasks of pkg/dag/validator.go.
use propeller.Prelude.{
  ◌≡◌, refl, ◌↔◌, String, Bool, true, false, Option, some, List, [], ◌∷◌, arith, Option-cases,
  Bool-cases, inl, inr, All, Distinct, Elem, keep, Elem-keep, keep-Elem, not, ◌&&◌,
}
use propeller.Task.{State, Task, is_terminal}
use propeller.Dag.Exist.{ids}
use propeller.Dag.{deps_terminal, get_ready_tasks}

-- A dependency has ended, as far as the map of ended tasks knows.
abbrev pub Ended : (String → Option State) → String → Type 0
Ended completed d = (s : State) × (completed d ≡ some s) × (is_terminal s ≡ true)

-- A task is ready: it has not ended, and each of its dependencies has.
abbrev pub IsReady : (String → Option State) → Task → Type 0
IsReady completed t = (is_terminal t.state ≡ false) × All (Ended completed) t.depends_on

deps_terminal→All :
    (completed : String → Option State) (ds : List String)
    → deps_terminal completed ds ≡ true
    → All (Ended completed) ds
unfolding deps_terminal
deps_terminal→All completed [] h = tt
deps_terminal→All completed (d ∷ ds) h = elim (Option-cases (completed d)) [
  | inl e ↦ absurd (ground arith)
  | inr (s, e) ↦ ((s, e, ground arith), deps_terminal→All completed ds (ground arith))
]

All→deps_terminal :
    (completed : String → Option State) (ds : List String)
    → All (Ended completed) ds
    → deps_terminal completed ds ≡ true
unfolding deps_terminal
All→deps_terminal completed [] h = refl
All→deps_terminal completed (d ∷ ds) h =
    let (s, e, ended) = h.0 in let rest = All→deps_terminal completed ds h.1 in ground arith

abbrev is_ready : (String → Option State) → Task → Bool
is_ready completed t = not (is_terminal t.state) && deps_terminal completed t.depends_on

get_ready-keep :
    (tasks : List Task) (completed : String → Option State)
    → get_ready_tasks tasks completed ≡ keep (is_ready completed) tasks
unfolding get_ready_tasks
get_ready-keep [] completed = refl
get_ready-keep (t ∷ ts) completed = ground (arith, get_ready-keep ts completed)

-- A task is returned exactly when it is one of the given tasks and is ready.
pub get_ready_tasks_iff :
    (tasks : List Task) (completed : String → Option State) (t : Task)
    → Elem t (get_ready_tasks tasks completed) ↔ (Elem t tasks × IsReady completed t)
get_ready_tasks_iff tasks completed t = rw (get_ready-keep tasks completed) (
  λ m.
      let (listed, ready) = Elem-keep (is_ready completed) t tasks m in
      (listed, (ground arith, deps_terminal→All completed t.depends_on (ground arith))),
  λ (listed, ready).
      keep-Elem (is_ready completed) t tasks listed
        (let deps = All→deps_terminal completed t.depends_on ready.1 in ground arith),
)

ids-keep :
    (p : Task → Bool) (x : String) (ts : List Task) → Elem x (ids (keep p ts)) → Elem x (ids ts)
ids-keep p x [] m = m
ids-keep p x (t ∷ ts) m = elim (Bool-cases (p t)) [
  | inl e ↦ one (ids-keep p x ts) (rw e at m)
  | inr e ↦ inr (ids-keep p x ts (rw e at m))
]
  where
    one :
        (Elem x (ids (keep p ts)) → Elem x (ids ts))
        → Elem x (t.id ∷ ids (keep p ts))
        → Elem x (t.id ∷ ids ts)
    one rest (inl q) = inl q
    one rest (inr n) = inr (rest n)

keep-Distinct : (p : Task → Bool) (ts : List Task) → Distinct (ids ts) → Distinct (ids (keep p ts))
keep-Distinct p [] d = tt
keep-Distinct p (t ∷ ts) d = elim (Bool-cases (p t)) [
  | inl e ↦ rw e (λ m. d.0 (ids-keep p t.id ts m), keep-Distinct p ts d.1)
  | inr e ↦ rw e (keep-Distinct p ts d.1)
]

-- No task is returned twice where the ids are distinct.
pub get_ready_tasks-Distinct :
    (tasks : List Task) (completed : String → Option State)
    → Distinct (ids tasks)
    → Distinct (ids (get_ready_tasks tasks completed))
get_ready_tasks-Distinct tasks completed d =
    rw (get_ready-keep tasks completed) (keep-Distinct (is_ready completed) tasks d)
