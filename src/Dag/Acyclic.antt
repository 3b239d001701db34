-- ===== src/Dag/Acyclic.antt =====
-- ValidateDAG of pkg/dag/validator.go: it always ends, and it accepts exactly the task sets whose
-- dependencies have no cycle.
use propeller.Prelude.{
  ℕ, ◌+◌, ◌<◌, ◌≡◌, ◌≢◌, ◌↔◌, refl, String, false, Option, none, some, List, [], ◌∷◌, arith,
  Bool-cases, Option-cases, inl, inr, Elem, All, All-Elem, Distinct, length, subst, contains,
  contains→Elem, ◌∙◌, Elem-map,
}
use propeller.Task.{Task}
use propeller.Dag.{
  DagError, out_of_fuel, Marks, Outcome, done, fails, dfs, check_self, search_tasks, no_marks,
  validate_dag,
}
use propeller.Dag.Exist.{ids, DepsExist}
use propeller.Dag.Find.{find_task-Elem, find_task-exists, find_task_of_Distinct}
use propeller.Dag.Search.{
  Black, Ranking, Held, DepsHeld, Inv, Keeps, Post, unvisited, unvisited-le, unvisited-le-length,
  Black-Keeps, Keeps-refl, Keeps-trans,
}
use propeller.Dag.Visit.{dfs-Post}

-- `rank` puts every dependency of every task below the task: the tasks have no cycle.
abbrev pub Ranks : (String → ℕ) → List Task → Type 0
Ranks rank tasks = (t : Task) (d : String) → Elem t tasks → Elem d t.depends_on → rank d < rank t.id

module _ (all : List Task) where
  abbrev AllBlack : List Task → Marks → Type 0
  AllBlack ts m = (t : Task) → Elem t ts → Black m t.id

  -- The closing loop: all its tasks end up black, or no ranking exists.
  abbrev Final : List Task → Marks → Option DagError → Type 0
  Final ts m none = (m' : Marks) × Inv all m' × Keeps m m' × AllBlack ts m'
  Final ts m (some e) = (e ≢ out_of_fuel) × ((rank : String → ℕ) → Ranking all rank → ⊥)

  Final-cons :
      (t : Task) (ts : List Task) (m m' : Marks) (r : Option DagError)
      → Keeps m m'
      → Black m' t.id
      → Final ts m' r
      → Final (t ∷ ts) m r
  Final-cons t ts m m' (some e) keeps black f = f
  Final-cons t ts m m' none keeps black (m'', inv, later, rest) =
      (m'', inv, Keeps-trans keeps later, cases)
    where
      cases : (u : Task) → Elem u (t ∷ ts) → Black m'' u.id
      cases u (inl e) = subst (λ (w : Task). Black m'' w.id) e (Black-Keeps t.id later black)
      cases u (inr h) = rest u h

  module _ (deps_held : DepsHeld all) (fuel : ℕ) where
    search_tasks-Final :
        (ts : List Task) (m : Marks)
        → Inv all m
        → ((g : String) → m.rec_stack g ≡ false)
        → unvisited all m < fuel
        → ((t : Task) → Elem t ts → Held all t.id)
        → Final ts m (search_tasks all fuel ts m)
    unfolding search_tasks
    search_tasks-Final [] m inv no_grey enough held = (m, inv, Keeps-refl m, λ t h. absurd h)
    search_tasks-Final (t ∷ ts) m inv no_grey enough held = elim (Bool-cases (m.visited t.id)) [
      | inl v ↦
          rw (v, search_tasks)
            (Final-cons t ts m m _ (Keeps-refl m) (v, no_grey t.id)
              (search_tasks-Final ts m inv no_grey enough (λ u h. held u (inr h))))
      | inr v ↦
          rw (v, search_tasks)
            (after (dfs all fuel t.id m)
              (dfs-Post all deps_held fuel t.id m inv enough v (held t (inl refl)))
              (λ m'. search_tasks-Final ts m'))
    ]
      where
        after :
            (out : Outcome)
            → Post all (λ k. k ≡ t.id) m out
            → ((m' : Marks)
                → Inv all m'
                → ((g : String) → m'.rec_stack g ≡ false)
                → unvisited all m' < fuel
                → ((u : Task) → Elem u ts → Held all u.id)
                → Final ts m' (search_tasks all fuel ts m'))
            → Final
                (t ∷ ts)
                m
                (elim out [ done m' ↦ search_tasks all fuel ts m' | fails e ↦ some e ])
        after (done m') (inv', keeps, black) next = Final-cons t ts m m' _ keeps (black t.id refl) (
            next m' inv' (λ g. keeps.stack g ∙ no_grey g)
              (let fewer = unvisited-le all m m' keeps in omega arith) (λ u h. held u (inr h)))
        after (fails e) (ne, none_below) next = (
          ne,
          λ rank ranking.
              none_below rank ranking
                λ d g same grey. absurd (let white = no_grey g in ground arith),
        )

check_self_lem :
    (ts : List Task) (e : DagError)
    → check_self ts ≡ some e
    → (e ≢ out_of_fuel) × ((rank : String → ℕ) → Ranks rank ts → ⊥)
unfolding check_self
check_self_lem [] e h = cc
check_self_lem (t ∷ ts) e h = elim (Bool-cases (contains t.depends_on t.id)) [
  | inl c ↦ (
    λ f. ground arith,
    λ rank r. (let low = r t t.id (inl refl) (contains→Elem t.depends_on t.id c) in omega arith),
  )
  | inr c ↦
      let (ne, unranked) = check_self_lem ts e (ground arith) in
      (ne, λ rank r. unranked rank (λ u d m. r u d (inr m)))
]

no_marks-Inv : (all : List Task) → Inv all no_marks
unfolding no_marks
no_marks-Inv all = record {
  rank = λ k. 0;
  bound = 0;
  below = λ k h. h;
  ranked = λ k t d black held dep. absurd (ground arith);
  bounded = λ k black. absurd (ground arith);
}

module _ (tasks : List Task) (exist : DepsExist tasks tasks) where
  deps_held : DepsHeld tasks
  deps_held k t d found dep =
      let (listed, same) = find_task-Elem tasks k t found in
      find_task-exists tasks d (
        All-Elem (λ x. Elem x (ids tasks)) t.depends_on d
          (All-Elem (λ (u : Task). All (λ x. Elem x (ids tasks)) u.depends_on) tasks t exist listed)
          dep)

  Ranks-Ranking : (rank : String → ℕ) → Ranks rank tasks → Ranking tasks rank
  Ranks-Ranking rank r k t d found dep =
      let (listed, same) = find_task-Elem tasks k t found in
      subst (λ x. rank d < rank x) same (r t d listed dep)

  -- What a result of the search says about rankings.
  abbrev Verdict : Option DagError → Type 0
  Verdict none = (rank : String → ℕ) × Ranking tasks rank
  Verdict (some e) = (e ≢ out_of_fuel) × ((rank : String → ℕ) → Ranks rank tasks → ⊥)

  Final→Verdict : (r : Option DagError) → Final tasks tasks no_marks r → Verdict r
  Final→Verdict (some e) (ne, unranked) = (ne, λ rank r. unranked rank (Ranks-Ranking rank r))
  Final→Verdict none (m', inv, keeps, black) = (
    inv.rank,
    λ k t d found dep.
        let (listed, same) = find_task-Elem tasks k t found in
        (inv.ranked k t d (subst (Black m') same (black t listed)) found dep).1,
  )

  validate_dag-Verdict : Verdict (validate_dag tasks)
  unfolding validate_dag no_marks
  validate_dag-Verdict = elim (Option-cases (check_self tasks)) [
    | inr (e, h) ↦ rw (h, validate_dag) (check_self_lem tasks e h)
    | inl h ↦
        rw (h, validate_dag)
          (Final→Verdict _ (
            search_tasks-Final tasks deps_held (length tasks + 2) tasks no_marks
              (no_marks-Inv tasks) (λ g. refl)
              (let few = unvisited-le-length tasks no_marks in omega arith)
              (λ t listed.
                find_task-exists tasks t.id (Elem-map (λ (u : Task). u.id) t tasks listed))))
  ]

  validate_dag_cases : (r : Option DagError) → Verdict r → r ≢ some out_of_fuel
  validate_dag_cases none v e = ground arith
  validate_dag_cases (some x) (ne, unranked) e = ne (cc)

  accepted :
      Distinct (ids tasks)
      → (r : Option DagError) → Verdict r
      → (r ≡ none) ↔ ((rank : String → ℕ) × Ranks rank tasks)
  accepted distinct none (rank, ranking) = (
    λ e. (
      rank,
      λ t d listed dep. ranking t.id t d (find_task_of_Distinct tasks t distinct listed) dep,
    ),
    λ h. refl,
  )
  accepted distinct (some x) (ne, unranked) = (λ e. cc, λ (rank, r). absurd (unranked rank r))

-- The search of a task set whose dependencies all exist never runs out of the fuel it is given: the
-- check ends with a verdict.
pub validate_dag_total :
    (tasks : List Task) → DepsExist tasks tasks → validate_dag tasks ≢ some out_of_fuel
validate_dag_total tasks exist =
    validate_dag_cases tasks exist (validate_dag tasks) (validate_dag-Verdict tasks exist)

-- On tasks with distinct ids whose dependencies all exist the check passes exactly when the tasks
-- can be ranked with each dependency below its task, that is, when there is no cycle.
pub validate_dag_iff :
    (tasks : List Task)
    → DepsExist tasks tasks
    → Distinct (ids tasks)
    → (validate_dag tasks ≡ none) ↔ ((rank : String → ℕ) × Ranks rank tasks)
validate_dag_iff tasks exist distinct =
    accepted tasks exist distinct (validate_dag tasks) (validate_dag-Verdict tasks exist)
