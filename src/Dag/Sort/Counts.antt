-- ===== src/Dag/Sort/Counts.antt =====
-- How often a task waits for another, for TopologicalSort of pkg/dag/validator.go: the dependents
-- of a task name each task as often as that task depends on it.
use propeller.Prelude.{
  ℕ, suc, ◌+◌, ◌≡◌, refl, sym, ◌∙◌, ap, String, true, false, List, [], ◌∷◌, ◌++◌, arith, str_eq,
  eq_iff, contains, if◌then◌else◌, Bool-cases, inl, inr, Elem, Distinct, length, contains→Elem,
  Elem→contains, Elem-map,
}
use propeller.Task.{Task}
use propeller.Dag.Exist.{ids}
use propeller.Dag.Sort.{hold, dependents}

unfoldable pub count : String → List String → ℕ
count x [] = 0
count x (d ∷ ds) = if str_eq d x then suc (count x ds) else count x ds

-- The dependencies that have not been visited.
unfoldable pub left : List String → List String → ℕ
unfolding contains
left visited [] = 0
left visited (d ∷ ds) = if contains visited d then left visited ds else suc (left visited ds)

pub left_none : (ds : List String) → left [] ds ≡ length ds
unfolding left contains
left_none [] = refl
left_none (d ∷ ds) = ap suc (left_none ds)

-- A visit takes the dependencies on the visited task off.
pub left_visit :
    (id : String) (visited ds : List String)
    → contains visited id ≡ false
    → left (id ∷ visited) ds + count id ds ≡ left visited ds
unfolding left count contains
left_visit id visited [] n = omega arith
left_visit id visited (d ∷ ds) n =
    let ih = left_visit id visited ds n in
    elim (Bool-cases (str_eq d id)) [
      | inl e ↦
          let eq : d ≡ id = (eq_iff d id).0 e in
          let back : str_eq id d ≡ true = (eq_iff id d).1 (sym eq) in
          let fresh : contains visited d ≡ false = ap (contains visited) eq ∙ n in
          rw (e, back, fresh) (omega (arith, ih))
      | inr e ↦ elim (Bool-cases (str_eq id d)) [
        | inl b ↦
            absurd (
              let c : str_eq d id ≡ true = (eq_iff d id).1 (sym ((eq_iff id d).0 b)) in
              ground arith)
        | inr b ↦
            rw (e, b)
              (elim (Bool-cases (contains visited d)) [
                | inl m ↦ rw m ih
                | inr m ↦ rw m (omega (arith, ih))
              ])
      ]
    ]

pub left_zero :
    (visited ds : List String) → left visited ds ≡ 0 → (d : String) → Elem d ds → Elem d visited
unfolding left
left_zero visited [] h d m = absurd m
left_zero visited (x ∷ ds) h d m = elim (Bool-cases (contains visited x)) [
  | inl e ↦ here e (left_zero visited ds (rw e at h) d) m
  | inr e ↦ (let bad : suc (left visited ds) ≡ 0 = (rw e at h) in absurd (omega arith))
]
  where
    here :
        contains visited x ≡ true → (Elem d ds → Elem d visited) → Elem d (x ∷ ds) → Elem d visited
    here e rest (inl q) = contains→Elem visited d (ap (contains visited) (sym q) ∙ e)
    here e rest (inr n) = rest n

pub zero_left :
    (visited ds : List String) → ((d : String) → Elem d ds → Elem d visited) → left visited ds ≡ 0
unfolding left
zero_left visited [] h = refl
zero_left visited (x ∷ ds) h =
    rw (Elem→contains visited x (h x (inl refl))) (zero_left visited ds (λ d m. h d (inr m)))

count-append : (x : String) (ds es : List String) → count x (ds ++ es) ≡ count x ds + count x es
unfolding count
count-append x [] es = omega arith
count-append x (d ∷ ds) es = elim (Bool-cases (str_eq d x)) [
  | inl e ↦ rw e (omega (arith, count-append x ds es))
  | inr e ↦ rw e (count-append x ds es)
]

count-hold :
    (task_id id : String) (ds : List String) → count task_id (hold task_id id ds) ≡ count id ds
unfolding count hold
count-hold task_id id [] = refl
count-hold task_id id (d ∷ ds) = elim (Bool-cases (str_eq d id)) [
  | inl e ↦ rw (e, (eq_iff task_id task_id).1 refl) (ap suc (count-hold task_id id ds))
  | inr e ↦ rw e (count-hold task_id id ds)
]

count-hold_other :
    (x task_id id : String) (ds : List String)
    → str_eq task_id x ≡ false
    → count x (hold task_id id ds) ≡ 0
unfolding count hold
count-hold_other x task_id id [] n = refl
count-hold_other x task_id id (d ∷ ds) n = elim (Bool-cases (str_eq d id)) [
  | inl e ↦ rw (e, n) (count-hold_other x task_id id ds n)
  | inr e ↦ rw e (count-hold_other x task_id id ds n)
]

count_absent :
    (x id : String) (all : List Task) → ¬ Elem x (ids all) → count x (dependents all id) ≡ 0
unfolding dependents count
count_absent x id [] n = refl
count_absent x id (t ∷ ts) n = elim (Bool-cases (str_eq t.id x)) [
  | inl e ↦ absurd (n (inl ((eq_iff t.id x).0 e)))
  | inr e ↦
      count-append x (hold t.id id t.depends_on) (dependents ts id)
      ∙ omega
          (arith, count-hold_other x t.id id t.depends_on e, count_absent x id ts (λ m. n (inr m)))
]

pub count-dependents :
    (t : Task) (id : String) (all : List Task)
    → Distinct (ids all)
    → Elem t all
    → count t.id (dependents all id) ≡ count id t.depends_on
unfolding dependents count
count-dependents t id [] u m = absurd m
count-dependents t id (v ∷ vs) (n, u) (inl q) =
    let named : v.id ≡ t.id = ap (λ (w : Task). w.id) q in
    ap (λ (w : Task). count w.id (dependents (v ∷ vs) id)) (sym q)
    ∙ count-append v.id (hold v.id id v.depends_on) (dependents vs id)
    ∙ omega (arith, count-hold v.id id v.depends_on, count_absent v.id id vs n)
    ∙ ap (λ (w : Task). count id w.depends_on) q
count-dependents t id (v ∷ vs) (n, u) (inr m) = elim (Bool-cases (str_eq v.id t.id)) [
  | inl e ↦ absurd (n (rw ((eq_iff v.id t.id).0 e) (Elem-map (λ (w : Task). w.id) t vs m)))
  | inr e ↦
      count-append t.id (hold v.id id v.depends_on) (dependents vs id)
      ∙ omega (arith, count-hold_other t.id v.id id v.depends_on e, count-dependents t id vs u m)
]
