-- ===== src/Dag/Sort/Order.antt =====
-- What TopologicalSort of pkg/dag/validator.go returns, whatever the order of its map.
use propeller.Prelude.{
  ℕ, zero, suc, ◌+◌, ◌≤◌, ◌≡◌, ◌⊎◌, ◌↔◌, refl, sym, ◌∙◌, ap, subst, String, Bool, true, none, some,
  List, [], ◌∷◌, arith, Bool-cases, inl, inr, Elem, Distinct, length, keep, Elem-keep, keep-Elem,
  Elem-map, ==_iff, ◌==◌,
}
use propeller.Task.{Task}
use propeller.Dag.{validate_dag, validate_dependencies_exist}
use propeller.Dag.Exist.{ids, validate_dependencies_exist_iff}
use propeller.Dag.Find.{find_task_of_Distinct}
use propeller.Dag.Acyclic.{validate_dag_iff}
use propeller.Dag.Sort.{sorted, in_degree, is_zero, check_length, drain, topological_sort}
use propeller.Dag.Sort.Counts.{left_none}
use propeller.Dag.Sort.Rounds.{waiting-le-length}
use propeller.Dag.Sort.Drained.{Ordered, Inv, Drained, drain_lem, ids→Task}

-- Removing an element from a list, and the length of distinct lists.
module _ {A : Type 0} where
  take_out :
      (x : A) (ys : List A)
      → Elem x ys
      → (zs : List A) × (length ys ≡ suc (length zs)) × ((y : A) → Elem y ys → (x ≡ y) ⊎ Elem y zs)
  take_out x [] m = absurd m
  take_out x (y ∷ ys) (inl q) =
      (ys, refl, λ z n. elim n [ inl p ↦ inl (sym q ∙ p) | inr a ↦ inr a ])
  take_out x (y ∷ ys) (inr m) =
      let (zs, e, out) = take_out x ys m in
      (
        y ∷ zs,
        ap suc e,
        λ z n. elim n [
          | inl p ↦ inr (inl p)
          | inr a ↦ elim (out z a) [ inl p ↦ inl p | inr b ↦ inr (inr b) ]
        ],
      )

  Distinct-length :
      (xs ys : List A) → Distinct xs → ((x : A) → Elem x xs → Elem x ys) → length xs ≤ length ys
  Distinct-length [] ys d h = omega arith
  Distinct-length (x ∷ xs) ys (n, d) h =
      let (zs, e, out) = take_out x ys (h x (inl refl)) in
      let within : (y : A) → Elem y xs → Elem y zs = λ y m. elim (out y (h y (inr m))) [
        | inl p ↦ absurd (n (subst (λ z. Elem z xs) (sym p) m))
        | inr a ↦ a
      ] in
      omega (arith, Distinct-length xs zs d within, e)

length-ids : (ts : List Task) → length (ids ts) ≡ length ts
length-ids [] = refl
length-ids (t ∷ ts) = ap suc (length-ids ts)

length-keep : (p : String → Bool) (xs : List String) → length (keep p xs) ≤ length xs
length-keep p [] = omega arith
length-keep p (x ∷ xs) = elim (Bool-cases (p x)) [
  | inl e ↦ rw e (omega (arith, length-keep p xs))
  | inr e ↦ rw e (omega (arith, length-keep p xs))
]

start : List Task → List String → List String
unfolding in_degree is_zero
start tasks order = keep (λ id. is_zero (in_degree tasks id)) order

module _ (tasks : List Task) (order : List String) (distinct : Distinct (ids tasks))
    (keys : (id : String) → Elem id order ↔ Elem id (ids tasks)) where
  in_degree_of : (t : Task) → Elem t tasks → in_degree tasks t.id ≡ some (length t.depends_on)
  unfolding in_degree
  in_degree_of t m = rw (find_task_of_Distinct tasks t distinct m, in_degree) refl

  start-Inv : Inv tasks (in_degree tasks) [] (start tasks order)
  unfolding start is_zero
  start-Inv = record {
    counted = λ t m. in_degree_of t m ∙ ap some (sym (left_none t.depends_on));
    queued = λ t m q.
        left_none t.depends_on
        ∙ zero_of (length t.depends_on) (
            sym (ap is_zero (in_degree_of t m))
            ∙ (Elem-keep (λ id. is_zero (in_degree tasks id)) t.id order q).1);
    reached = λ t m z.
        let none_left : length t.depends_on ≡ 0 = sym (left_none t.depends_on) ∙ z in
        inl (
          keep-Elem (λ id. is_zero (in_degree tasks id)) t.id order
            ((keys t.id).1 (Elem-map (λ (u : Task). u.id) t tasks m))
            (ap is_zero (in_degree_of t m ∙ ap some none_left)));
    known = λ x m. (keys x).0 (Elem-keep (λ id. is_zero (in_degree tasks id)) x order m).0;
  }
    where
      zero_of : (n : ℕ) → is_zero (some n) ≡ true → n ≡ 0
      zero_of zero h = refl
      zero_of (suc n) h = cc

  -- The tasks of a sorting, each exactly once.
  Drained-length : (result : List Task) → Drained tasks [] result → length result ≡ length tasks
  Drained-length result d =
      let within : (x : String) → Elem x (ids result) → Elem x (ids tasks) = λ x m.
        let (t, n, q) = ids→Task x result m in
        subst (λ y. Elem y (ids tasks)) q (Elem-map (λ (u : Task). u.id) t tasks (d.taken t n)) in
      let onto : (x : String) → Elem x (ids tasks) → Elem x (ids result) = λ x m.
        let (t, n, q) = ids→Task x tasks m in
        elim (d.listed t n) [
          | inl a ↦ absurd a
          | inr r ↦ subst (λ y. Elem y (ids result)) q (Elem-map (λ (u : Task). u.id) t result r)
        ] in
      omega (
        arith,
        Distinct-length (ids result) (ids tasks) d.distinct within,
        Distinct-length (ids tasks) (ids result) distinct onto,
        length-ids result,
        length-ids tasks,
      )

  computes :
      (result : List Task)
      → validate_dependencies_exist tasks ≡ none
      → validate_dag tasks ≡ none
      → drain tasks (suc (length order + length tasks)) (in_degree tasks) [] (start tasks order)
        ≡ some result
      → (length result == length tasks) ≡ true
      → topological_sort order tasks ≡ sorted result
  unfolding topological_sort check_length start
  computes result closed acyclic e same = rw (closed, acyclic, topological_sort) (rw (e, same) refl)

  -- For tasks with distinct ids that pass the checks of dependencies and cycles, and for each order
  -- of the map's keys, TopologicalSort succeeds: it returns the same tasks, each once, and each
  -- after all tasks that it depends on.
  pub topological_sort_lem :
      validate_dependencies_exist tasks ≡ none
      → validate_dag tasks ≡ none
      → (result : List Task) × (topological_sort order tasks ≡ sorted result)
        × Ordered [] result
        × Distinct (ids result)
        × ((t : Task) → Elem t result ↔ Elem t tasks)
  unfolding start
  topological_sort_lem closed acyclic =
      let exist = (validate_dependencies_exist_iff tasks).0 closed in
      let (rank, ranks) = (validate_dag_iff tasks exist distinct).0 acyclic in
      let (result, e, d) =
        drain_lem tasks rank distinct exist ranks (suc (length order + length tasks))
          (in_degree tasks) [] (start tasks order) start-Inv
          (omega (
            arith,
            length-keep (λ id. is_zero (in_degree tasks id)) order,
            waiting-le-length tasks (in_degree tasks),
          )) in
      let same : (length result == length tasks) ≡ true =
        (==_iff (length result) (length tasks)).1 (Drained-length result d) in
      (
        result,
        computes result closed acyclic e same,
        d.ordered,
        d.distinct,
        λ t. (d.taken t, λ m. elim (d.listed t m) [ inl a ↦ absurd a | inr r ↦ r ]),
      )
