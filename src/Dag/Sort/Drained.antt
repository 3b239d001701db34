-- ===== src/Dag/Sort/Drained.antt =====
-- The loop over the queue of TopologicalSort (pkg/dag/validator.go) with its invariant.
use propeller.Prelude.{
  ℕ, zero, suc, ◌+◌, ◌<◌, ◌≡◌, ◌⊎◌, refl, sym, ◌∙◌, ap, subst, String, false, Option, some, List,
  [], ◌∷◌, ◌++◌, arith, str_eq, Bool-cases, inl, inr, Elem, Distinct, All, All-Elem, Elem-All,
  length, contains, contains→Elem, Elem→contains,
}
use propeller.Task.{Task}
use propeller.Dag.{find_task}
use propeller.Dag.Exist.{ids, DepsExist}
use propeller.Dag.Find.{find_task_of_Distinct}
use propeller.Dag.Acyclic.{Ranks}
use propeller.Dag.Sort.{dependents, hold, release, drain}
use propeller.Dag.Sort.Counts.{count, left, left_visit, left_zero, zero_left, count-dependents}
use propeller.Dag.Sort.Release.{
  release-degree, release_stays, release_from, release_queued, release_zero,
}
use propeller.Dag.Sort.Rounds.{waiting, release_rounds}

-- Each task of the list comes after all of its dependencies, some of which were visited before.
abbrev pub Ordered : List String → List Task → Type 0
Ordered visited [] = Unit
Ordered visited (t ∷ ts) = All (λ d. Elem d visited) t.depends_on × Ordered (t.id ∷ visited) ts

abbrev Spent : List String → Task → Type 0
Spent visited t = left visited t.depends_on ≡ 0

pub record Inv (all : List Task) (degree : String → Option ℕ) (visited queue : List String)
    : Type 0 where
  pub counted : (t : Task) → Elem t all → degree t.id ≡ some (left visited t.depends_on)
  pub queued : (t : Task) → Elem t all → Elem t.id queue → left visited t.depends_on ≡ 0
  pub reached :
      (t : Task) → Elem t all → left visited t.depends_on ≡ 0 → Elem t.id queue ⊎ Elem t.id visited
  pub known : (x : String) → Elem x queue → Elem x (ids all)

pub record Drained (all : List Task) (visited : List String) (result : List Task) : Type 0 where
  pub ordered : Ordered visited result
  pub listed : (t : Task) → Elem t all → Elem t.id visited ⊎ Elem t result
  pub taken : (t : Task) → Elem t result → Elem t all
  pub fresh : (t : Task) → Elem t result → ¬ Elem t.id visited
  pub distinct : Distinct (ids result)

pub ids→Task : (x : String) (ts : List Task) → Elem x (ids ts) → (t : Task) × Elem t ts × (t.id ≡ x)
ids→Task x [] m = absurd m
ids→Task x (t ∷ ts) (inl q) = (t, inl refl, q)
ids→Task x (t ∷ ts) (inr m) = let (u, n, q) = ids→Task x ts m in (u, inr n, q)

same_task :
    (ts : List Task) (t u : Task) → Distinct (ids ts) → Elem t ts → Elem u ts → t.id ≡ u.id → t ≡ u
unfolding find_task
same_task ts t u d m n q =
    some_inj
      (sym (find_task_of_Distinct ts t d m) ∙ ap (find_task ts) q ∙ find_task_of_Distinct ts u d n)
  where
    some_inj : some t ≡ some u → t ≡ u
    some_inj e = cc

hold-Elem : (x task_id id : String) (ds : List String) → Elem x (hold task_id id ds) → task_id ≡ x
unfolding hold
hold-Elem x task_id id [] m = absurd m
hold-Elem x task_id id (d ∷ ds) m = elim (Bool-cases (str_eq d id)) [
  | inl e ↦ here (hold-Elem x task_id id ds) (rw e at m)
  | inr e ↦ hold-Elem x task_id id ds (rw e at m)
]
  where
    here :
        (Elem x (hold task_id id ds) → task_id ≡ x)
        → Elem x (task_id ∷ hold task_id id ds)
        → task_id ≡ x
    here rest (inl q) = q
    here rest (inr n) = rest n

append-Elem : (x : String) (xs ys : List String) → Elem x (xs ++ ys) → Elem x xs ⊎ Elem x ys
append-Elem x [] ys m = inr m
append-Elem x (y ∷ xs) ys (inl q) = inl (inl q)
append-Elem x (y ∷ xs) ys (inr m) = elim (append-Elem x xs ys m) [
  | inl a ↦ inl (inr a)
  | inr b ↦ inr b
]

dependents-Elem : (x id : String) (ts : List Task) → Elem x (dependents ts id) → Elem x (ids ts)
unfolding dependents
dependents-Elem x id [] m = absurd m
dependents-Elem x id (t ∷ ts) m =
    elim (append-Elem x (hold t.id id t.depends_on) (dependents ts id) m) [
      | inl a ↦ inl (hold-Elem x t.id id t.depends_on a)
      | inr b ↦ inr (dependents-Elem x id ts b)
    ]

module _ (all : List Task) (rank : String → ℕ) (distinct : Distinct (ids all))
    (exist : DepsExist all all) (ranks : Ranks rank all) where
  -- A round on an id that was not visited.
  visit-Inv :
      (degree : String → Option ℕ) (visited queue : List String) (id : String)
      → contains visited id ≡ false
      → Inv all degree visited (id ∷ queue)
      → Inv all
          (release (dependents all id) degree queue).0
          (id ∷ visited)
          (release (dependents all id) degree queue).1
  visit-Inv degree visited queue id n i =
      let taken_off : (t : Task)
          → left (id ∷ visited) t.depends_on + count id t.depends_on ≡ left visited t.depends_on =
        λ t. left_visit id visited t.depends_on n in
      let named : (t : Task) → Elem t all → count t.id (dependents all id) ≡ count id t.depends_on =
        λ t m. count-dependents t id all distinct m in
      let counted' : (t : Task)
          → Elem t all
          → (release (dependents all id) degree queue).0 t.id
            ≡ some (left (id ∷ visited) t.depends_on) =
        λ t m.
          release-degree (dependents all id) degree queue t.id (left visited t.depends_on)
            (i.counted t m) (omega (arith, taken_off t, named t m))
          ∙ ap some (omega (arith, taken_off t, named t m)) in
      record {
        counted = counted';
        queued = λ t m q.
            elim (release_queued t.id (dependents all id) degree queue (left visited t.depends_on)
              (i.counted t m) (omega (arith, taken_off t, named t m)) q) [
                | inl a ↦ omega (arith, taken_off t, i.queued t m (inr a))
                | inr z ↦ some_inj (sym (counted' t m) ∙ z)
              ];
        reached = λ t m z.
            elim (release_zero t.id (dependents all id) degree queue (left visited t.depends_on)
              (i.counted t m) (omega (arith, taken_off t, named t m, z))) [
                | inr a ↦ inl a
                | inl zero_before ↦ elim (i.reached t m zero_before) [
                  | inr v ↦ inr (inr v)
                  | inl (inl q) ↦ inr (inl q)
                  | inl (inr q) ↦ inl (release_stays t.id (dependents all id) degree queue q)
                ]
              ];
        known = λ x m. elim (release_from x (dependents all id) degree queue m) [
          | inl a ↦ i.known x (inr a)
          | inr b ↦ dependents-Elem x id all b
        ];
      }
    where
      some_inj : {j k : ℕ} → some j ≡ some k → j ≡ k
      some_inj e = cc

  -- With an empty queue everything has been visited.
  all_visited :
      (degree : String → Option ℕ) (visited : List String)
      → Inv all degree visited []
      → (bound : ℕ) (t : Task) → Elem t all
      → rank t.id < bound
      → Elem t.id visited
  all_visited degree visited i zero t m h = absurd (omega arith)
  all_visited degree visited i (suc bound) t m h =
      let deps : (d : String) → Elem d t.depends_on → Elem d visited = λ d n.
        let (u, at, q) = ids→Task d all (All-Elem _ t.depends_on d (All-Elem _ all t exist m) n) in
        subst (λ y. Elem y visited) q
          (all_visited degree visited i bound u at (omega (arith, ranks t d m n, h, ap rank q))) in
      elim (i.reached t m (zero_left visited t.depends_on deps)) [ inl a ↦ absurd a | inr v ↦ v ]

  pub drain_lem :
      (rounds : ℕ) (degree : String → Option ℕ) (visited queue : List String)
      → Inv all degree visited queue
      → length queue + waiting all degree < rounds
      → (result : List Task) × (drain all rounds degree visited queue ≡ some result)
        × Drained all visited result
  unfolding drain
  drain_lem zero degree visited queue i h = absurd (omega arith)
  drain_lem (suc rounds) degree visited [] i h = (
    [],
    refl,
    record {
      ordered = tt;
      listed = λ t m. inl (all_visited degree visited i (suc (rank t.id)) t m (omega arith));
      taken = λ t m. absurd m;
      fresh = λ t m. absurd m;
      distinct = tt;
    },
  )
  drain_lem (suc rounds) degree visited (id ∷ queue) i h = elim (Bool-cases (contains visited id)) [
    | inl seen ↦
        let i' : Inv all degree visited queue = record {
          counted = i.counted;
          queued = λ t m q. i.queued t m (inr q);
          reached = λ t m z. elim (i.reached t m z) [
            | inr v ↦ inr v
            | inl (inl q) ↦ inr (subst (λ y. Elem y visited) q (contains→Elem visited id seen))
            | inl (inr q) ↦ inl q
          ];
          known = λ x m. i.known x (inr m);
        } in
        let (r, e, d) = drain_lem rounds degree visited queue i' (omega arith) in (r, rw seen e, d)
    | inr new ↦
        let (t, m, q) = ids→Task id all (i.known id (inl refl)) in
        let potential =
          release_rounds all (dependents all id) degree queue (λ x n. dependents-Elem x id all n) in
        let (r, e, d) =
          drain_lem rounds _ (id ∷ visited) _ (visit-Inv degree visited queue id new i)
            (omega (arith, potential)) in
        let found : find_task all id ≡ some t =
          subst (λ y. find_task all y ≡ some t) q (find_task_of_Distinct all t distinct m) in
        (t ∷ r, rw (new, found, e) refl, grow t q m (i.queued t m (inl (sym q))) new r d)
  ]
    where
      grow :
          (t : Task)
          → t.id ≡ id
          → Elem t all
          → left visited t.depends_on ≡ 0
          → contains visited id ≡ false
          → (r : List Task) → Drained all (id ∷ visited) r
          → Drained all visited (t ∷ r)
      grow t q m z new r d = record {
        ordered = (
          Elem-All _ t.depends_on (λ x n. left_zero visited t.depends_on z x n),
          subst (λ y. Ordered (y ∷ visited) r) (sym q) d.ordered,
        );
        listed = λ u n. elim (d.listed u n) [
          | inr a ↦ inr (inr a)
          | inl (inr v) ↦ inl v
          | inl (inl p) ↦ inr (inl (same_task all t u distinct m n (q ∙ p)))
        ];
        taken = λ u n. elim n [ inl p ↦ subst (λ w. Elem w all) p m | inr a ↦ d.taken u a ];
        fresh = λ u n v. elim n [
          | inl p ↦
              let known_id : Elem id visited =
                subst (λ y. Elem y visited) (ap (λ (w : Task). w.id) (sym p) ∙ q) v in
              let c = Elem→contains visited id known_id in ground arith
          | inr a ↦ d.fresh u a (inr v)
        ];
        distinct = (
          λ n. (let (u, a, p) = ids→Task t.id r n in d.fresh u a (inl (sym (p ∙ q)))),
          d.distinct,
        );
      }
