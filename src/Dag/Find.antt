-- ===== src/Dag/Find.antt =====
-- The map from ids to tasks that pkg/dag/validator.go builds.
use propeller.Prelude.{
  ◌≡◌, sym, String, some, List, [], ◌∷◌, arith, str_eq, eq_iff, eq_refl, Bool-cases, Option-cases,
  inl, inr, Elem, Distinct, ◌∙◌, ap, Elem-map, subst,
}
use propeller.Task.{Task}
use propeller.Dag.{find_task}
use propeller.Dag.Exist.{ids}

-- What the map holds was in the slice, under its own id.
pub find_task-Elem :
    (all : List Task) (id : String) (t : Task)
    → find_task all id ≡ some t
    → Elem t all × (t.id ≡ id)
unfolding find_task
find_task-Elem [] id t h = cc
find_task-Elem (u ∷ us) id t h = elim (Option-cases (find_task us id)) [
  | inl e ↦ elim (Bool-cases (str_eq u.id id)) [
    | inl same ↦
        let eq : u ≡ t = ground arith in
        (inl eq, ap (λ (v : Task). v.id) (sym eq) ∙ (eq_iff u.id id).0 same)
    | inr other ↦ absurd (ground arith)
  ]
  | inr (v, e) ↦ let r = find_task-Elem us id t (ground arith) in (inr r.0, r.1)
]

pub find_task-exists :
    (all : List Task) (id : String) → Elem id (ids all) → (t : Task) × (find_task all id ≡ some t)
unfolding find_task
find_task-exists [] id m = absurd m
find_task-exists (u ∷ us) id (inr n) = let (v, f) = find_task-exists us id n in (v, rw f)
find_task-exists (u ∷ us) id (inl q) = elim (Option-cases (find_task us id)) [
  | inr (v, e) ↦ (v, rw e)
  | inl e ↦ (u, ground (arith, eq_iff u.id id))
]

-- With distinct ids each task of the slice is the one that the map holds.
pub find_task_of_Distinct :
    (all : List Task) (t : Task) → Distinct (ids all) → Elem t all → find_task all t.id ≡ some t
unfolding find_task
find_task_of_Distinct [] t d m = absurd m
find_task_of_Distinct (u ∷ us) t d (inr m) = rw (find_task_of_Distinct us t d.1 m)
find_task_of_Distinct (u ∷ us) t d (inl e) = elim (Option-cases (find_task us t.id)) [
  | inl n ↦ rw (n, e, eq_refl)
  | inr (v, f) ↦
      let (listed, same) = find_task-Elem us t.id v f in
      absurd (
        d.0 (
          subst (λ k. Elem k (ids us)) (same ∙ ap (λ (w : Task). w.id) (sym e))
            (Elem-map (λ (w : Task). w.id) v us listed)))
]
