-- ===== src/Repository/Collect.antt =====
-- The tasks of a set of ids, and their order (`listByMetadata` of pkg/storage/memory_adapter.go).
use propeller.Prelude.{
  ◌≡◌, ◌≢◌, ◌↔◌, refl, sym, ◌∙◌, ap, String, true, false, some, List, [], ◌∷◌, arith, str_eq,
  eq_iff, if◌then◌else◌, Bool-cases, Option-cases, inl, inr, contains, Elem, text_leb,
}
use propeller.Task.{Task}
use propeller.Storage
use propeller.Repository.{collect, insert_by_id, sort_by_id}

Elem-insert_by_id : (t u : Task) (ts : List Task) → Elem u (insert_by_id t ts) → Elem u (t ∷ ts)
unfolding insert_by_id
Elem-insert_by_id t u [] h = h
Elem-insert_by_id t u (v ∷ ts) h = elim (Bool-cases (text_leb t.id v.id)) [
  | inl e ↦ rw e at h
  | inr e ↦ past (Elem-insert_by_id t u ts) (rw e at h)
]
  where
    past :
        (Elem u (insert_by_id t ts) → Elem u (t ∷ ts))
        → Elem u (v ∷ insert_by_id t ts)
        → Elem u (t ∷ v ∷ ts)
    past rest (inl e) = inr (inl e)
    past rest (inr m) = elim (rest m) [ inl e ↦ inl e | inr n ↦ inr (inr n) ]

pub Elem-collect :
    (storage : List (String × Task)) (ids : List String) (t : Task)
    → ((id : String) (u : Task) → Storage.lookup storage id ≡ some u → u.id ≡ id)
    → Elem t (collect storage ids)
    → (contains ids t.id ≡ true) × (Storage.lookup storage t.id ≡ some t)
unfolding collect Storage.get contains
Elem-collect storage [] t keyed h = absurd h
Elem-collect storage (id ∷ ids) t keyed h = elim (Bool-cases (str_eq id "")) [
  | inl e ↦ later (Elem-collect storage ids t keyed (rw (e, collect) at h))
  | inr e ↦ elim (Option-cases (Storage.lookup storage id)) [
    | inl f ↦ later (Elem-collect storage ids t keyed (rw (e, f, collect) at h))
    | inr (u, f) ↦ here u f (Elem-collect storage ids t keyed) (rw (e, f, collect) at h)
  ]
]
  where
    later :
        (contains ids t.id ≡ true) × (Storage.lookup storage t.id ≡ some t)
        → ((if str_eq id t.id then true else contains ids t.id) ≡ true)
          × (Storage.lookup storage t.id ≡ some t)
    later (c, l) = (ground arith, l)

    here :
        (u : Task)
        → Storage.lookup storage id ≡ some u
        → (Elem t (collect storage ids)
            → (contains ids t.id ≡ true) × (Storage.lookup storage t.id ≡ some t))
        → Elem t (u ∷ collect storage ids)
        → ((if str_eq id t.id then true else contains ids t.id) ≡ true)
          × (Storage.lookup storage t.id ≡ some t)
    here u f rest (inl same) =
        let at : t.id ≡ id = ap (λ (w : Task). w.id) (sym same) ∙ keyed id u f in
        (ground (arith, eq_iff id t.id), ap (Storage.lookup storage) at ∙ f ∙ ap some same)
    here u f rest (inr m) = later (rest m)

pub collect-Elem :
    (storage : List (String × Task)) (ids : List String) (t : Task)
    → t.id ≢ ""
    → contains ids t.id ≡ true
    → Storage.lookup storage t.id ≡ some t
    → Elem t (collect storage ids)
unfolding collect Storage.get contains
collect-Elem storage [] t named c l = cc
collect-Elem storage (id ∷ ids) t named c l = elim (Bool-cases (str_eq id t.id)) [
  | inl e ↦
      let same = (eq_iff id t.id).0 e in
      let b : str_eq id "" ≡ false = ground (arith, eq_iff id "") in
      let f : Storage.lookup storage id ≡ some t = ap (Storage.lookup storage) same ∙ l in
      rw (b, f, collect) (inl refl)
  | inr n ↦
      let rest = collect-Elem storage ids t named (let c' = rw n at c in c') l in
      elim (Bool-cases (str_eq id "")) [
        | inl e ↦ rw (e, collect) rest
        | inr e ↦ elim (Option-cases (Storage.lookup storage id)) [
          | inl f ↦ rw (e, f, collect) rest
          | inr (u, f) ↦ rw (e, f, collect) (inr rest)
        ]
      ]
]

insert_by_id-Elem : (t u : Task) (ts : List Task) → Elem u (t ∷ ts) → Elem u (insert_by_id t ts)
unfolding insert_by_id
insert_by_id-Elem t u [] h = h
insert_by_id-Elem t u (v ∷ ts) h = elim (Bool-cases (text_leb t.id v.id)) [
  | inl e ↦ rw e h
  | inr e ↦ rw e (past (insert_by_id-Elem t u ts) h)
]
  where
    past :
        (Elem u (t ∷ ts) → Elem u (insert_by_id t ts))
        → Elem u (t ∷ v ∷ ts)
        → Elem u (v ∷ insert_by_id t ts)
    past rest (inl e) = inr (rest (inl e))
    past rest (inr (inl e)) = inl e
    past rest (inr (inr m)) = inr (rest (inr m))

pub Elem-sort_by_id : (u : Task) (ts : List Task) → Elem u (sort_by_id ts) ↔ Elem u ts
unfolding sort_by_id
Elem-sort_by_id u [] = (λ h. h, λ h. h)
Elem-sort_by_id u (t ∷ ts) = (
  λ h. elim (Elem-insert_by_id t u (sort_by_id ts) h) [
    | inl e ↦ inl e
    | inr m ↦ inr ((Elem-sort_by_id u ts).0 m)
  ],
  λ h. insert_by_id-Elem t u (sort_by_id ts) (into (Elem-sort_by_id u ts).1 h),
)
  where
    into : (Elem u ts → Elem u (sort_by_id ts)) → Elem u (t ∷ ts) → Elem u (t ∷ sort_by_id ts)
    into deep (inl e) = inl e
    into deep (inr m) = inr (deep m)
