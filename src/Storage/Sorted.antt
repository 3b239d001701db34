-- ===== src/Storage/Sorted.antt =====
-- The values of the store in the order of their keys (`List` of pkg/storage/memory.go): all of them.
use propeller.Prelude.{
  suc, ◌≡◌, refl, ◌∙◌, ap, String, some, List, [], ◌∷◌, map, str_eq, text_leb, Bool-cases, inl, inr,
  Elem, length,
}
use propeller.Storage.{lookup, insert_sorted, sort_entries, sorted_values}

module _ {V : Type 0} where
  length-insert_sorted :
      (e : String × V) (s : List (String × V)) → length (insert_sorted e s) ≡ suc (length s)
  unfolding insert_sorted
  length-insert_sorted e [] = refl
  length-insert_sorted e (f ∷ s) = elim (Bool-cases (text_leb e.0 f.0)) [
    | inl h ↦ rw h refl
    | inr h ↦ rw h (ap suc (length-insert_sorted e s))
  ]

  length-sort_entries : (s : List (String × V)) → length (sort_entries s) ≡ length s
  unfolding sort_entries
  length-sort_entries [] = refl
  length-sort_entries (e ∷ s) =
      length-insert_sorted e (sort_entries s) ∙ ap suc (length-sort_entries s)

  length-map : (xs : List (String × V)) → length (map (λ e. e.1) xs) ≡ length xs
  length-map [] = refl
  length-map (x ∷ xs) = ap suc (length-map xs)

  pub length-sorted_values : (s : List (String × V)) → length (sorted_values s) ≡ length s
  unfolding sorted_values
  length-sorted_values s = length-map (sort_entries s) ∙ length-sort_entries s

  -- The values of entries, without their keys.
  insert_sorted-Elem :
      (e : String × V) (v : V) (s : List (String × V))
      → Elem v (e.1 ∷ map (λ f. f.1) s)
      → Elem v (map (λ f. f.1) (insert_sorted e s))
  unfolding insert_sorted
  insert_sorted-Elem e v [] h = h
  insert_sorted-Elem e v (f ∷ s) h = elim (Bool-cases (text_leb e.0 f.0)) [
    | inl b ↦ rw b h
    | inr b ↦ rw b (past (insert_sorted-Elem e v s) h)
  ]
    where
      past :
          (Elem v (e.1 ∷ map (λ g. g.1) s) → Elem v (map (λ g. g.1) (insert_sorted e s)))
          → Elem v (e.1 ∷ f.1 ∷ map (λ g. g.1) s)
          → Elem v (f.1 ∷ map (λ g. g.1) (insert_sorted e s))
      past rest (inl q) = inr (rest (inl q))
      past rest (inr (inl q)) = inl q
      past rest (inr (inr m)) = inr (rest (inr m))

  -- What is found under a key is among the values.
  pub lookup-Elem :
      (s : List (String × V)) (k : String) (v : V) → lookup s k ≡ some v → Elem v (sorted_values s)
  unfolding lookup sorted_values sort_entries
  lookup-Elem [] k v h = cc
  lookup-Elem ((j, w) ∷ s) k v h =
      insert_sorted-Elem (j, w) v (sort_entries s)
        (elim (Bool-cases (str_eq j k)) [
          | inl e ↦ inl (let q = rw e at h in cc)
          | inr e ↦ inr (lookup-Elem s k v (rw e at h))
        ])
