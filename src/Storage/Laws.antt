-- ===== src/Storage/Laws.antt =====
-- The in-memory store against a map: what each operation does to what is read back.
use propeller.Prelude.{
  ◌≡◌, refl, String, Option, none, some, List, [], ◌∷◌, arith, str_eq, eq_iff, if◌then◌else◌,
  Bool-cases, Option-cases, inl, inr, ap,
}
use propeller.Errors.{empty_key, entity_exists, not_found}
use mathlib.Core.Path.{fun_ext}
use propeller.Outcome.{Result, ok, err, map_ok}
use propeller.Storage.{lookup, put, remove, create, update, delete}

module _ {V : Type 0} where
  pub lookup-put :
      (k j : String) (v : V) (s : List (String × V))
      → lookup (put k v s) j ≡ (if str_eq k j then some v else lookup s j)
  unfolding lookup put
  lookup-put k j v [] = refl
  lookup-put k j v ((i, w) ∷ s) =
      ground (arith, eq_iff k j, eq_iff i k, eq_iff i j, lookup-put k j v s)

  pub lookup-remove :
      (k j : String) (s : List (String × V))
      → lookup (remove k s) j ≡ (if str_eq k j then none else lookup s j)
  unfolding lookup remove
  lookup-remove k j [] = ground arith
  lookup-remove k j ((i, w) ∷ s) =
      ground (arith, eq_iff k j, eq_iff i k, eq_iff i j, lookup-remove k j s)

-- The same operations on a map, which is a function: an abstract account of the store.
module _ {V : Type 0} (key : String) where
  abbrev pub Creates : V → (String → Option V) → Result (String → Option V)
  Creates v f = if str_eq key "" then err empty_key else elim (f key) [
    | some w ↦ err entity_exists
    | none ↦ ok (λ j. if str_eq key j then some v else f j)
  ]

  abbrev pub Updates : V → (String → Option V) → Result (String → Option V)
  Updates v f = if str_eq key "" then err empty_key else elim (f key) [
    | some w ↦ ok (λ j. if str_eq key j then some v else f j)
    | none ↦ err not_found
  ]

  abbrev pub Deletes : (String → Option V) → Result (String → Option V)
  Deletes f = if str_eq key "" then err empty_key else ok (λ j. if str_eq key j then none else f j)

module _ {V : Type 0} (key : String) (s : List (String × V)) where
  create-refines : (v : V) → map_ok lookup (create key v s) ≡ Creates key v (lookup s)
  unfolding create
  create-refines v = elim (Bool-cases (str_eq key "")) [
    | inl e ↦ rw e
    | inr n ↦ rw n (elim (Option-cases (lookup s key)) [
      | inl a ↦ rw a (ap ok (fun_ext λ j. lookup-put key j v s))
      | inr (w, a) ↦ rw a
    ])
  ]

  update-refines : (v : V) → map_ok lookup (update key v s) ≡ Updates key v (lookup s)
  unfolding update
  update-refines v = elim (Bool-cases (str_eq key "")) [
    | inl e ↦ rw e
    | inr n ↦ rw n (elim (Option-cases (lookup s key)) [
      | inl a ↦ rw a
      | inr (w, a) ↦ rw a (ap ok (fun_ext λ j. lookup-put key j v s))
    ])
  ]

  delete-refines : map_ok lookup (delete key s) ≡ Deletes key (lookup s)
  unfolding delete
  delete-refines = elim (Bool-cases (str_eq key "")) [
    | inl e ↦ rw e
    | inr n ↦ rw n (ap ok (fun_ext λ j. lookup-remove key j s))
  ]

-- Reading the store after an operation is reading a map after the same operation on the map, with
-- the same errors, for creation, update and deletion under every key.
pub store_refines_map :
    {V : Type 0} (key : String) (v : V) (s : List (String × V))
    → (map_ok lookup (create key v s) ≡ Creates key v (lookup s))
      × (map_ok lookup (update key v s) ≡ Updates key v (lookup s))
      × (map_ok lookup (delete key s) ≡ Deletes key (lookup s))
store_refines_map key v s = (create-refines key s v, update-refines key s v, delete-refines key s)
