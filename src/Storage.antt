-- ===== src/Storage.antt =====
-- pkg/storage/memory.go: the in-memory store, a map from keys to values behind a mutex, so that
-- each operation is one step. The repositories of pkg/storage/memory_adapter.go keep values of one
-- type each in a store of their own, so the type assertions on what they read never fail, and the
-- store is generic in that type. A Go map is a list of its entries.
pub mod Laws
pub mod Paging
pub mod Sorted
use propeller.Prelude.{
  ℕ, ◌+◌, ◌-◌, ◌%◌, ◌^◌, min, String, Bool, Option, none, some, List, [], ◌∷◌, str_eq,
  if◌then◌else◌, ltb, leb, length, take, drop, text_leb, map,
}
use propeller.Errors.{Err, empty_key, entity_exists, not_found}
use propeller.Outcome.{Result, ok, err}

abbrev pub word_mod : ℕ
word_mod = 2 ^ 64

module _ {V : Type 0} where
  -- `val, ok := s.data[key]`.
  unfoldable pub lookup : List (String × V) → String → Option V
  lookup [] key = none
  lookup ((k, v) ∷ s) key = if str_eq k key then some v else lookup s key

  -- `s.data[key] = value`.
  unfoldable pub put : String → V → List (String × V) → List (String × V)
  put key value [] = (key, value) ∷ []
  put key value ((k, v) ∷ s) = if str_eq k key then (key, value) ∷ s else (k, v) ∷ put key value s

  -- `delete(s.data, key)`.
  unfoldable pub remove : String → List (String × V) → List (String × V)
  remove key [] = []
  remove key ((k, v) ∷ s) = if str_eq k key then remove key s else (k, v) ∷ remove key s

  unfoldable pub create : String → V → List (String × V) → Result (List (String × V))
  create key value s =
      if str_eq key ""
      then err empty_key
      else elim (lookup s key) [ some v ↦ err entity_exists | none ↦ ok (put key value s) ]

  unfoldable pub get : String → List (String × V) → Result V
  get key s =
      if str_eq key ""
      then err empty_key
      else elim (lookup s key) [ some v ↦ ok v | none ↦ err not_found ]

  unfoldable pub update : String → V → List (String × V) → Result (List (String × V))
  update key value s =
      if str_eq key ""
      then err empty_key
      else elim (lookup s key) [ some v ↦ ok (put key value s) | none ↦ err not_found ]

  unfoldable pub delete : String → List (String × V) → Result (List (String × V))
  delete key s = if str_eq key "" then err empty_key else ok (remove key s)

  -- `sort.Strings` on the keys, carried along with their values.
  insert_sorted : String × V → List (String × V) → List (String × V)
  insert_sorted e [] = e ∷ []
  insert_sorted e (f ∷ s) = if text_leb e.0 f.0 then e ∷ f ∷ s else f ∷ insert_sorted e s

  unfoldable pub sort_entries : List (String × V) → List (String × V)
  unfolding insert_sorted
  sort_entries [] = []
  sort_entries (e ∷ s) = insert_sorted e (sort_entries s)

  -- The values of all keys, in the order of the keys.
  unfoldable pub sorted_values : List (String × V) → List V
  sorted_values s = map (λ e. e.1) (sort_entries s)

-- The page of `List` for words `offset` and `limit`, from `offset` to `min(offset+limit, total)`,
-- after the check for an offset past the end; `none` is the panic of `make` on the length of a page
-- whose end is before its start.
unfoldable pub page {ℓ} : {A : Type ℓ} → List A → ℕ → ℕ → Option (List A × ℕ)
page xs offset limit =
    let total = length xs in
    if leb total offset
    then some ([], total)
    else let last = min ((offset + limit) % word_mod) total in
      if ltb last offset then none else some (take (last - offset) (drop offset xs), total)

unfoldable pub list : {V : Type 0} → List (String × V) → ℕ → ℕ → Option (List V × ℕ)
list s offset limit = page (sorted_values s) offset limit
