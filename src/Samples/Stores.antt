-- ===== src/Samples/Stores.antt =====
-- The store, its pages and the readers of values at samples.
use propeller.Prelude.{
  ℕ, ◌+◌, ◌-◌, ◌^◌, ◌<◌, ◌≤◌, ◌≡◌, ◌↔◌, String, none, List, [], ◌∷◌, arith, length,
}
use propeller.Outcome.{map_ok}
use propeller.Value.{Fields, field, end, float64}
use propeller.Storage.{word_mod, page, lookup, create, update, delete}
use propeller.Storage.Laws.{Creates, Updates, Deletes, store_refines_map}
use propeller.Storage.Paging.{page-none_iff}

abbrev three_keys : List (String × ℕ)
three_keys = ("a", 1) ∷ ("b", 2) ∷ ("c", 3) ∷ []

store_refines_map_example :
    (map_ok lookup (create "b" 7 three_keys) ≡ Creates "b" 7 (lookup three_keys))
    × (map_ok lookup (update "b" 7 three_keys) ≡ Updates "b" 7 (lookup three_keys))
    × (map_ok lookup (delete "b" three_keys) ≡ Deletes "b" (lookup three_keys))
store_refines_map_example = store_refines_map "b" 7 three_keys

-- The largest limit: the sum with an offset of 1 wraps around.
page-none_example :
    (page three_keys 1 (2 ^ 64 - 1) ≡ none)
    ↔ ((1 < length three_keys) × (word_mod ≤ 1 + (2 ^ 64 - 1)))
page-none_example =
    page-none_iff three_keys 1 (2 ^ 64 - 1) (omega arith) (omega arith) (omega arith)

-- The memory that a proplet reports: the float64 of 4096.
abbrev report : Fields
report = field "total_memory_bytes" (float64 4661225614328463360) end
