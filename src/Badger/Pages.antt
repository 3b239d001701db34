-- ===== src/Badger/Pages.antt =====
-- The listings of pkg/storage/badger/init.go: the loop with two counters cuts a page.
use propeller.Prelude.{
  ◌≡◌, ◌≤◌, ◌+◌, refl, sym, ℕ, zero, suc, String, true, false, List, [], ◌∷◌, take, drop, length,
  ltb, leb, inl, inr, arith,
}
use propeller.Outcome.{Result, ok, err, map_ok, Result-cases}
use propeller.Badger.{
  Engine, Codec, ◌>>=◌, walk, list_with_prefix, count_with_prefix, wrap, decode_all, list_records,
}
use propeller.Errors.{query_error}

-- The values of items, unless one cannot be copied: then the first such failure.
unfoldable pub copies : List (String × Result String) → Result (List String)
copies [] = ok []
copies ((key, val) ∷ items) = elim val [
  | err e ↦ err e
  | ok bytes ↦ map_ok (λ rest. bytes ∷ rest) (copies items)
]

copies-nil : (n : ℕ) → copies (take n []) ≡ ok []
unfolding copies
copies-nil zero = refl
copies-nil (suc n) = refl

module _ (db : Engine) (offset limit : ℕ) where
  walk-take :
      (skipped count left : ℕ) (items : List (String × Result String))
      → offset ≤ skipped
      → count + left ≡ limit
      → walk db offset limit skipped count items ≡ copies (take left items)
  unfolding walk copies
  walk-take skipped count zero [] h k = refl
  walk-take skipped count (suc left) [] h k = refl
  walk-take skipped count zero ((key, val) ∷ items) h k =
      let past : ltb skipped offset ≡ false = ground arith in
      let full : leb limit count ≡ true = ground arith in rw (walk, past, full) refl
  walk-take skipped count (suc left) ((key, val) ∷ items) h k =
      let past : ltb skipped offset ≡ false = ground arith in
      let more : leb limit count ≡ false = ground arith in
      let rest = walk-take skipped (suc count) left items h (omega (arith, k)) in
      elim (Result-cases val) [
        | inl (bytes, e) ↦ rw (walk, past, more, e, copies, rest) refl
        | inr (f, e) ↦ rw (walk, past, more, e, copies) refl
      ]

  walk-drop :
      (skipped left : ℕ) (items : List (String × Result String))
      → skipped + left ≡ offset
      → walk db offset limit skipped 0 items ≡ copies (take limit (drop left items))
  unfolding walk
  walk-drop skipped zero items h = walk-take skipped 0 limit items (omega (arith, h)) (omega arith)
  walk-drop skipped (suc left) [] h = sym (copies-nil limit)
  walk-drop skipped (suc left) ((key, val) ∷ items) h =
      let before : ltb skipped offset ≡ true = ground arith in
      rw (walk, before) (walk-drop (suc skipped) left items (omega (arith, h)))

-- The page of the records under a prefix, with the count of all of them.
unfoldable pub page_under :
    {R : Type 0} (db : Engine) → Codec R → String → ℕ → ℕ → db.State → Result (List R × ℕ)
unfolding copies decode_all
page_under db json prefix offset limit s = elim (db.scan s prefix) [
  | err e ↦ err (query_error e)
  | ok items ↦ do
    values ← wrap query_error (copies (take limit (drop offset items)))
    records ← decode_all json values
    ok (records, length items)
]

-- For every offset and limit, a listing is the next `limit` records after `offset` in the order of
-- the keys under the prefix, together with the count of all keys under it; it fails where the
-- database does, or where one of the records on the page cannot be read or decoded, and there only.
pub list_records_lem :
    {R : Type 0} (db : Engine) (json : Codec R) (prefix : String) (offset limit : ℕ) (s : db.State)
    → list_records db json prefix offset limit s ≡ page_under db json prefix offset limit s
unfolding list_records page_under count_with_prefix list_with_prefix
list_records_lem db json prefix offset limit s = elim (Result-cases (db.scan s prefix)) [
  | inr (e, q) ↦ rw (list_records, page_under, count_with_prefix, list_with_prefix, q) refl
  | inl (items, q) ↦
      rw
        (
          list_records,
          page_under,
          count_with_prefix,
          list_with_prefix,
          q,
          walk-drop db offset limit 0 offset items (omega arith),
        )
        refl
]
