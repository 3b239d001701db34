-- ===== src/Storage/Paging.antt =====
-- Paging in pkg/storage/memory.go: the page that `List` cuts out, and when the cut panics.
use propeller.Prelude.{
  ℕ, zero, suc, ◌+◌, ◌-◌, ◌%◌, ◌≤◌, ◌<◌, min, ◌≡◌, ◌↔◌, refl, false, none, some, List, [], arith,
  ltb, leb, length, take, drop, take_all, drop_all, length-drop, Bool-cases, inl, inr,
}
use propeller.Storage.{word_mod, page}

leb-false→lt : (a b : ℕ) → leb a b ≡ false → b < a
leb-false→lt a b h = ground arith

module _ {A : Type 0} where
  take-nil : (n : ℕ) → ◌≡◌ {A = List A} (take n []) []
  take-nil zero = refl
  take-nil (suc n) = refl

  pub take-min : (n : ℕ) (xs : List A) → take (min n (length xs)) xs ≡ take n xs
  take-min n xs = elim (Bool-cases (leb (length xs) n)) [
    | inl h ↦
        let big : length xs ≤ n = ground arith in
        let cut : min n (length xs) ≡ length xs = omega arith in
        rw (cut, take_all (length xs) xs (omega arith), take_all n xs big)
    | inr h ↦ let cut : min n (length xs) ≡ n = ground arith in rw cut
  ]

  -- Where `offset + limit` is a word, the page is the next `limit` elements after `offset`, or as
  -- many as there are, together with the length of the whole.
  pub page_lem :
      (xs : List A) (offset limit : ℕ)
      → offset + limit < word_mod
      → page xs offset limit ≡ some (take limit (drop offset xs), length xs)
  unfolding page
  page_lem xs offset limit h = elim (Bool-cases (leb (length xs) offset)) [
    | inl past ↦ rw (past, drop_all offset xs (ground arith), take-nil limit)
    | inr within ↦
        let in_order : ltb (min ((offset + limit) % word_mod) (length xs)) offset ≡ false =
          ground arith in
        let size : min ((offset + limit) % word_mod) (length xs) - offset
            ≡ min limit (length (drop offset xs)) =
          omega (arith, length-drop offset xs, leb-false→lt (length xs) offset within) in
        rw (within, in_order, size, take-min limit (drop offset xs))
  ]

  -- A page panics exactly when the offset is inside and the sum of offset and limit wraps around.
  pub page-none_iff :
      (xs : List A) (offset limit : ℕ)
      → offset < word_mod
      → limit < word_mod
      → length xs < word_mod
      → (page xs offset limit ≡ none) ↔ ((offset < length xs) × (word_mod ≤ offset + limit))
  unfolding page
  page-none_iff xs offset limit ho hl hx =
      (λ e. (ground arith, ground arith), λ (i, w). ground arith)
