-- ===== src/Metrics/Store/Pages.antt =====
-- The pages of the store of metrics in pkg/storage/memory_adapter.go, and lists cut in pages.
use propeller.Prelude.{
  ℕ, zero, suc, ◌+◌, ◌-◌, ◌≤◌, ◌<◌, ◌≡◌, refl, ap, String, Bool, true, false, Option, some, List,
  [], ◌∷◌, ◌++◌, arith, if◌then◌else◌, leb, length, take, drop, min,
}
use propeller.Storage
use propeller.Storage.{word_mod}
use propeller.Storage.Paging.{page_lem}
use propeller.Metrics.Store.{StoredMetrics}

pub append_one : {A : Type 0} (xs ys : List A) (x : A) → (xs ++ x ∷ []) ++ ys ≡ xs ++ x ∷ ys
append_one [] ys x = refl
append_one (z ∷ xs) ys x = ap (λ l. z ∷ l) (append_one xs ys x)

pub append_nil : {A : Type 0} (xs : List A) → xs ++ [] ≡ xs
append_nil [] = refl
append_nil (x ∷ xs) = ap (λ l. x ∷ l) (append_nil xs)

pub take_drop_nil : {A : Type 0} (m n : ℕ) → ◌≡◌ {A = List A} (take m (drop n [])) []
take_drop_nil zero zero = refl
take_drop_nil (suc m) zero = refl
take_drop_nil zero (suc n) = refl
take_drop_nil (suc m) (suc n) = refl

pub both : {A B : Type 0} {a c : A} {b d : B} → a ≡ c → b ≡ d → ◌≡◌ {A = A × B} (a, b) (c, d)
both p q = cc

pub store_list_lem :
    (s : List (String × StoredMetrics)) (scan_offset : ℕ)
    → scan_offset + 100 < word_mod
    → Storage.list s scan_offset 100
      ≡ some
          (take 100 (drop scan_offset (Storage.sorted_values s)), length (Storage.sorted_values s))
unfolding Storage.list
store_list_lem s scan_offset fits = page_lem (Storage.sorted_values s) scan_offset 100 fits

-- A page of at most 100 that reaches the end has all that is left; one that does not is full.
pub short_page :
    (total offset left_over size : ℕ)
    → size ≡ min 100 left_over
    → left_over ≡ total - offset
    → offset ≤ total
    → leb total (offset + size) ≡ true
    → left_over ≤ 100
short_page total offset left_over size h k i e =
    (let le : total ≤ offset + size = ground arith in omega arith)

pub full_page :
    (total offset left_over size : ℕ)
    → size ≡ min 100 left_over
    → left_over ≡ total - offset
    → offset ≤ total
    → leb total (offset + size) ≡ false
    → (size ≡ 100) × (offset + size ≤ total)
full_page total offset left_over size h k i e =
    (let lt : offset + size < total = ground arith in (omega arith, omega arith))

pub nil_of_length : {A : Type 0} (xs : List A) → length xs ≡ 0 → xs ≡ []
nil_of_length [] h = refl
nil_of_length (x ∷ xs) h = absurd (omega arith)

-- The three ends of a round of the loop.
pub round_ends :
    {A F : Type 0} (page : List A) (last : Bool) (found after rest goal : Option F)
    → (page ≡ [] → found ≡ goal)
    → (last ≡ true → after ≡ goal)
    → (last ≡ false → rest ≡ goal)
    → (elim page [ [] ↦ found | d ∷ ds ↦ if last then after else rest ]) ≡ goal
round_ends [] last found after rest goal p q r = p refl
round_ends (d ∷ ds) true found after rest goal p q r = q refl
round_ends (d ∷ ds) false found after rest goal p q r = r refl
