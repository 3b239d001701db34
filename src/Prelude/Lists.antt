-- ===== src/Prelude/Lists.antt =====
-- Lists measured and indexed by the native numbers, under the library's names.
use Prim.Native.Nat.{ℕ, zero, suc, ◌+◌, ◌-◌, ◌≤◌, min}
use mathlib.Core.Path.{◌≡◌, refl, ap, sym, subst, ◌∙◌}
use mathlib.Core.Logic.{◌⊎◌, inl, inr}
use mathlib.Core.Bool.{Bool, true}
use mathlib.Core.List.{List, [], ◌∷◌, ◌++◌, map}
use mathlib.Core.Option.{Option, none, some}
use native.Mathlib.Omega.{arith}
use propeller.Prelude.Tests.{if◌then◌else◌, Bool-cases}

-- Every element has the property; it computes to a tuple.
abbrev pub All {ℓ κ} : {A : Type ℓ} → (A → Type κ) → List A → Type κ
All P [] = Unit
All P (x ∷ xs) = P x × All P xs

-- One of the elements; it computes to a sum.
abbrev pub Elem : {A : Type 0} → A → List A → Type 0
Elem a [] = ⊥
Elem a (x ∷ xs) = (x ≡ a) ⊎ Elem a xs

-- No element stands twice.
abbrev pub Distinct : {A : Type 0} → List A → Type 0
Distinct [] = Unit
Distinct (x ∷ xs) = (¬ Elem x xs) × Distinct xs

zero_out : (k : ℕ) → k ≡ 0 + k
zero_out k = omega arith

suc_out : (j k : ℕ) → suc (j + k) ≡ suc j + k
suc_out j k = omega arith

module _ {ℓ} {A : Type ℓ} where
  abbrev pub length : List A → ℕ
  length [] = 0
  length (x ∷ xs) = suc (length xs)

  abbrev pub get_elem? : List A → ℕ → Option A
  get_elem? [] i = none
  get_elem? (x ∷ xs) zero = some x
  get_elem? (x ∷ xs) (suc i) = get_elem? xs i

  abbrev pub take : ℕ → List A → List A
  take zero xs = []
  take (suc n) [] = []
  take (suc n) (x ∷ xs) = x ∷ take n xs

  abbrev pub drop : ℕ → List A → List A
  drop zero xs = xs
  drop (suc n) [] = []
  drop (suc n) (x ∷ xs) = drop n xs

  -- The elements that pass a test, in order.
  abbrev pub keep : (A → Bool) → List A → List A
  keep p [] = []
  keep p (x ∷ xs) = if p x then x ∷ keep p xs else keep p xs

  pub length-append : (xs ys : List A) → length (xs ++ ys) ≡ length xs + length ys
  length-append [] ys = omega arith
  length-append (x ∷ xs) ys = omega (arith, length-append xs ys)

  pub length-take : (n : ℕ) (xs : List A) → length (take n xs) ≡ min n (length xs)
  length-take zero xs = omega arith
  length-take (suc n) [] = omega arith
  length-take (suc n) (x ∷ xs) = omega (arith, length-take n xs)

  pub length-drop : (n : ℕ) (xs : List A) → length (drop n xs) ≡ length xs - n
  length-drop zero xs = omega arith
  length-drop (suc n) [] = omega arith
  length-drop (suc n) (x ∷ xs) = omega (arith, length-drop n xs)

  pub take-append-drop : (n : ℕ) (xs : List A) → take n xs ++ drop n xs ≡ xs
  take-append-drop zero xs = refl
  take-append-drop (suc n) [] = refl
  take-append-drop (suc n) (x ∷ xs) = rw (take-append-drop n xs)

  pub drop_all : (n : ℕ) (xs : List A) → length xs ≤ n → drop n xs ≡ []
  drop_all zero [] h = refl
  drop_all zero (x ∷ xs) h = absurd (omega arith)
  drop_all (suc n) [] h = refl
  drop_all (suc n) (x ∷ xs) h = drop_all n xs (omega arith)

  pub take_all : (n : ℕ) (xs : List A) → length xs ≤ n → take n xs ≡ xs
  take_all zero [] h = refl
  take_all zero (x ∷ xs) h = absurd (omega arith)
  take_all (suc n) [] h = refl
  take_all (suc n) (x ∷ xs) h = rw (take_all n xs (omega arith))

  pub drop-drop : (m n : ℕ) (xs : List A) → drop m (drop n xs) ≡ drop (n + m) xs
  drop-drop m zero xs = ap (λ k. drop k xs) (zero_out m)
  drop-drop zero (suc n) [] = ap (λ k. drop k []) (suc_out n zero)
  drop-drop (suc m) (suc n) [] = ap (λ k. drop k []) (suc_out n (suc m))
  drop-drop m (suc n) (x ∷ xs) = drop-drop m n xs ∙ ap (λ k. drop k (x ∷ xs)) (suc_out n m)

module _ {A : Type 0} where
  pub Elem-keep :
      (p : A → Bool) (a : A) (xs : List A) → Elem a (keep p xs) → Elem a xs × (p a ≡ true)
  Elem-keep p a [] h = absurd h
  Elem-keep p a (x ∷ xs) h = elim (Bool-cases (p x)) [
    | inl e ↦ first e (Elem-keep p a xs) (rw e at h)
    | inr e ↦ let r = Elem-keep p a xs (rw e at h) in (inr r.0, r.1)
  ]
    where
      first :
          p x ≡ true
          → (Elem a (keep p xs) → Elem a xs × (p a ≡ true))
          → Elem a (x ∷ keep p xs)
          → Elem a (x ∷ xs) × (p a ≡ true)
      first e rest (inl q) = (inl q, subst (λ y. p y ≡ true) q e)
      first e rest (inr m) = let r = rest m in (inr r.0, r.1)

  pub keep-Elem : (p : A → Bool) (a : A) (xs : List A) → Elem a xs → p a ≡ true → Elem a (keep p xs)
  keep-Elem p a [] m e = absurd m
  keep-Elem p a (x ∷ xs) (inl q) e = rw (subst (λ y. p y ≡ true) (sym q) e) (inl q)
  keep-Elem p a (x ∷ xs) (inr m) e = elim (Bool-cases (p x)) [
    | inl t ↦ rw t (inr (keep-Elem p a xs m e))
    | inr t ↦ rw t (keep-Elem p a xs m e)
  ]

  pub All-Elem : (P : A → Type 0) (xs : List A) (a : A) → All P xs → Elem a xs → P a
  All-Elem P [] a h m = absurd m
  All-Elem P (x ∷ xs) a h (inl e) = subst P e h.0
  All-Elem P (x ∷ xs) a h (inr m) = All-Elem P xs a h.1 m

  pub Elem-All : (P : A → Type 0) (xs : List A) → ((a : A) → Elem a xs → P a) → All P xs
  Elem-All P [] h = tt
  Elem-All P (x ∷ xs) h = (h x (inl refl), Elem-All P xs (λ a m. h a (inr m)))

  pub Elem-map : {B : Type 0} (f : A → B) (a : A) (xs : List A) → Elem a xs → Elem (f a) (map f xs)
  Elem-map f a [] m = absurd m
  Elem-map f a (x ∷ xs) (inl e) = inl (ap f e)
  Elem-map f a (x ∷ xs) (inr m) = inr (Elem-map f a xs m)
