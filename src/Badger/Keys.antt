-- ===== src/Badger/Keys.antt =====
-- The keys of pkg/storage/badger: the prefixes keep the records of different repositories apart.
use Prim.Native.String.{◌++◌ as ◌++ᵗ◌, count}
use propeller.Prelude.{
  ◌≡◌, ◌≢◌, refl, sym, ap, ◌∙◌, String, false, str_eq, eq_iff, arith, Bool-cases, inl, inr,
}
use propeller.Badger.Tasks
use text.Mathlib.TextLemmas.{append_cancel_left, append_inj, append_assoc}

-- Two keys under one prefix are the same exactly when what follows it is.
pub same_prefix : (p x y : String) → str_eq (p ++ᵗ x) (p ++ᵗ y) ≡ str_eq x y
same_prefix p x y = elim (Bool-cases (str_eq x y)) [
  | inl e ↦ rw e ((eq_iff (p ++ᵗ x) (p ++ᵗ y)).1 (ap (λ z. p ++ᵗ z) ((eq_iff x y).0 e)))
  | inr n ↦ rw n (elim (Bool-cases (str_eq (p ++ᵗ x) (p ++ᵗ y))) [
    | inr m ↦ m
    | inl e ↦
        let q = (eq_iff x y).1 (append_cancel_left p x y ((eq_iff (p ++ᵗ x) (p ++ᵗ y)).0 e)) in
        absurd (ground arith)
  ])
]

-- Texts that begin with different texts of one length are different.
pub apart : (a b x y : String) → count a ≡ count b → str_eq a b ≡ false → (a ++ᵗ x) ≢ (b ++ᵗ y)
apart a b x y size n e = let q = (eq_iff a b).1 (append_inj e size).0 in absurd (ground arith)

distinct : (x y : String) → x ≢ y → str_eq x y ≡ false
distinct x y n = ground (arith, eq_iff x y)

-- No entry of the index of metadata stands under a task's key.
pub meta_idx-task : (k v id j : String) → str_eq (Tasks.meta_idx_key k v id) (Tasks.key j) ≡ false
meta_idx-task k v id j = distinct (Tasks.meta_idx_key k v id) (Tasks.key j) λ e.
    apart "task:" "meta-" j _ refl refl
      (sym e ∙ regroup "meta-idx\0" k "\0" v "\0" id ∙ append_assoc "meta-" "idx\0" _)
  where
    regroup :
        (a b c d e f : String)
        → ((((a ++ᵗ b) ++ᵗ c) ++ᵗ d) ++ᵗ e) ++ᵗ f ≡ a ++ᵗ (b ++ᵗ (c ++ᵗ (d ++ᵗ (e ++ᵗ f))))
    regroup a b c d e f =
        append_assoc (((a ++ᵗ b) ++ᵗ c) ++ᵗ d) e f
        ∙ append_assoc ((a ++ᵗ b) ++ᵗ c) d (e ++ᵗ f)
        ∙ append_assoc (a ++ᵗ b) c (d ++ᵗ (e ++ᵗ f))
        ∙ append_assoc a b (c ++ᵗ (d ++ᵗ (e ++ᵗ f)))
