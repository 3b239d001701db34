-- ===== src/Fl/Aggregate/Means.antt =====
-- The means of federated averaging (pkg/fl/aggregator.go): what one update adds to the sums, and the
-- division at the end.
use mathlib.Core.Option
use propeller.Prelude.{
  ℕ, suc, ◌+◌, ◌≤◌, ◌≡◌, refl, sym, ◌∙◌, ap, inl, inr, true, false, Option, none, some, List, [],
  ◌∷◌, arith, ltb, ◌==◌, Bool-cases, Option-cases, map,
}
use propeller.Value.{Value, float64, arr, Values, empty, item, Fields, get_field}
use propeller.Fl.Aggregate.{
  Floats, Update, max_int64, zeros, weights_of, as_array, add_rows, add_weighted, aggregate_weights,
  add_bias, bias_of, normalize_all, take_in, aggregate_bias, normalize,
}
use propeller.Fl.Aggregate.Shares.{
  samples_of, value_at, element, weight_at, bias_at, add_share, sum_shares, means, means_from,
  Outcome,
}

module _ (fl : Floats) where
  means_from-some :
      (total i : ℕ) (w : List ℕ)
      → ltb 0 total ≡ true
      → means_from fl [] total i w ≡ map (λ a. fl.div a (fl.of_int total)) w
  means_from-some total i [] e = refl
  means_from-some total i (a ∷ w) e = rw (e, means_from-some total (suc i) w e) refl

  means_from-none :
      (total i : ℕ) (w : List ℕ) → ltb 0 total ≡ false → means_from fl [] total i w ≡ w
  means_from-none total i [] e = refl
  means_from-none total i (a ∷ w) e = rw (e, means_from-none total (suc i) w e) refl

  pub means_from-zeros :
      (us : List Update) (total i : ℕ) (vs : Values)
      → means_from fl us total i (zeros fl vs) ≡ means fl us total i vs
  unfolding zeros
  means_from-zeros us total i empty = refl
  means_from-zeros us total i (item v vs) = rw (means_from-zeros us total (suc i) vs) refl

  pub normalize-Outcome :
      (w : Option (List ℕ)) (b total count : ℕ)
      → total ≤ max_int64
      → Outcome fl [] count w b total (normalize fl w b total count)
  unfolding normalize normalize_all
  normalize-Outcome none b total count h = elim (Bool-cases (ltb 0 total)) [
    | inl e ↦ rw (normalize, e) (tt, omega arith, omega arith, refl, refl, rw e refl)
    | inr e ↦ rw (normalize, e) (tt, omega arith, omega arith, refl, refl, rw e refl)
  ]
  normalize-Outcome (some w) b total count h = elim (Bool-cases (ltb 0 total)) [
    | inl e ↦
        rw (normalize, e)
          (
            tt,
            omega arith,
            omega arith,
            refl,
            ap some (sym (means_from-some total 0 w e)),
            rw e refl,
          )
    | inr e ↦
        rw (normalize, e)
          (
            tt,
            omega arith,
            omega arith,
            refl,
            ap some (sym (means_from-none total 0 w e)),
            rw e refl,
          )
  ]

  add_weighted-share :
      (v : Value) (n a : ℕ)
      → (n == 0) ≡ false
      → add_weighted fl v (fl.of_int n) a ≡ add_share fl n (some v) a
  unfolding add_weighted
  add_weighted-share (float64 f) n a z = rw z refl
  add_weighted-share v n a z = refl

  add_bias-share :
      (v : Option Value) (n b : ℕ)
      → (n == 0) ≡ false
      → add_bias fl v (fl.of_int n) b ≡ add_share fl n v b
  unfolding add_bias
  add_bias-share none n b z = refl
  add_bias-share (some (float64 f)) n b z = rw z refl
  add_bias-share (some v) n b z = refl

  add_rows-empty : (rows : List ℕ) (weight : ℕ) → add_rows fl rows empty weight ≡ rows
  unfolding add_rows
  add_rows-empty [] weight = refl
  add_rows-empty (a ∷ rows) weight = refl

  -- The rows with one more array of values in them, `vs`, the rest of the whole from index `i` on.
  rows-add :
      (u : Update) (us : List Update) (total n i : ℕ) (rows : List ℕ) (vs : Values)
      → samples_of u.update u.num_samples ≡ n
      → (n == 0) ≡ false
      → ((k j : ℕ) → j ≡ k + i → weight_at j u.update ≡ value_at k vs)
      → means_from fl us total i (add_rows fl rows vs (fl.of_int n))
        ≡ means_from fl (u ∷ us) total i rows
  unfolding add_rows
  rows-add u us total n i [] vs e z h = refl
  rows-add u us total n i (a ∷ rows) empty e z h =
      let rest =
        rows-add u us total n (suc i) rows empty e z (λ k j q. h (suc k) j (omega arith)) in
      rw (e, h 0 i (omega arith)) (rw (← rest, add_rows-empty rows (fl.of_int n)) refl)
  rows-add u us total n i (a ∷ rows) (item v vs) e z h =
      let rest = rows-add u us total n (suc i) rows vs e z (λ k j q. h (suc k) j (omega arith)) in
      rw (e, h 0 i (omega arith), add_weighted-share v n a z, rest) refl

  pub add_share-zero : (n : ℕ) (v : Option Value) (a : ℕ) → (n == 0) ≡ true → add_share fl n v a ≡ a
  add_share-zero n none a z = refl
  add_share-zero n (some (float64 f)) a z = rw z refl
  add_share-zero n (some v) a z = refl

  add_share-none : (n a : ℕ) (v : Option Value) → v ≡ none → add_share fl n v a ≡ a
  add_share-none n a v e = rw e refl

  -- An update that adds to no entry changes no mean.
  pub means_from-skip :
      (u : Update) (us : List Update) (total i : ℕ) (rows : List ℕ)
      → ((j a : ℕ) → add_share fl (samples_of u.update u.num_samples) (weight_at j u.update) a ≡ a)
      → means_from fl us total i rows ≡ means_from fl (u ∷ us) total i rows
  means_from-skip u us total i [] h = refl
  means_from-skip u us total i (a ∷ rows) h =
      rw (h i a, means_from-skip u us total (suc i) rows h) refl

  abbrev entry : ℕ → Option Values → Option Value
  entry i none = none
  entry i (some vs) = value_at i vs

  element-as_array : (i : ℕ) (v : Option Value) → element i v ≡ entry i (as_array v)
  unfolding as_array
  element-as_array i none = refl
  element-as_array i (some (arr vs)) = refl
  element-as_array i (some v) = refl

  weight_at-weights_of : (i : ℕ) (m : Option Fields) → weight_at i m ≡ entry i (weights_of m)
  unfolding weights_of
  weight_at-weights_of i none = refl
  weight_at-weights_of i (some m) = element-as_array i (get_field m "w")

  pub means-take_in :
      (u : Update) (us : List Update) (total n : ℕ) (w : Option (List ℕ))
      → samples_of u.update u.num_samples ≡ n
      → (n == 0) ≡ false
      → Option.map (means_from fl us total 0) (take_in fl w u (fl.of_int n))
        ≡ Option.map (means_from fl (u ∷ us) total 0) w
  unfolding take_in aggregate_weights
  means-take_in u us total n none e z = refl
  means-take_in u us total n (some w) e z = elim (Option-cases (weights_of u.update)) [
    | inl q ↦
        rw (aggregate_weights, q)
          (ap some (
            means_from-skip u us total 0 w (λ j a.
              add_share-none (samples_of u.update u.num_samples) a (weight_at j u.update)
                (weight_at-weights_of j u.update ∙ ap (entry j) q))))
    | inr (vs, q) ↦
        rw (aggregate_weights, q)
          (ap some (
            rows-add u us total n 0 w vs e z (λ k j same.
              weight_at-weights_of j u.update
              ∙ ap (entry j) q
              ∙ ap (λ x. value_at x vs) (let h = same in omega arith))))
  ]

  pub bias-add :
      (u : Update) (us : List Update) (n b : ℕ)
      → samples_of u.update u.num_samples ≡ n
      → (n == 0) ≡ false
      → sum_shares fl bias_at us (aggregate_bias fl b u (fl.of_int n))
        ≡ sum_shares fl bias_at (u ∷ us) b
  unfolding aggregate_bias bias_of
  bias-add u us n b e z = rw e (
      ap (sum_shares fl bias_at us)
        (add_bias-share (bias_of fl u.update) n b z ∙ ap (λ v. add_share fl n v b) (same u.update)))
    where
      same : (m : Option Fields) → bias_of fl m ≡ bias_at m
      same none = refl
      same (some m) = refl
