-- ===== src/Fl/Aggregate/Totals.antt =====
-- FedAvg (pkg/fl/aggregator.go) computes weighted means, and when it refuses the updates.
use mathlib.Core.Option
use propeller.Prelude.{
  ℕ, ◌+◌, ◌-◌, ◌≤◌, ◌<◌, ◌≡◌, refl, sym, ◌∙◌, ap, inl, inr, true, false, Option, none, some, List,
  [], ◌∷◌, arith, ltb, ◌==◌, if◌then◌else◌, Bool-cases, Option-cases, length,
}
use propeller.Value.{Value, arr, Values, Fields, get_field}
use propeller.Fl.Aggregate.{
  ℤ, pos, negsuc, Floats, Update, Aggregated, model, no_updates, overflow, max_int64, zeros,
  weights_of, as_array, initialize_aggregated_weights, validate_and_process_update, take_in,
  aggregate_bias, aggregate_loop, aggregate,
}
use propeller.Fl.Aggregate.Shares.{
  samples_of, sum_samples, Counts, IsInt64, InRange, weight_at, bias_at, as_values, array_at,
  sum_shares, mean, means, means_from, Outcome, IsAverage, ZeroLaws,
}
use propeller.Fl.Aggregate.Means.{
  means_from-zeros, normalize-Outcome, add_share-zero, means_from-skip, means-take_in, bias-add,
}

module _ (fl : Floats) (laws : ZeroLaws fl) where
  -- What one update does to the total, and its weight.
  abbrev Weighed : Update → ℕ → Option (ℕ × ℕ) → Type 0
  Weighed u total none =
      Counts u.update u.num_samples → max_int64 < total + samples_of u.update u.num_samples
  Weighed u total (some (weight, total')) =
      Counts u.update u.num_samples
      × (total' ≡ total + samples_of u.update u.num_samples)
      × (total' ≤ max_int64)
      × (fl.is_zero weight ≡ (samples_of u.update u.num_samples == 0))
      × ((samples_of u.update u.num_samples == 0) ≡ false
          → weight ≡ fl.of_int (samples_of u.update u.num_samples))

  weigh-Weighed :
      (u : Update) (total : ℕ) (m : Option Fields) (n : ℤ)
      → u.update ≡ m
      → u.num_samples ≡ n
      → IsInt64 n
      → total ≤ max_int64
      → Weighed u total (validate_and_process_update fl u total)
  unfolding validate_and_process_update
  weigh-Weighed u total none n e f i h =
      rw (e, validate_and_process_update)
        (tt, omega arith, h, laws.zero_is_zero, λ z. absurd (ground arith))
  weigh-Weighed u total (some m) (negsuc n) e f i h =
      rw (e, validate_and_process_update, f) (λ c. absurd c)
  weigh-Weighed u total (some m) (pos n) e f i h = elim (Bool-cases (ltb (max_int64 - n) total)) [
    | inl big ↦ rw (e, validate_and_process_update, f, big) (λ c. ground arith)
    | inr small ↦
        rw (e, validate_and_process_update, f, small)
          (tt, refl, ground arith, laws.of_int_zero n, λ z. refl)
  ]

  -- An update that adds nothing, and then the rest.
  Outcome-skip :
      (u : Update) (us : List Update) (count : ℕ) (w : Option (List ℕ)) (b total : ℕ)
      (out : Aggregated)
      → Counts u.update u.num_samples
      → (samples_of u.update u.num_samples == 0) ≡ true
      → Outcome fl us count w b total out
      → Outcome fl (u ∷ us) count w b total out
  Outcome-skip u us count w b total (model m) c z (nn, fits, eq, count', mw, mb) = (
    (c, nn),
    ground arith,
    ground arith,
    count',
    mw ∙ rows w,
    mb
        ∙ ap (λ x. mean fl m.total_samples (sum_shares fl bias_at us x))
            (sym (add_share-zero fl (samples_of u.update u.num_samples) (bias_at u.update) b z)),
  )
    where
      rows :
          (w : Option (List ℕ))
          → Option.map (means_from fl us m.total_samples 0) w
            ≡ Option.map (means_from fl (u ∷ us) m.total_samples 0) w
      rows none = refl
      rows (some xs) = ap some (
          means_from-skip fl u us m.total_samples 0 xs (λ j a.
            add_share-zero fl (samples_of u.update u.num_samples) (weight_at j u.update) a z))
  Outcome-skip u us count w b total overflow c z h = λ (d, nn). (let k = h nn in ground arith)
  Outcome-skip u us count w b total no_updates c z h = absurd h

  -- An update that is taken in, and then the rest.
  Outcome-add :
      (n : ℕ) (u : Update) (us : List Update) (count : ℕ) (w : Option (List ℕ)) (b total : ℕ)
      (out : Aggregated)
      → Counts u.update u.num_samples
      → samples_of u.update u.num_samples ≡ n
      → (n == 0) ≡ false
      → Outcome fl us count
          (take_in fl w u (fl.of_int n))
          (aggregate_bias fl b u (fl.of_int n))
          (total + n)
          out
      → Outcome fl (u ∷ us) count w b total out
  Outcome-add n u us count w b total (model m) c e z (nn, fits, eq, count', mw, mb) = (
    (c, nn),
    omega arith,
    omega arith,
    count',
    mw ∙ means-take_in fl u us m.total_samples n w e z,
    mb ∙ ap (mean fl m.total_samples) (bias-add fl u us n b e z),
  )
  Outcome-add n u us count w b total overflow c e z h = λ (d, nn). (let k = h nn in omega arith)
  Outcome-add n u us count w b total no_updates c e z h = absurd h

  loop-Outcome :
      (count : ℕ) (us : List Update) (w : Option (List ℕ)) (b total : ℕ)
      → InRange us
      → total ≤ max_int64
      → Outcome fl us count w b total (aggregate_loop fl count us w b total)
  unfolding aggregate_loop
  loop-Outcome count [] w b total i h = normalize-Outcome fl w b total count h
  loop-Outcome count (u ∷ us) w b total i h =
      after (validate_and_process_update fl u total)
        (weigh-Weighed u total u.update u.num_samples refl refl i.0 h)
        (loop-Outcome count us w b total i.1 h)
        (λ w' b' total' h'. loop-Outcome count us w' b' total' i.1 h')
    where
      after :
          (r : Option (ℕ × ℕ))
          → Weighed u total r
          → Outcome fl us count w b total (aggregate_loop fl count us w b total)
          → ((w' : Option (List ℕ)) (b' total' : ℕ)
              → total' ≤ max_int64
              → Outcome fl us count w' b' total' (aggregate_loop fl count us w' b' total'))
          → Outcome fl (u ∷ us) count w b total (elim r [
            | none ↦ overflow
            | some (weight, total') ↦
                let skip = aggregate_loop fl count us w b total in
                let add =
                  aggregate_loop fl count us
                    (take_in fl w u weight)
                    (aggregate_bias fl b u weight)
                    total' in
                if fl.is_zero weight then skip else add
          ])
      after none big skip next = λ (c, nn). (let k = big c in omega arith)
      after (some (weight, total')) (c, eq, fits, same, is) skip next =
          elim (Bool-cases (fl.is_zero weight)) [
            | inl z ↦ rw z (Outcome-skip u us count w b total _ c (sym same ∙ z) skip)
            | inr z ↦
                rw (z, is (sym same ∙ z))
                  (Outcome-add (samples_of u.update u.num_samples) u us count w b total _ c refl
                    (sym same ∙ z) (rw (← eq) (next _ _ total' fits)))
          ]

  weights_of-array_at : (m : Option Fields) → weights_of m ≡ array_at m
  unfolding weights_of as_array
  weights_of-array_at none = refl
  weights_of-array_at (some m) = same (get_field m "w")
    where
      same : (v : Option Value) → as_array v ≡ as_values v
      same none = refl
      same (some (arr vs)) = refl
      same (some v) = refl

  initial :
      (u : Update) (us : List Update)
      → initialize_aggregated_weights fl (u ∷ us) ≡ Option.map (zeros fl) (array_at u.update)
  unfolding initialize_aggregated_weights
  initial u us = elim (Option-cases (weights_of u.update)) [
    | inl e ↦ rw (initialize_aggregated_weights, ← weights_of-array_at u.update, e) refl
    | inr (vs, e) ↦ rw (initialize_aggregated_weights, ← weights_of-array_at u.update, e) refl
  ]

  means-start :
      (us : List Update) (total total' : ℕ) (w : Option Values)
      → total' ≡ total
      → Option.map (means_from fl us total' 0) (Option.map (zeros fl) w)
        ≡ Option.map (means fl us total 0) w
  means-start us total total' none e = refl
  means-start us total total' (some vs) e = rw e (ap some (means_from-zeros fl us total 0 vs))

  Outcome-IsAverage :
      (u : Update) (us : List Update) (out : Aggregated)
      → Outcome fl
          (u ∷ us)
          (length (u ∷ us))
          (Option.map (zeros fl) (array_at u.update))
          fl.zero_float
          0
          out
      → IsAverage fl (u ∷ us) out
  Outcome-IsAverage u us (model m) (nn, fits, eq, count, mw, mb) =
      let same : m.total_samples ≡ sum_samples (u ∷ us) = omega arith in
      (
        nn,
        omega arith,
        same,
        count,
        mw ∙ means-start (u ∷ us) (sum_samples (u ∷ us)) m.total_samples (array_at u.update) same,
        mb ∙ ap (λ k. mean fl k (sum_shares fl bias_at (u ∷ us) fl.zero_float)) same,
      )
  Outcome-IsAverage u us overflow h = λ nn. (let k = h nn in omega arith)
  Outcome-IsAverage u us no_updates h = absurd h

  -- Given at least one update, and every number of samples in the range of its type: the updates
  -- are refused only if one with data has a negative number of samples or the samples of those with
  -- data add up to more than an int64 holds. A model is made only if neither is so. Its total is that
  -- sum; its array "w" is as long as that of the first update, and each entry of it, and its "b", is
  -- the sum, over the updates with data and samples, of the number there times the samples, divided
  -- by the total, if that is not 0.
  pub aggregate_total :
      (u : Update) (us : List Update)
      → InRange (u ∷ us)
      → IsAverage fl (u ∷ us) (aggregate fl (u ∷ us))
  unfolding aggregate
  aggregate_total u us i =
      Outcome-IsAverage u us (aggregate fl (u ∷ us))
        (rw (← initial u us) (loop-Outcome _ (u ∷ us) _ _ 0 i (omega arith)))
