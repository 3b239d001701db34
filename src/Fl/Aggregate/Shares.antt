-- ===== src/Fl/Aggregate/Shares.antt =====
-- What federated averaging is to compute (pkg/fl/aggregator.go): the total of the samples, and the
-- weighted means of the entries.
use mathlib.Core.Option
use propeller.Prelude.{
  ℕ, zero, suc, ◌+◌, ◌≤◌, ◌<◌, ◌≡◌, true, Option, none, some, List, [], ◌∷◌, All, ltb, ◌==◌,
  if◌then◌else◌, length,
}
use propeller.Value.{Value, float64, arr, Values, empty, item, Fields, get_field}
use propeller.Fl.Aggregate.{
  ℤ, pos, negsuc, Floats, Update, Aggregated, model, no_updates, overflow, max_int64,
}

-- What the code relies on: a float is zero if it is the zero or the conversion of 0, and the
-- conversion of another number is not.
pub record ZeroLaws (fl : Floats) : Type 0 where
  pub zero_is_zero : fl.is_zero fl.zero_float ≡ true
  pub of_int_zero : (n : ℕ) → fl.is_zero (fl.of_int n) ≡ (n == 0)

abbrev pub samples_of : Option Fields → ℤ → ℕ
samples_of none n = 0
samples_of (some m) (pos n) = n
samples_of (some m) (negsuc n) = 0

-- The samples of all updates that carry data.
abbrev pub sum_samples : List Update → ℕ
sum_samples [] = 0
sum_samples (u ∷ us) = samples_of u.update u.num_samples + sum_samples us

abbrev pub Counts : Option Fields → ℤ → Type 0
Counts (some m) (negsuc n) = ⊥
Counts _ _ = Unit

-- No update that carries data has a negative number of samples.
abbrev pub NonNegative : List Update → Type 0
NonNegative = All (λ u. Counts u.update u.num_samples)

abbrev pub IsInt64 : ℤ → Type 0
IsInt64 (pos n) = n ≤ max_int64
IsInt64 (negsuc n) = Unit

-- Each number of samples is an `int` of 64 bits.
abbrev pub InRange : List Update → Type 0
InRange = All (λ u. IsInt64 u.num_samples)

-- The entry of an array at an index.
abbrev pub value_at : ℕ → Values → Option Value
value_at i empty = none
value_at zero (item v vs) = some v
value_at (suc i) (item v vs) = value_at i vs

abbrev pub element : ℕ → Option Value → Option Value
element i (some (arr vs)) = value_at i vs
element i _ = none

-- What the data of an update has at an index of the array "w", and at "b".
abbrev pub weight_at : ℕ → Option Fields → Option Value
weight_at i none = none
weight_at i (some m) = element i (get_field m "w")

abbrev pub bias_at : Option Fields → Option Value
bias_at none = none
bias_at (some m) = get_field m "b"

abbrev pub as_values : Option Value → Option Values
as_values (some (arr vs)) = some vs
as_values _ = none

-- The array "w" of the first update.
abbrev pub array_at : Option Fields → Option Values
array_at none = none
array_at (some m) = as_values (get_field m "w")

abbrev pub first_array : List Update → Option Values
first_array [] = none
first_array (u ∷ us) = array_at u.update

module _ (fl : Floats) where
  -- A float, weighted with a number of samples, is added; anything else, or no sample, adds nothing.
  abbrev pub add_share : ℕ → Option Value → ℕ → ℕ
  add_share n (some (float64 f)) a = if n == 0 then a else fl.add a (fl.mul f (fl.of_int n))
  add_share n _ a = a

  -- The shares of all updates in one entry, added up from `a` on.
  abbrev pub sum_shares : (Option Fields → Option Value) → List Update → ℕ → ℕ
  sum_shares read [] a = a
  sum_shares read (u ∷ us) a =
      sum_shares read us (add_share (samples_of u.update u.num_samples) (read u.update) a)

  -- A sum divided by a number of samples, if there are any.
  abbrev pub mean : ℕ → ℕ → ℕ
  mean total a = if ltb 0 total then fl.div a (fl.of_int total) else a

  -- The weighted means of the entries from index `i` on, as many as an array has.
  abbrev pub means : List Update → ℕ → ℕ → Values → List ℕ
  means us total i empty = []
  means us total i (item v vs) =
      mean total (sum_shares (weight_at i) us fl.zero_float) ∷ means us total (suc i) vs

  -- The same where the sums start from the entries of a list.
  abbrev pub means_from : List Update → ℕ → ℕ → List ℕ → List ℕ
  means_from us total i [] = []
  means_from us total i (a ∷ rows) =
      mean total (sum_shares (weight_at i) us a) ∷ means_from us total (suc i) rows

  abbrev pub Outcome : List Update → ℕ → Option (List ℕ) → ℕ → ℕ → Aggregated → Type 0
  Outcome us count w b total (model m) =
      NonNegative us
      × (total + sum_samples us ≤ max_int64)
      × (m.total_samples ≡ total + sum_samples us)
      × (m.num_updates ≡ count)
      × (m.w ≡ Option.map (means_from us m.total_samples 0) w)
      × (m.b ≡ mean m.total_samples (sum_shares bias_at us b))
  Outcome us count w b total overflow = NonNegative us → max_int64 < total + sum_samples us
  Outcome us count w b total no_updates = ⊥

  -- What becomes of updates: a model with the weighted means, or the error of an overflow, which tells
  -- that a number of samples is negative or that they are too many.
  abbrev pub IsAverage : List Update → Aggregated → Type 0
  IsAverage us (model m) =
      NonNegative us
      × (sum_samples us ≤ max_int64)
      × (m.total_samples ≡ sum_samples us)
      × (m.num_updates ≡ length us)
      × (m.w ≡ Option.map (means us (sum_samples us) 0) (first_array us))
      × (m.b ≡ mean (sum_samples us) (sum_shares bias_at us fl.zero_float))
  IsAverage us overflow = NonNegative us → max_int64 < sum_samples us
  IsAverage us no_updates = ⊥
