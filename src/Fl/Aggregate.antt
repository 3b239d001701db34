-- ===== src/Fl/Aggregate.antt =====
-- pkg/fl/aggregator.go: federated averaging. The floating-point numbers are an argument of the
-- model, their bit patterns with the operations that the code uses.
pub mod Shares
pub mod Means
pub mod Totals
use propeller.Prelude.{
  ℕ, zero, suc, ◌+◌, ◌-◌, ◌^◌, ◌≡◌, String, Bool, true, false, Option, none, some, List, [], ◌∷◌,
  map, ltb, ◌==◌, if◌then◌else◌, length,
}
use propeller.Value.{Value, float64, arr, Values, empty, item, Fields, get_field}

-- An `int` as the program's word of 64 bits: `negsuc n` is -(n + 1).
pub data ℤ : Type 0 where
  pos : ℕ → ℤ
  negsuc : ℕ → ℤ

pub record Floats : Type 0 where
  pub zero_float : ℕ
  pub add : ℕ → ℕ → ℕ
  pub mul : ℕ → ℕ → ℕ
  pub div : ℕ → ℕ → ℕ
  pub of_int : ℕ → ℕ
  pub is_zero : ℕ → Bool

-- `update` is none for a nil map.
pub record Update : Type 0 where
  pub round_id : String
  pub proplet_id : String
  pub base_model_uri : String
  pub num_samples : ℤ
  pub update : Option Fields

-- The keys "w" and "b" of the data, and the total and the number of updates of the metadata.
pub record Model : Type 0 where
  pub w : Option (List ℕ)
  pub b : ℕ
  pub total_samples : ℕ
  pub num_updates : ℕ

pub data Aggregated : Type 0 where
  model : Model → Aggregated
  no_updates overflow : Aggregated

abbrev pub max_int64 : ℕ
max_int64 = 2 ^ 63 - 1

values_length : Values → ℕ
values_length empty = 0
values_length (item v vs) = suc (values_length vs)

as_array : Option Value → Option Values
as_array (some (arr vs)) = some vs
as_array _ = none

weights_of : Option Fields → Option Values
unfolding as_array get_field
weights_of none = none
weights_of (some m) = as_array (get_field m "w")

module _ (fl : Floats) where
  pub zeros : Values → List ℕ
  zeros empty = []
  zeros (item v vs) = fl.zero_float ∷ zeros vs

  unfoldable initialize_aggregated_weights : List Update → Option (List ℕ)
  unfolding zeros weights_of
  initialize_aggregated_weights [] = none
  initialize_aggregated_weights (u ∷ us) = elim (weights_of u.update) [
    | none ↦ none
    | some vs ↦ some (zeros vs)
  ]

  -- The weight and the new total; `none` is ErrOverflow.
  weigh : ℤ → ℕ → Option (ℕ × ℕ)
  weigh (negsuc n) total = none
  weigh (pos n) total = if ltb (max_int64 - n) total then none else some (fl.of_int n, total + n)

  unfoldable pub validate_and_process_update : Update → ℕ → Option (ℕ × ℕ)
  unfolding weigh
  validate_and_process_update u total = elim u.update [
    | none ↦ some (fl.zero_float, total)
    | some m ↦ weigh u.num_samples total
  ]

  -- `aggregatedW[i] += f * weight` where the element is a float64 and `i` is in range.
  add_weighted : Value → ℕ → ℕ → ℕ
  add_weighted (float64 f) weight a = fl.add a (fl.mul f weight)
  add_weighted v weight a = a

  add_rows : List ℕ → Values → ℕ → List ℕ
  unfolding add_weighted
  add_rows [] vs weight = []
  add_rows (a ∷ rows) empty weight = a ∷ rows
  add_rows (a ∷ rows) (item v vs) weight = add_weighted v weight a ∷ add_rows rows vs weight

  unfoldable aggregate_weights : List ℕ → Update → ℕ → List ℕ
  unfolding add_rows weights_of
  aggregate_weights w u weight = elim (weights_of u.update) [
    | none ↦ w
    | some vs ↦ add_rows w vs weight
  ]

  add_bias : Option Value → ℕ → ℕ → ℕ
  add_bias (some (float64 f)) weight b = fl.add b (fl.mul f weight)
  add_bias _ weight b = b

  bias_of : Option Fields → Option Value
  unfolding get_field
  bias_of none = none
  bias_of (some m) = get_field m "b"

  unfoldable pub aggregate_bias : ℕ → Update → ℕ → ℕ
  unfolding add_bias bias_of
  aggregate_bias b u weight = add_bias (bias_of u.update) weight b

  -- The loop of `Aggregate` and the normalization after it.
  normalize_all : Option (List ℕ) → ℕ → Option (List ℕ)
  normalize_all none total = none
  normalize_all (some w) total = some (map (λ a. fl.div a (fl.of_int total)) w)

  unfoldable pub normalize : Option (List ℕ) → ℕ → ℕ → ℕ → Aggregated
  unfolding normalize_all
  normalize w b total count =
      if ltb 0 total
      then model (record {
        w = normalize_all w total;
        b = fl.div b (fl.of_int total);
        total_samples = total;
        num_updates = count;
      })
      else model (record { w = w; b = b; total_samples = total; num_updates = count })

  pub take_in : Option (List ℕ) → Update → ℕ → Option (List ℕ)
  unfolding aggregate_weights
  take_in none u weight = none
  take_in (some w) u weight = some (aggregate_weights w u weight)

  aggregate_loop : ℕ → List Update → Option (List ℕ) → ℕ → ℕ → Aggregated
  unfolding normalize validate_and_process_update take_in aggregate_bias
  aggregate_loop count [] w b total = normalize w b total count
  aggregate_loop count (u ∷ us) w b total = elim (validate_and_process_update u total) [
    | none ↦ overflow
    | some (weight, total') ↦
        let skip = aggregate_loop count us w b total in
        let add = aggregate_loop count us (take_in w u weight) (aggregate_bias b u weight) total' in
        if fl.is_zero weight then skip else add
  ]

  unfoldable pub aggregate : List Update → Aggregated
  unfolding aggregate_loop initialize_aggregated_weights
  aggregate [] = no_updates
  aggregate (u ∷ us) =
      aggregate_loop (length (u ∷ us)) (u ∷ us) (initialize_aggregated_weights (u ∷ us))
        fl.zero_float 0
