-- ===== src/Samples/Federated.antt =====
-- Federated learning at samples: a round id, its file, and the updates of two proplets.
use propeller.Prelude.{
  ℕ, zero, suc, Option, ◌+◌, ◌*◌, ◌≡◌, refl, false, true, none, some, List, [], ◌∷◌, arith, ◌==◌,
}
use propeller.Value.{field, end, float64, arr, item, empty}
use propeller.Fl.Sanitize.{sanitize_round_id, is_allowed}
use propeller.Fl.Rounds.{Disk, save_round, load_round, loaded, round_file}
use propeller.Fl.Aggregate.{Floats, Update, pos, aggregate}
use propeller.Fl.Aggregate.Shares.{ZeroLaws, IsAverage}
use propeller.Fl.Aggregate.Totals.{aggregate_total}

-- "r.1" and "r1".
abbrev dotted : List ℕ
dotted = b'r' ∷ b'.' ∷ b'1' ∷ []

abbrev plain : List ℕ
plain = b'r' ∷ b'1' ∷ []

dot_not_allowed : is_allowed b'.' ≡ false
unfolding is_allowed
dot_not_allowed = refl

abbrev empty_disk : Disk ℕ
empty_disk = record { files = λ n. none; writable = true }

same_round : sanitize_round_id plain ≡ sanitize_round_id dotted
unfolding sanitize_round_id
same_round = refl

-- A number is encoded as itself, but 0 cannot be encoded.
abbrev encode : ℕ → Option ℕ
encode zero = none
encode (suc n) = some (suc n)

-- It is saved under one id and loaded under another.
saved_and_loaded :
    load_round encode some plain (save_round encode some dotted 7 empty_disk).1 ≡ loaded 7
unfolding save_round load_round sanitize_round_id round_file
saved_and_loaded = refl

-- Whole numbers in place of floats.
abbrev whole : Floats
whole = record {
  zero_float = 0;
  add = λ a b. a + b;
  mul = λ a b. a * b;
  div = λ a b. a;
  of_int = λ n. n;
  is_zero = λ n. n == 0;
}

whole_laws : ZeroLaws whole
whole_laws = record { zero_is_zero = refl; of_int_zero = λ n. refl }

abbrev from_proplet : ℕ → Update
from_proplet n = record {
  round_id = "r1";
  proplet_id = "p1";
  base_model_uri = "";
  num_samples = pos n;
  update = some (field "w" (arr (item (float64 1) empty)) end);
}

aggregate_example :
    IsAverage whole
      (from_proplet 30 ∷ from_proplet 12 ∷ [])
      (aggregate whole (from_proplet 30 ∷ from_proplet 12 ∷ []))
aggregate_example =
    aggregate_total whole whole_laws (from_proplet 30) (from_proplet 12 ∷ [])
      (omega arith, (omega arith, tt))
