-- ===== src/Value.antt =====
-- Values of Go's type `any`: what decoded JSON or Go code puts into a `map[string]any`. A float64
-- is its bit pattern, a signed integer its two's-complement word; a nil map and an empty map are
-- one value, since every reader treats them alike.
pub mod Readers
use propeller.Prelude.{ℕ, String, Bool, Option, none, some, str_eq, if◌then◌else◌}

mutual
  pub data Value : Type 0 where
    nil : Value
    bool : Bool → Value
    text : String → Value
    float64 : ℕ → Value
    uint64 : ℕ → Value
    uint : ℕ → Value
    int64 : ℕ → Value
    int : ℕ → Value
    arr : Values → Value
    obj : Fields → Value

  pub data Values : Type 0 where
    empty : Values
    item : Value → Values → Values

  pub data Fields : Type 0 where
    end : Fields
    field : String → Value → Fields → Fields

-- `value, ok := m[key]`.
unfoldable pub get_field : Fields → String → Option Value
get_field end key = none
get_field (field k v m) key = if str_eq k key then some v else get_field m key
