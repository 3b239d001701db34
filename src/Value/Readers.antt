-- ===== src/Value/Readers.antt =====
-- The typed readers of pkg/maps/maps.go. A value of type []string comes from Go code only; messages
-- are decoded JSON, where a list is []any, so that case of `GetStringSlice` has no value here.
use propeller.Prelude.{ℕ, String, ◌≡◌, Option, some, List, [], ◌∷◌, arith}
use propeller.Value.{
  Value, text, float64, uint64, uint, int64, int, arr, obj, Values, empty, item, Fields, end,
  get_field,
}

as_text : Option Value → String → String
as_text (some (text s)) def = s
as_text _ def = def

unfoldable pub get_string : Fields → String → String → String
unfolding as_text get_field
get_string m key def = as_text (get_field m key) def

-- The strings among the elements, in order.
texts_of : Values → List String
texts_of empty = []
texts_of (item (text s) vs) = s ∷ texts_of vs
texts_of (item v vs) = texts_of vs

as_texts : Option Value → List String
unfolding texts_of
as_texts (some (arr vs)) = texts_of vs
as_texts _ = []

unfoldable pub get_string_slice : Fields → String → List String
unfolding as_texts get_field
get_string_slice m key = as_texts (get_field m key)

as_map : Option Value → Fields
as_map (some (obj m)) = m
as_map _ = end

unfoldable pub get_map : Fields → String → Fields
unfolding as_map get_field
get_map m key = as_map (get_field m key)

-- A signed word converted to uint64 keeps its bits.
as_uint64 : Option Value → ℕ
as_uint64 (some (uint64 n)) = n
as_uint64 (some (uint n)) = n
as_uint64 (some (int64 n)) = n
as_uint64 (some (int n)) = n
as_uint64 _ = 0

unfoldable pub get_uint64 : Fields → String → ℕ
unfolding as_uint64 get_field
get_uint64 m key = as_uint64 (get_field m key)

-- A number of a JSON message is a float64, which the reader does not know: it reads as 0.
get_uint64_float64 :
    (m : Fields) (key : String) (bits : ℕ)
    → get_field m key ≡ some (float64 bits)
    → get_uint64 m key ≡ 0
unfolding get_uint64
get_uint64_float64 m key bits h = ground arith
