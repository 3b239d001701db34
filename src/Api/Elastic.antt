-- ===== src/Api/Elastic.antt =====
-- What the check of a task's request (manager/api/requests.go) means for the configuration that
-- StartTask sends on to the proplet (`ElasticConfig` of pkg/task/task.go).
use propeller.Prelude.{
  ◌≡◌, ◌⊎◌, refl, subst, String, Bool, true, false, Option, none, some, List, [], ◌∷◌, arith,
  str_eq, ltb, if◌then◌else◌, Option-cases, inl, inr, Elem, ◌&&◌, ◌||◌, ◌^◌, leb, not, ℕ,
}
use propeller.Value.{
  Value, nil, bool, text, float64, uint64, uint, int64, int, arr, obj, Fields, get_field,
}
use propeller.Task.{Task}
use propeller.Manager.Start.{is_obj, elastic_config}
use propeller.Api.{
  ApiError, missing_name, validation, invalid_priority, exclusive_fields, bad_run_if,
  check_schedule, check_metadata, elastic_keys, or_next, check_string, check_strings, has,
  check_elastic, validate_elastic_config, validate_task_req,
}

or_next-none : (a b : Option ApiError) → or_next a b ≡ none → (a ≡ none) × (b ≡ none)
or_next-none none b h = (refl, h)
or_next-none (some e) b h = cc

if_none :
    (b : Bool) (e : ApiError) (x : Option ApiError)
    → (if b then some e else x) ≡ none
    → (b ≡ false) × (x ≡ none)
if_none true e x h = cc
if_none false e x h = (refl, h)

-- There is no value, or it is a text.
abbrev TextOrNone : Option Value → Type 0
TextOrNone o = (o ≡ none) ⊎ ((s : String) × (o ≡ some (text s)))

check_string-none : (key : String) (o : Option Value) → check_string key o ≡ none → TextOrNone o
unfolding check_string
check_string-none key none h = inl refl
check_string-none key (some (text s)) h = inr (s, refl)
check_string-none key (some nil) h = cc
check_string-none key (some (bool b)) h = cc
check_string-none key (some (float64 n)) h = cc
check_string-none key (some (uint64 n)) h = cc
check_string-none key (some (uint n)) h = cc
check_string-none key (some (int64 n)) h = cc
check_string-none key (some (int n)) h = cc
check_string-none key (some (arr vs)) h = cc
check_string-none key (some (obj m)) h = cc

check_strings-none :
    (cfg : Fields) (ks : List String) (key : String)
    → check_strings cfg ks ≡ none
    → Elem key ks
    → TextOrNone (get_field cfg key)
unfolding check_strings
check_strings-none cfg [] key h m = absurd m
check_strings-none cfg (k ∷ ks) key h (inl q) =
    let here = (or_next-none (check_string k (get_field cfg k)) (check_strings cfg ks) h).0 in
    subst (λ x. TextOrNone (get_field cfg x)) q (check_string-none k (get_field cfg k) here)
check_strings-none cfg (k ∷ ks) key h (inr m) =
    check_strings-none cfg ks key
      (or_next-none (check_string k (get_field cfg k)) (check_strings cfg ks) h).1 m

some-has :
    (cfg : Fields) (key : String) (v : Value) → get_field cfg key ≡ some v → has cfg key ≡ true
unfolding has
some-has cfg key v e = rw (e, has) refl

not_both :
    (cfg : Fields) (j k : String)
    → (has cfg j && has cfg k) ≡ false
    → (get_field cfg j ≡ none) ⊎ (get_field cfg k ≡ none)
not_both cfg j k h = elim (Option-cases (get_field cfg j)) [
  | inl e ↦ inl e
  | inr (v, e) ↦ elim (Option-cases (get_field cfg k)) [
    | inl f ↦ inr f
    | inr (w, f) ↦
        (let a = some-has cfg j v e in let b = some-has cfg k w f in absurd (ground arith))
  ]
]

-- A configuration for a proplet that is sound: its keys hold texts, and not both are there.
abbrev pub IsSound : Fields → Type 0
IsSound cfg =
    TextOrNone (get_field cfg "wasi_security")
    × TextOrNone (get_field cfg "wasi_pep")
    × ((get_field cfg "wasi_security" ≡ none) ⊎ (get_field cfg "wasi_pep" ≡ none))

check_elastic-none :
    (o : Option Value) (cfg : Fields) → check_elastic o ≡ none → is_obj o ≡ some cfg → IsSound cfg
unfolding check_elastic is_obj
check_elastic-none none cfg h e = cc
check_elastic-none (some (text s)) cfg h e = cc
check_elastic-none (some nil) cfg h e = cc
check_elastic-none (some (bool b)) cfg h e = cc
check_elastic-none (some (float64 n)) cfg h e = cc
check_elastic-none (some (uint64 n)) cfg h e = cc
check_elastic-none (some (uint n)) cfg h e = cc
check_elastic-none (some (int64 n)) cfg h e = cc
check_elastic-none (some (int n)) cfg h e = cc
check_elastic-none (some (arr vs)) cfg h e = cc
check_elastic-none (some (obj m)) cfg h e =
    let (strings, rest) = or_next-none (check_strings m elastic_keys) _ h in
    let alone = (if_none (has m "wasi_security" && has m "wasi_pep") _ none rest).0 in
    let same : m ≡ cfg = cc in
    subst IsSound same (
      check_strings-none m elastic_keys "wasi_security" strings (inl refl),
      check_strings-none m elastic_keys "wasi_pep" strings (inr (inl refl)),
      not_both m "wasi_security" "wasi_pep" alone,
    )

-- The configuration that StartTask hands over for a task whose request passed the checks is sound:
-- the keys that the proplet reads hold texts where they are there, and only one of them is.
pub validate_task_req-IsSound :
    (valid_cron valid_uuid : String → Bool) (json_size : Fields → Option ℕ) (t : Task)
    (cfg : Fields)
    → validate_task_req valid_cron valid_uuid json_size t ≡ none
    → elastic_config t ≡ some cfg
    → IsSound cfg
unfolding validate_task_req validate_elastic_config elastic_config
validate_task_req-IsSound valid_cron valid_uuid json_size t cfg h e =
    let (a, h1) = if_none (str_eq t.name "") missing_name _ h in
    let (b, h2) = if_none (bad_run_if t) validation _ h1 in
    let (c, h3) = or_next-none (check_schedule valid_cron valid_uuid json_size t.schedule) _ h2 in
    let (d, h4) = if_none (leb (2 ^ 63) t.priority || ltb 100 t.priority) invalid_priority _ h3 in
    let (f, h5) = if_none (t.broadcast && not (str_eq t.proplet_id "")) exclusive_fields _ h4 in
    let (g, h6) = or_next-none (check_metadata valid_cron valid_uuid json_size t.metadata) _ h5 in
    check_elastic-none (get_field t.metadata "elastic") cfg h6 e
