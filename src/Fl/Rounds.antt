-- ===== src/Fl/Rounds.antt =====
-- The round files of PersistentStorage (pkg/fl/storage.go): saving, loading and listing. A file
-- name is its code points; the encoding of a round state as JSON and its
-- decoding are arguments of the model, and both may fail.
use propeller.Prelude.{
  ℕ, ◌≡◌, refl, Bool, true, false, Option, none, some, List, [], ◌∷◌, ◌++◌, arith, ◌==◌, ◌&&◌,
  if◌then◌else◌, Bool-cases, Option-cases, inl, inr, leb, ◌||◌,
}
use propeller.Fl.Sanitize.{sanitize_round_id}

pub data RoundError : Type 0 where
  invalid_round_id marshal_failed write_failed read_failed unmarshal_failed : RoundError

pub data Loaded (R : Type 0) : Type 0 where
  loaded : R → Loaded R
  refused : RoundError → Loaded R

-- The directory of the rounds: what each name holds, and whether the disk takes a write.
pub record Disk (D : Type 0) : Type 0 where
  pub files : List ℕ → Option D
  pub writable : Bool

unfoldable same_name : List ℕ → List ℕ → Bool
same_name [] [] = true
same_name [] (d ∷ t) = false
same_name (c ∷ s) [] = false
same_name (c ∷ s) (d ∷ t) = if c == d then same_name s t else false

-- "round_" and ".json".
abbrev file_prefix : List ℕ
file_prefix = b'r' ∷ b'o' ∷ b'u' ∷ b'n' ∷ b'd' ∷ b'_' ∷ []

abbrev file_suffix : List ℕ
file_suffix = b'.' ∷ b'j' ∷ b's' ∷ b'o' ∷ b'n' ∷ []

unfoldable pub round_file : List ℕ → List ℕ
round_file sanitized = file_prefix ++ sanitized ++ file_suffix

abbrev is_empty : List ℕ → Bool
is_empty [] = true
is_empty (c ∷ s) = false

module _ {R D : Type 0} (marshal : R → Option D) (unmarshal : D → Option R) where
  write_file : List ℕ → D → Disk D → Option RoundError × Disk D
  write_file name d disk =
      if disk.writable
      then (none, record disk { files = λ n. if same_name name n then some d else disk.files n })
      else (some write_failed, disk)

  save_data : List ℕ → Option D → Disk D → Option RoundError × Disk D
  unfolding write_file
  save_data name none disk = (some marshal_failed, disk)
  save_data name (some d) disk = write_file name d disk

  unfoldable pub save_round : List ℕ → R → Disk D → Option RoundError × Disk D
  unfolding save_data write_file same_name
  save_round round_id state disk =
      if is_empty (sanitize_round_id round_id)
      then (some invalid_round_id, disk)
      else save_data (round_file (sanitize_round_id round_id)) (marshal state) disk

  read_round : Option D → Loaded R
  read_round none = refused read_failed
  read_round (some d) = elim (unmarshal d) [ none ↦ refused unmarshal_failed | some r ↦ loaded r ]

  unfoldable pub load_round : List ℕ → Disk D → Loaded R
  unfolding read_round
  load_round round_id disk =
      if is_empty (sanitize_round_id round_id)
      then refused invalid_round_id
      else read_round (disk.files (round_file (sanitize_round_id round_id)))

-- What loading makes of encoded data: it is decoded, or the failure is reported.
abbrev pub decoded : {R D : Type 0} → (D → Option R) → D → Loaded R
decoded unmarshal d = elim (unmarshal d) [ none ↦ refused unmarshal_failed | some r ↦ loaded r ]

-- The literal part of a format against the input: what is left of the input.
match_literal : List ℕ → List ℕ → Option (List ℕ)
match_literal [] input = some input
match_literal (c ∷ lit) [] = none
match_literal (c ∷ lit) (d ∷ input) = if c == d then match_literal lit input else none

-- A space of the input of `Sscanf`; a `%s` ends there.
is_blank : ℕ → Bool
is_blank c = (leb 9 c && leb c 13) || c == 32 || c == 0x85 || c == 0xA0

-- The text that `%s` reads, up to a space or the end, and what is left.
read_token : List ℕ → List ℕ × List ℕ
unfolding is_blank
read_token [] = ([], [])
read_token (c ∷ s) = let r = read_token s in if is_blank c then ([], c ∷ s) else (c ∷ r.0, r.1)

skip_blanks : List ℕ → List ℕ
unfolding is_blank
skip_blanks [] = []
skip_blanks (c ∷ s) = if is_blank c then skip_blanks s else c ∷ s

-- `fmt.Sscanf(name, "round_%s.json", &roundID)`: the id, or `none` for an error.
scan_round : List ℕ → Option (List ℕ)
unfolding match_literal read_token skip_blanks
scan_round name = elim (match_literal file_prefix name) [
  | none ↦ none
  | some input ↦
      let token = read_token (skip_blanks input) in
      if is_empty token.0
      then none
      else elim (match_literal file_suffix token.1) [ none ↦ none | some left ↦ some token.0 ]
]

-- ListRounds on the names of the files of the directory.
unfoldable list_rounds : List (List ℕ) → List (List ℕ)
unfolding scan_round
list_rounds [] = []
list_rounds (name ∷ names) =
    let rest = list_rounds names in elim (scan_round name) [ some id ↦ id ∷ rest | none ↦ rest ]

token_rest : (s : List ℕ) → match_literal file_suffix (read_token s).1 ≡ none
unfolding match_literal read_token
token_rest [] = refl
token_rest (c ∷ s) = elim (Bool-cases (is_blank c)) [
  | inl e ↦ ground arith
  | inr e ↦ rw e (token_rest s)
]

-- Whatever files the directory holds, the listing of its rounds is empty: `%s` reads up to a space,
-- so the literal `.json` after it never matches.
list_rounds_empty : (names : List (List ℕ)) → list_rounds names ≡ []
unfolding list_rounds scan_round
list_rounds_empty [] = refl
list_rounds_empty (name ∷ names) = elim (Option-cases (match_literal file_prefix name)) [
  | inl e ↦ rw (e, list_rounds) (list_rounds_empty names)
  | inr (input, e) ↦ elim (Bool-cases (is_empty (read_token (skip_blanks input)).0)) [
    | inl blank ↦ rw (e, list_rounds, blank) (list_rounds_empty names)
    | inr token ↦
        rw (e, list_rounds, token, token_rest (skip_blanks input)) (list_rounds_empty names)
  ]
]
