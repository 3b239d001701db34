-- ===== src/Fl/Sanitize.antt =====
-- sanitizeRoundID of pkg/fl/storage.go, on the code points of a round id.
use propeller.Prelude.{
  ℕ, ◌≡◌, refl, sym, ◌∙◌, ap, Bool, true, false, List, [], ◌∷◌, ◌++◌, arith, ltb, leb, ◌==◌, ◌&&◌,
  ◌||◌, not, if◌then◌else◌, keep, Bool-cases, inl, inr, ◌⊎◌,
}
use propeller.Prelude.Trim.{is_space}
use mathlib.Core.List.{reverse, reverse-append, reverse-reverse}

is_control : ℕ → Bool
is_control c = ltb c 32 || c == 127

-- `strings.ReplaceAll(s, "..", "")`: pairs of dots go, from the left.
remove_dot_dot : List ℕ → List ℕ
remove_dot_dot [] = []
remove_dot_dot (c ∷ []) = c ∷ []
remove_dot_dot (c ∷ d ∷ s) =
    let here = remove_dot_dot s in
    let later = remove_dot_dot (d ∷ s) in if c == b'.' && d == b'.' then here else c ∷ later

trim_left : List ℕ → List ℕ
unfolding is_space
trim_left [] = []
trim_left (c ∷ s) = if is_space c then trim_left s else c ∷ s

-- `strings.TrimSpace`.
trim_space : List ℕ → List ℕ
unfolding trim_left
trim_space s = reverse (trim_left (reverse (trim_left s)))

unfoldable pub is_allowed : ℕ → Bool
is_allowed c =
    (leb b'a' c && leb c b'z')
    || (leb b'A' c && leb c b'Z')
    || (leb b'0' c && leb c b'9')
    || c == b'-'
    || c == b'_'

without : ℕ → List ℕ → List ℕ
without x s = keep (λ c. not (c == x)) s

unfoldable pub sanitize_round_id : List ℕ → List ℕ
unfolding is_control remove_dot_dot trim_space is_allowed without
sanitize_round_id round_id =
    let sanitized = keep (λ c. not (is_control c)) round_id in
    let result = without 92 (without b'/' (remove_dot_dot sanitized)) in
    keep is_allowed (trim_space result)

-- The characters that a file name may hold, of a text, in order.
abbrev allowed_part : List ℕ → List ℕ
allowed_part s = keep is_allowed s

-- A test that drops only what is not allowed does not change what stays in the end.
keep-keep :
    (p : ℕ → Bool) (s : List ℕ)
    → ((c : ℕ) → is_allowed c ≡ true → p c ≡ true)
    → keep is_allowed (keep p s) ≡ keep is_allowed s
keep-keep p [] h = refl
keep-keep p (c ∷ s) h = elim (Bool-cases (p c)) [
  | inl e ↦ rw e (ap (λ k. if is_allowed c then c ∷ k else k) (keep-keep p s h))
  | inr e ↦ rw (e, refused e (Bool-cases (is_allowed c))) (keep-keep p s h)
]
  where
    refused : p c ≡ false → (is_allowed c ≡ true) ⊎ (is_allowed c ≡ false) → is_allowed c ≡ false
    refused e (inl a) = (let b = h c a in ground arith)
    refused e (inr n) = n

control_not_allowed : (c : ℕ) → is_allowed c ≡ true → not (is_control c) ≡ true
unfolding is_allowed is_control
control_not_allowed c h = ground arith

space_not_allowed : (c : ℕ) → is_space c ≡ true → is_allowed c ≡ false
unfolding is_allowed is_space
space_not_allowed c h = ground arith

slash_not_allowed : (c : ℕ) → is_allowed c ≡ true → not (c == b'/') ≡ true
unfolding is_allowed
slash_not_allowed c h = ground arith

backslash_not_allowed : (c : ℕ) → is_allowed c ≡ true → not (c == 92) ≡ true
unfolding is_allowed
backslash_not_allowed c h = ground arith

dot_not_allowed : (c : ℕ) → (c == b'.') ≡ true → is_allowed c ≡ false
unfolding is_allowed
dot_not_allowed c h = ground arith

dots : (s : List ℕ) → keep is_allowed (remove_dot_dot s) ≡ keep is_allowed s
unfolding remove_dot_dot
dots [] = refl
dots (c ∷ []) = refl
dots (c ∷ d ∷ s) = elim (Bool-cases (c == b'.' && d == b'.')) [
  | inl e ↦ rw (e, dot_not_allowed c (ground arith), dot_not_allowed d (ground arith)) (dots s)
  | inr e ↦ rw e (ap (λ k. if is_allowed c then c ∷ k else k) (dots (d ∷ s)))
]

trim_left-keep : (s : List ℕ) → keep is_allowed (trim_left s) ≡ keep is_allowed s
unfolding trim_left
trim_left-keep [] = refl
trim_left-keep (c ∷ s) = elim (Bool-cases (is_space c)) [
  | inl e ↦ rw (e, space_not_allowed c e) (trim_left-keep s)
  | inr e ↦ rw e
]

keep-append : (s t : List ℕ) → keep is_allowed (s ++ t) ≡ keep is_allowed s ++ keep is_allowed t
keep-append [] t = refl
keep-append (c ∷ s) t = elim (Bool-cases (is_allowed c)) [
  | inl e ↦ rw e (ap (λ k. c ∷ k) (keep-append s t))
  | inr e ↦ rw e (keep-append s t)
]

keep-one : (c : ℕ) → keep is_allowed (c ∷ []) ≡ reverse (keep is_allowed (c ∷ []))
keep-one c = elim (Bool-cases (is_allowed c)) [ inl e ↦ rw e | inr e ↦ rw e ]

keep-reverse : (s : List ℕ) → keep is_allowed (reverse s) ≡ reverse (keep is_allowed s)
keep-reverse [] = refl
keep-reverse (c ∷ s) =
    ap (keep is_allowed) (reverse-append (c ∷ []) s)
    ∙ keep-append (reverse s) (c ∷ [])
    ∙ ap (λ k. k ++ keep is_allowed (c ∷ [])) (keep-reverse s)
    ∙ ap (λ k. reverse (keep is_allowed s) ++ k) (keep-one c)
    ∙ sym (reverse-append (keep is_allowed (c ∷ [])) (keep is_allowed s))
    ∙ ap reverse (sym (keep-append (c ∷ []) s))

trim_space-keep : (s : List ℕ) → keep is_allowed (trim_space s) ≡ keep is_allowed s
unfolding trim_space
trim_space-keep s =
    keep-reverse (trim_left (reverse (trim_left s)))
    ∙ ap reverse (trim_left-keep (reverse (trim_left s)) ∙ keep-reverse (trim_left s))
    ∙ reverse-reverse (keep is_allowed (trim_left s))
    ∙ trim_left-keep s

-- Sanitizing a round id keeps its letters, digits, hyphens and underscores, in order, and nothing
-- else: the steps before the last one have no effect of their own.
sanitize_round_id_lem : (round_id : List ℕ) → sanitize_round_id round_id ≡ allowed_part round_id
unfolding sanitize_round_id without
sanitize_round_id_lem s =
    trim_space-keep (without 92 (without b'/' (remove_dot_dot (keep (λ c. not (is_control c)) s))))
    ∙ keep-keep (λ c. not (c == 92))
        (without b'/' (remove_dot_dot (keep (λ c. not (is_control c)) s))) backslash_not_allowed
    ∙ keep-keep (λ c. not (c == b'/')) (remove_dot_dot (keep (λ c. not (is_control c)) s))
        slash_not_allowed
    ∙ dots (keep (λ c. not (is_control c)) s)
    ∙ keep-keep (λ c. not (is_control c)) s control_not_allowed

-- A character that is not allowed makes no difference: round ids that differ by one are one id.
sanitize_round_id_collides :
    (s t : List ℕ) (c : ℕ)
    → is_allowed c ≡ false
    → sanitize_round_id (s ++ c ∷ t) ≡ sanitize_round_id (s ++ t)
sanitize_round_id_collides s t c h =
    sanitize_round_id_lem (s ++ c ∷ t)
    ∙ keep-append s (c ∷ t)
    ∙ ap (λ k. keep is_allowed s ++ k) (dropped h)
    ∙ sym (keep-append s t)
    ∙ sym (sanitize_round_id_lem (s ++ t))
  where
    dropped : is_allowed c ≡ false → keep is_allowed (c ∷ t) ≡ keep is_allowed t
    dropped e = rw e
