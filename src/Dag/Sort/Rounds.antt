-- ===== src/Dag/Sort/Rounds.antt =====
-- How many rounds the queue of TopologicalSort (pkg/dag/validator.go) can take: each round takes an
-- id off, and each id that comes in is one whose degree stops being positive.
use propeller.Prelude.{
  ℕ, zero, suc, ◌+◌, ◌≤◌, ◌≡◌, refl, sym, ◌∙◌, ap, String, Bool, true, false, Option, none, some,
  List, [], ◌∷◌, arith, str_eq, eq_iff, if◌then◌else◌, Bool-cases, inl, inr, Elem, length,
  length-append,
}
use propeller.Task.{Task}
use propeller.Dag.Exist.{ids}
use propeller.Dag.Sort.{one_less, is_zero, lower, push_if_zero, release}

is_positive : Option ℕ → Bool
is_positive (some (suc n)) = true
is_positive _ = false

-- The tasks whose degree is positive.
unfoldable pub waiting : List Task → (String → Option ℕ) → ℕ
unfolding is_positive
waiting [] degree = 0
waiting (t ∷ ts) degree =
    if is_positive (degree t.id) then suc (waiting ts degree) else waiting ts degree

pub waiting-le-length :
    (ts : List Task) (degree : String → Option ℕ) → waiting ts degree ≤ length ts
unfolding waiting
waiting-le-length [] degree = omega arith
waiting-le-length (t ∷ ts) degree = elim (Bool-cases (is_positive (degree t.id))) [
  | inl p ↦ rw p (omega (arith, waiting-le-length ts degree))
  | inr p ↦ rw p (omega (arith, waiting-le-length ts degree))
]

one_less_positive : (o : Option ℕ) → is_positive o ≡ false → is_positive (one_less o) ≡ false
unfolding is_positive one_less
one_less_positive none h = refl
one_less_positive (some zero) h = refl
one_less_positive (some (suc n)) h = cc

one_less_zero :
    (o : Option ℕ)
    → is_zero (one_less o) ≡ true
    → (is_positive o ≡ true) × (is_positive (one_less o) ≡ false)
unfolding is_positive one_less is_zero
one_less_zero none h = cc
one_less_zero (some zero) h = cc
one_less_zero (some (suc zero)) h = (refl, refl)
one_less_zero (some (suc (suc n))) h = cc

lower_positive :
    (d x : String) (degree : String → Option ℕ)
    → is_positive (degree x) ≡ false
    → is_positive (lower d degree x) ≡ false
unfolding lower
lower_positive d x degree h = elim (Bool-cases (str_eq d x)) [
  | inl e ↦ rw e (one_less_positive (degree x) h)
  | inr e ↦ rw e h
]

waiting-lower :
    (d : String) (ts : List Task) (degree : String → Option ℕ)
    → waiting ts (lower d degree) ≤ waiting ts degree
unfolding waiting
waiting-lower d [] degree = omega arith
waiting-lower d (t ∷ ts) degree = elim (Bool-cases (is_positive (degree t.id))) [
  | inr p ↦ rw (p, lower_positive d t.id degree p) (waiting-lower d ts degree)
  | inl p ↦ elim (Bool-cases (is_positive (lower d degree t.id))) [
    | inl r ↦ rw (p, r) (omega (arith, waiting-lower d ts degree))
    | inr r ↦ rw (p, r) (omega (arith, waiting-lower d ts degree))
  ]
]

waiting_falls :
    (d : String) (ts : List Task) (degree : String → Option ℕ)
    → Elem d (ids ts)
    → is_positive (degree d) ≡ true
    → is_positive (lower d degree d) ≡ false
    → suc (waiting ts (lower d degree)) ≤ waiting ts degree
unfolding waiting
waiting_falls d [] degree m p r = absurd m
waiting_falls d (t ∷ ts) degree (inl q) p r =
    let p' : is_positive (degree t.id) ≡ true = ap (λ y. is_positive (degree y)) q ∙ p in
    let r' : is_positive (lower d degree t.id) ≡ false =
      ap (λ y. is_positive (lower d degree y)) q ∙ r in
    rw (p', r') (omega (arith, waiting-lower d ts degree))
waiting_falls d (t ∷ ts) degree (inr m) p r =
    let ih = waiting_falls d ts degree m p r in
    elim (Bool-cases (is_positive (degree t.id))) [
      | inr a ↦ rw (a, lower_positive d t.id degree a) ih
      | inl a ↦ elim (Bool-cases (is_positive (lower d degree t.id))) [
        | inl b ↦ rw (a, b) (omega (arith, ih))
        | inr b ↦ rw (a, b) (omega (arith, ih))
      ]
    ]

push_rounds :
    (d : String) (all : List Task) (degree : String → Option ℕ) (queue : List String)
    → Elem d (ids all)
    → length (push_if_zero d (lower d degree) queue) + waiting all (lower d degree)
      ≤ length queue + waiting all degree
unfolding push_if_zero lower
push_rounds d all degree queue m = elim (Bool-cases (is_zero (lower d degree d))) [
  | inr z ↦ rw z (omega (arith, waiting-lower d all degree))
  | inl z ↦
      let same : lower d degree d ≡ one_less (degree d) = (rw ((eq_iff d d).1 refl, lower) refl) in
      let (p, r) = one_less_zero (degree d) (sym (ap is_zero same) ∙ z) in
      let falls = waiting_falls d all degree m p (ap is_positive same ∙ r) in
      rw z (omega (arith, falls, length-append queue (d ∷ [])))
]

pub release_rounds :
    (all : List Task) (ds : List String) (degree : String → Option ℕ) (queue : List String)
    → ((x : String) → Elem x ds → Elem x (ids all))
    → length (release ds degree queue).1 + waiting all (release ds degree queue).0
      ≤ length queue + waiting all degree
unfolding release
release_rounds all [] degree queue h = omega arith
release_rounds all (d ∷ ds) degree queue h = omega (
  arith,
  push_rounds d all degree queue (h d (inl refl)),
  release_rounds all ds (lower d degree) (push_if_zero d (lower d degree) queue)
      (λ x m. h x (inr m)),
)
