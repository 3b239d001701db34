-- ===== src/Scheduler/RoundRobin.antt =====
-- SelectProplet of pkg/scheduler/roundrobin.go.
use propeller.Prelude.{
  ℕ, zero, suc, ◌+◌, ◌-◌, ◌%◌, ◌<◌, ◌≡◌, ◌⊎◌, refl, true, false, Option, none, some, List, [], ◌∷◌,
  arith, ◌==◌, Bool-cases, inl, inr, length, get_elem?, Elem, if◌then◌else◌, ap, ◌∙◌, sym, leb,
  subst,
}
use native.Mathlib.Nat.{mod-lt, mod-add-mod, mod-eq_of_lt, mod-eq-sub-mod}
use propeller.Task.{Proplet}
use propeller.Errors.{no_proplet, dead_proplets}
use propeller.Outcome.{ok, err}
use propeller.Scheduler.{count_alive, scan, select_proplet}

-- The proplet `k` places after the cursor, around the end.
abbrev ahead : List Proplet → ℕ → ℕ → Option Proplet
ahead ps last k = get_elem? ps ((last + 1 + k) % length ps)

-- The place holds no proplet that is alive.
abbrev Dead : Option Proplet → Type 0
Dead none = Unit
Dead (some p) = p.alive ≡ false

-- `k` is the first place after the cursor with a proplet that is alive, and that is `p`.
pub record IsFirst (ps : List Proplet) (last k : ℕ) (p : Proplet) : Type 0 where
  pub found : ahead ps last k ≡ some p
  pub is_alive : p.alive ≡ true
  pub dead_before : (j : ℕ) → j < k → Dead (ahead ps last j)

get_elem?-lt :
    {A : Type 0} (xs : List A) (i : ℕ) → i < length xs → (a : A) × (get_elem? xs i ≡ some a)
get_elem?-lt [] i h = absurd (omega arith)
get_elem?-lt (x ∷ xs) zero h = (x, refl)
get_elem?-lt (x ∷ xs) (suc i) h = get_elem?-lt xs i (omega arith)

Elem-get_elem? :
    {A : Type 0} (a : A) (xs : List A)
    → Elem a xs
    → (i : ℕ) × (i < length xs) × (get_elem? xs i ≡ some a)
Elem-get_elem? a [] h = absurd h
Elem-get_elem? a (x ∷ xs) (inl e) = (0, omega arith, ap some e)
Elem-get_elem? a (x ∷ xs) (inr h) =
    let (i, lt, e) = Elem-get_elem? a xs h in (suc i, omega arith, e)

-- Moving the cursor one place on.
step_on : (n last j : ℕ) → ((last + 1) % n + 1 + j) % n ≡ (last + 1 + suc j) % n
step_on n last j = ap (λ k. k % n) (regroup ((last + 1) % n)) ∙ mod-add-mod (last + 1) n (suc j)
  where
    regroup : (a : ℕ) → a + 1 + j ≡ a + suc j
    regroup a = omega arith

-- Every index is reached within one turn.
turn : (n last i : ℕ) → i < n → (k : ℕ) × (k < n) × ((last + 1 + k) % n ≡ i)
turn n last i h =
    let c : ℕ = (last + 1) % n in
    let small : c < n = mod-lt (last + 1) (omega arith) in
    elim (Bool-cases (leb c i)) [
      | inl le ↦ (i - c, omega arith, reach c (i - c) small refl (inl (ground arith)))
      | inr gt ↦ (i + n - c, ground arith, reach c (i + n - c) small refl (inr (ground arith)))
    ]
  where
    reach :
        (c k : ℕ)
        → c < n
        → (last + 1) % n ≡ c
        → (c + k ≡ i) ⊎ (c + k ≡ i + n)
        → (last + 1 + k) % n ≡ i
    reach c k small e (inl q) =
        sym (mod-add-mod (last + 1) n k)
        ∙ ap (λ t. (t + k) % n) e
        ∙ ap (λ t. t % n) q
        ∙ mod-eq_of_lt h
    reach c k small e (inr q) =
        sym (mod-add-mod (last + 1) n k)
        ∙ ap (λ t. (t + k) % n) e
        ∙ ap (λ t. t % n) q
        ∙ mod-eq-sub-mod (omega arith)
        ∙ ap (λ t. t % n) (omega arith)
        ∙ mod-eq_of_lt h

-- What the loop does in the rounds it has.
abbrev ScanSpec : ℕ → List Proplet → ℕ → Option (Proplet × ℕ) → Type 0
ScanSpec rounds ps last none = (k : ℕ) → k < rounds → Dead (ahead ps last k)
ScanSpec rounds ps last (some (p, next)) =
    (k : ℕ) × (k < rounds) × (next ≡ (last + 1 + k) % length ps) × IsFirst ps last k p

here_first :
    (ps : List Proplet) (last : ℕ) (p : Proplet)
    → get_elem? ps ((last + 1) % length ps) ≡ some p
    → ahead ps last 0 ≡ some p
here_first ps last p e = ap (λ k. get_elem? ps (k % length ps)) (plus_zero (last + 1)) ∙ e
  where
    plus_zero : (a : ℕ) → a + 0 ≡ a
    plus_zero a = omega arith

module _ (rounds : ℕ) (ps : List Proplet) (last : ℕ) (p : Proplet)
    (at : get_elem? ps ((last + 1) % length ps) ≡ some p) (dead : p.alive ≡ false) where
  ahead-suc : (j : ℕ) → ahead ps ((last + 1) % length ps) j ≡ ahead ps last (suc j)
  ahead-suc j = ap (get_elem? ps) (step_on (length ps) last j)

  Dead-from :
      (k : ℕ)
      → ((j : ℕ) → j < k → Dead (ahead ps ((last + 1) % length ps) j))
      → (j : ℕ) → j < suc k
      → Dead (ahead ps last j)
  Dead-from k rest zero lt = rw (here_first ps last p at) dead
  Dead-from k rest (suc j) lt = subst Dead (ahead-suc j) (rest j (omega arith))

  -- A dead proplet one place on: what the rest of the loop finds, seen from here.
  ScanSpec-suc :
      (out : Option (Proplet × ℕ))
      → ScanSpec rounds ps ((last + 1) % length ps) out
      → ScanSpec (suc rounds) ps last out
  ScanSpec-suc none spec = Dead-from rounds spec
  ScanSpec-suc (some (q, next)) (k, lt, e, first) = (
    suc k,
    omega arith,
    e ∙ step_on (length ps) last k,
    record {
      found = sym (ahead-suc k) ∙ first.found;
      is_alive = first.is_alive;
      dead_before = Dead-from k first.dead_before;
    },
  )

scan-ScanSpec :
    (rounds : ℕ) (ps : List Proplet) (last : ℕ)
    → 0 < length ps
    → ScanSpec rounds ps last (scan rounds ps last)
unfolding scan
scan-ScanSpec zero ps last h = λ k lt. absurd (omega arith)
scan-ScanSpec (suc rounds) ps last h =
    let (p, at) = get_elem?-lt ps ((last + 1) % length ps) (mod-lt (last + 1) h) in
    elim (Bool-cases p.alive) [
      | inl alive ↦
          rw (at, scan, alive)
            (
              0,
              omega arith,
              ap (λ k. k % length ps) (omega arith),
              record {
                found = here_first ps last p at;
                is_alive = alive;
                dead_before = λ j lt. absurd (omega arith);
              },
            )
      | inr dead ↦
          rw (at, scan, dead)
            (ScanSpec-suc rounds ps last p at dead (scan rounds ps ((last + 1) % length ps))
              (scan-ScanSpec rounds ps ((last + 1) % length ps) h))
    ]

count_alive-pos :
    (ps : List Proplet) (q : Proplet) → Elem q ps → q.alive ≡ true → 0 < count_alive ps
unfolding count_alive
count_alive-pos [] q h e = absurd h
count_alive-pos (p ∷ ps) q (inl s) e =
    let a : p.alive ≡ true = subst (λ (x : Proplet). x.alive ≡ true) (sym s) e in ground arith
count_alive-pos (p ∷ ps) q (inr m) e = ground (arith, count_alive-pos ps q m e)

count_alive-zero :
    (ps : List Proplet) → ((q : Proplet) → Elem q ps → q.alive ≡ false) → count_alive ps ≡ 0
unfolding count_alive
count_alive-zero [] h = refl
count_alive-zero (p ∷ ps) h = rw (h p (inl refl)) (count_alive-zero ps (λ q m. h q (inr m)))

-- With a proplet that is alive among the given ones, the choice succeeds, whatever the cursor: it is
-- the first one alive after the cursor, around the end, and the cursor moves to its place.
pub select_proplet_total :
    (last : ℕ) (ps : List Proplet) (q : Proplet)
    → Elem q ps
    → q.alive ≡ true
    → (p : Proplet) × (k : ℕ) × (k < length ps)
      × (select_proplet last ps ≡ (ok p, (last + 1 + k) % length ps))
      × IsFirst ps last k p
unfolding select_proplet
select_proplet_total last ps q m e =
    let (i, lt, at) = Elem-get_elem? q ps m in
    let some_alive = count_alive-pos ps q m e in
    let (k, near, there) = turn (length ps) last i lt in
    conclude (scan (length ps) ps last) refl (scan-ScanSpec (length ps) ps last (omega arith)) i at
      k near there some_alive
  where
    conclude :
        (out : Option (Proplet × ℕ))
        → scan (length ps) ps last ≡ out
        → ScanSpec (length ps) ps last out
        → (i : ℕ) → get_elem? ps i ≡ some q
        → (k : ℕ) → k < length ps
        → (last + 1 + k) % length ps ≡ i
        → 0 < count_alive ps
        → (p : Proplet) × (k : ℕ) × (k < length ps)
          × (select_proplet last ps ≡ (ok p, (last + 1 + k) % length ps))
          × IsFirst ps last k p
    conclude none eq spec i at k near there some_alive = absurd (
        let d : Dead (some q) = subst Dead (ap (get_elem? ps) there ∙ at) (spec k near) in
        ground arith)
    conclude (some (p, next)) eq (k', near', e', first) i at k near there some_alive =
        (p, k', near', ground arith, first)

-- Without one, the choice fails, with the error that tells an empty slice from a dead one, and the
-- cursor stays.
select_proplet_refused :
    (last : ℕ) (ps : List Proplet)
    → ((q : Proplet) → Elem q ps → q.alive ≡ false)
    → select_proplet last ps ≡ (if length ps == 0 then err no_proplet else err dead_proplets, last)
unfolding select_proplet
select_proplet_refused last ps h = ground (arith, count_alive-zero ps h)

get_elem?-Elem : {A : Type 0} (a : A) (xs : List A) (i : ℕ) → get_elem? xs i ≡ some a → Elem a xs
get_elem?-Elem a [] i e = absurd (let h = e in ground arith)
get_elem?-Elem a (x ∷ xs) zero e = inl (let h = e in cc)
get_elem?-Elem a (x ∷ xs) (suc i) e = inr (get_elem?-Elem a xs i e)

pub IsFirst-Elem : (ps : List Proplet) (last k : ℕ) (p : Proplet) → IsFirst ps last k p → Elem p ps
IsFirst-Elem ps last k p first = get_elem?-Elem p ps _ first.found
