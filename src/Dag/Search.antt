-- ===== src/Dag/Search.antt =====
-- The depth-first search of ValidateDAG (pkg/dag/validator.go): it ends, it accepts only what can
-- be ranked, and it refuses only what cannot.
use propeller.Prelude.{
  ℕ, suc, ◌<◌, ◌≤◌, ◌≡◌, ◌≢◌, refl, sym, String, true, false, some, List, [], ◌∷◌, arith,
  Bool-cases, inl, inr, Elem, if◌then◌else◌, length, subst, ◌∙◌,
}
use propeller.Task.{Task}
use propeller.Dag.{out_of_fuel, Marks, Outcome, done, fails, and_then, search_deps, find_task}

-- The visits of a task that the search has left again are its black tasks.
abbrev pub Black : Marks → String → Type 0
Black m k = (m.visited k ≡ true) × (m.rec_stack k ≡ false)

module _ (all : List Task) where
  -- `rank` puts every dependency of the task that the map holds under an id below that id.
  abbrev pub Ranking : (String → ℕ) → Type 0
  Ranking rank =
      (k : String) (t : Task) (d : String)
      → find_task all k ≡ some t
      → Elem d t.depends_on
      → rank d < rank k

  abbrev pub Held : String → Type 0
  Held k = (t : Task) × (find_task all k ≡ some t)

  abbrev pub DepsHeld : Type 0
  DepsHeld =
      (k : String) (t : Task) (d : String) → find_task all k ≡ some t → Elem d t.depends_on → Held d

-- How many tasks the search has not visited; the depth of its calls is bounded by it.
unfoldable pub unvisited : List Task → Marks → ℕ
unvisited [] m = 0
unvisited (t ∷ ts) m = if m.visited t.id then unvisited ts m else suc (unvisited ts m)

pub record Inv (all : List Task) (m : Marks) : Type 0 where
  pub rank : String → ℕ
  pub bound : ℕ
  pub below : (k : String) → m.rec_stack k ≡ true → m.visited k ≡ true
  pub ranked :
      (k : String) (t : Task) (d : String)
      → Black m k
      → find_task all k ≡ some t
      → Elem d t.depends_on
      → Black m d × (rank d < rank k)
  pub bounded : (k : String) → Black m k → rank k < bound

-- What a stretch of the search keeps: visits stay, and the stack is as before.
pub record Keeps (m m' : Marks) : Type 0 where
  pub visits : (k : String) → m.visited k ≡ true → m'.visited k ≡ true
  pub stack : (k : String) → m'.rec_stack k ≡ m.rec_stack k

-- No ranking has a given task below all those on the stack.
abbrev NoRankBelow : List Task → (String → Type 0) → Marks → Type 0
NoRankBelow all P m =
    (rank : String → ℕ)
    → Ranking all rank
    → ((d g : String) → P d → m.rec_stack g ≡ true → rank d < rank g)
    → ⊥

-- The outcome of a stretch that starts with the marks `m` and visits the ids of `P`.
abbrev pub Post : List Task → (String → Type 0) → Marks → Outcome → Type 0
Post all P m (done m') = Inv all m' × Keeps m m' × ((d : String) → P d → Black m' d)
Post all P m (fails e) = (e ≢ out_of_fuel) × NoRankBelow all P m

pub Keeps-refl : (m : Marks) → Keeps m m
Keeps-refl m = record { visits = λ k h. h; stack = λ k. refl }

pub Keeps-trans : {m m' m'' : Marks} → Keeps m m' → Keeps m' m'' → Keeps m m''
Keeps-trans a b = record {
  visits = λ k h. b.visits k (a.visits k h);
  stack = λ k. b.stack k ∙ a.stack k;
}

pub Black-Keeps : {m m' : Marks} (d : String) → Keeps m m' → Black m d → Black m' d
Black-Keeps d k (v, r) = (k.visits d v, k.stack d ∙ r)

pub unvisited-le-length : (ts : List Task) (m : Marks) → unvisited ts m ≤ length ts
unfolding unvisited
unvisited-le-length [] m = omega arith
unvisited-le-length (t ∷ ts) m = ground (arith, unvisited-le-length ts m)

pub unvisited-le : (ts : List Task) (m m' : Marks) → Keeps m m' → unvisited ts m' ≤ unvisited ts m
unfolding unvisited
unvisited-le [] m m' k = omega arith
unvisited-le (t ∷ ts) m m' k = ground (arith, unvisited-le ts m m' k, k.visits t.id)

-- A stretch over the rest, after one that left `d` black, is a stretch over `d` and the rest.
Post-cons :
    (all : List Task) (d : String) (ds : List String) (m m' : Marks) (out : Outcome)
    → Keeps m m'
    → Black m' d
    → Post all (λ k. Elem k ds) m' out
    → Post all (λ k. Elem k (d ∷ ds)) m out
Post-cons all d ds m m' (done m'') keeps black (inv, later, rest) =
    (inv, Keeps-trans keeps later, cases)
  where
    cases : (k : String) → Elem k (d ∷ ds) → Black m'' k
    cases k (inl e) = subst (Black m'') e (Black-Keeps d later black)
    cases k (inr h) = rest k h
Post-cons all d ds m m' (fails e) keeps black (ne, none_below) = (
  ne,
  λ rank ranking above.
      none_below rank ranking λ k g h grey. above k g (inr h) (sym (keeps.stack g) ∙ grey),
)

-- One visit, and then the rest.
Post-and_then :
    (all : List Task) (d : String) (ds : List String) (m : Marks) (out : Outcome)
    (next : Marks → Outcome)
    → Post all (λ k. k ≡ d) m out
    → ((m' : Marks) → Inv all m' → Keeps m m' → Post all (λ k. Elem k ds) m' (next m'))
    → Post all (λ k. Elem k (d ∷ ds)) m (and_then out next)
Post-and_then all d ds m (done m') next (inv, keeps, black) rest =
    Post-cons all d ds m m' (next m') keeps (black d refl) (rest m' inv keeps)
Post-and_then all d ds m (fails e) next (ne, none_below) rest =
    (ne, λ rank ranking above. none_below rank ranking λ k g h grey. above k g (inl (sym h)) grey)

module _ (all : List Task) (fuel : ℕ) (visit : String → Marks → Outcome)
    (visit_post : (d : String) (m : Marks)
      → Inv all m
      → unvisited all m < fuel
      → m.visited d ≡ false
      → Held all d
      → Post all (λ k. k ≡ d) m (visit d m)) where
  -- The loop over the dependencies does for all of them what `visit` does for one.
  pub search_deps-Post :
      (id : String) (ds : List String) (m : Marks)
      → Inv all m
      → unvisited all m < fuel
      → ((d : String) → Elem d ds → Held all d)
      → Post all (λ k. Elem k ds) m (search_deps visit id ds m)
  unfolding search_deps
  search_deps-Post id [] m inv enough exist = (inv, Keeps-refl m, λ d h. absurd h)
  search_deps-Post id (d ∷ ds) m inv enough exist = elim (Bool-cases (m.visited d)) [
    | inl v ↦ elim (Bool-cases (m.rec_stack d)) [
      | inl r ↦
          rw (v, search_deps, r)
            ((λ e. cc), λ rank ranking above. (let c = above d d (inl refl) r in omega arith))
      | inr r ↦
          rw (v, search_deps, r)
            (Post-cons all d ds m m _ (Keeps-refl m) (v, r)
              (search_deps-Post id ds m inv enough (λ k h. exist k (inr h))))
    ]
    | inr v ↦
        rw (v, search_deps)
          (Post-and_then all d ds m (visit d m) _ (visit_post d m inv enough v (exist d (inl refl)))
            λ m' inv' keeps.
              search_deps-Post id ds m' inv'
                (let fewer = unvisited-le all m m' keeps in omega arith) (λ k h. exist k (inr h)))
  ]
