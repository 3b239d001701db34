-- ===== src/Dag/Visit.antt =====
-- The recursive visit in ValidateDAG (pkg/dag/validator.go): marks on entry, marks on leaving.
use propeller.Prelude.{
  ℕ, zero, suc, ◌<◌, ◌≤◌, ◌≡◌, refl, sym, String, true, false, some, List, [], ◌∷◌, arith, str_eq,
  eq_iff, Bool-cases, inl, inr, Elem, if◌then◌else◌, subst, ◌∙◌, ap, ◌⊎◌,
}
use propeller.Task.{Task}
use propeller.Dag.{Marks, Outcome, done, fails, mark, enter, leave, search_deps, dfs, find_task}
use propeller.Dag.Find.{find_task-Elem}
use propeller.Dag.Search.{Black, Held, DepsHeld, Inv, Keeps, Post, unvisited, search_deps-Post}

module _ (all : List Task) (id : String) (m : Marks) (white : m.visited id ≡ false) where
  unvisited-enter-le : (ts : List Task) → unvisited ts (enter id m) ≤ unvisited ts m
  unfolding unvisited enter
  unvisited-enter-le [] = omega arith
  unvisited-enter-le (t ∷ ts) = ground (arith, unvisited-enter-le ts)

  -- Entering a task of the map uses up one of the tasks not visited.
  unvisited-enter :
      (ts : List Task) (t : Task)
      → Elem t ts
      → t.id ≡ id
      → unvisited ts (enter id m) < unvisited ts m
  unfolding unvisited enter
  unvisited-enter [] t h e = absurd h
  unvisited-enter (u ∷ us) t (inl q) e =
      let same : u.id ≡ id = ap (λ (w : Task). w.id) q ∙ e in
      let fresh : m.visited u.id ≡ false = subst (λ k. m.visited k ≡ false) (sym same) white in
      ground (arith, unvisited-enter-le us, eq_iff u.id id)
  unvisited-enter (u ∷ us) t (inr h) e = ground (arith, unvisited-enter us t h e)

  enter-Black : (k : String) → Black (enter id m) k → Black m k
  unfolding enter
  enter-Black k (v, r) = (ground arith, ground arith)

  Black-enter : (k : String) → Black m k → Black (enter id m) k
  unfolding enter
  Black-enter k (v, r) = (ground (arith, eq_iff k id), ground (arith, eq_iff k id))

  enter-Inv : Inv all m → Inv all (enter id m)
  unfolding enter
  enter-Inv inv = record {
    rank = inv.rank;
    bound = inv.bound;
    below = λ k h. (let b = inv.below k in ground arith);
    ranked = λ k t d black found dep.
        let (b, lt) = inv.ranked k t d (enter-Black k black) found dep in (Black-enter d b, lt);
    bounded = λ k black. inv.bounded k (enter-Black k black);
  }

  -- No stack entry of the entered marks is lost, and `id` is one.
  grey_of_enter : (g : String) → (enter id m).rec_stack g ≡ true → (g ≡ id) ⊎ (m.rec_stack g ≡ true)
  unfolding enter
  grey_of_enter g h = elim (Bool-cases (str_eq g id)) [
    | inl e ↦ inl ((eq_iff g id).0 e)
    | inr n ↦ inr (ground arith)
  ]

  module _ (m' : Marks) (keeps : Keeps (enter id m) m') where
    -- While `id` is on the stack, what is black is another task.
    Black-ne : (k : String) → Black m' k → str_eq k id ≡ false
    unfolding enter
    Black-ne k (v, r) = elim (Bool-cases (str_eq k id)) [
      | inr n ↦ n
      | inl e ↦ (let s = keeps.stack k in ground arith)
    ]

    abbrev final_rank : (String → ℕ) → ℕ → String → ℕ
    final_rank rank bound k = if str_eq k id then bound else rank k

    leave-ranked :
        (t : Task) (inv' : Inv all m')
        → find_task all id ≡ some t
        → ((d : String) → Elem d t.depends_on → Black m' d)
        → (k : String) (u : Task) (d : String)
        → Black (record m' { rec_stack = mark m'.rec_stack id false }) k
        → find_task all k ≡ some u
        → Elem d u.depends_on
        → Black (record m' { rec_stack = mark m'.rec_stack id false }) d
          × (final_rank inv'.rank inv'.bound d < final_rank inv'.rank inv'.bound k)
    leave-ranked t inv' found deps k u d black held dep = elim (Bool-cases (str_eq k id)) [
      | inl e ↦
          let same : k ≡ id = (eq_iff k id).0 e in
          let tu : u ≡ t = cc in
          let b = deps d (subst (λ (w : Task). Elem d w.depends_on) tu dep) in
          let lt = inv'.bounded d b in let n = Black-ne d b in ((b.0, ground arith), ground arith)
      | inr n ↦
          let b : Black m' k = (black.0, ground arith) in
          let (c, lt) = inv'.ranked k u d b held dep in
          let n' = Black-ne d c in ((c.0, ground arith), ground arith)
    ]

    leave-bounded :
        (inv' : Inv all m') (k : String)
        → Black (record m' { rec_stack = mark m'.rec_stack id false }) k
        → final_rank inv'.rank inv'.bound k < suc inv'.bound
    leave-bounded inv' k black = elim (Bool-cases (str_eq k id)) [
      | inl e ↦ ground arith
      | inr n ↦ (let lt = inv'.bounded k (black.0, ground arith) in ground arith)
    ]

    -- The end of the visit of a task whose dependencies are all black: it becomes black, with a
    -- rank above all that were given out before.
    leave-Post :
        (t : Task)
        → find_task all id ≡ some t
        → Inv all m
        → Inv all m'
        → ((d : String) → Elem d t.depends_on → Black m' d)
        → Post all (λ k. k ≡ id) m (leave id (done m'))
    unfolding enter leave
    leave-Post t found inv inv' deps = (
      record {
        rank = final_rank inv'.rank inv'.bound;
        bound = suc inv'.bound;
        below = λ k h. (let b = inv'.below k in ground arith);
        ranked = leave-ranked t inv' found deps;
        bounded = leave-bounded inv';
      },
      record {
        visits = λ k h. keeps.visits k (ground arith);
        stack = λ k. (let s = keeps.stack k in let b = inv.below k in ground (arith, eq_iff k id));
      },
      λ k e. (keeps.visits k (ground (arith, eq_iff k id)), ground (arith, eq_iff k id)),
    )

module _ (all : List Task) (deps_held : DepsHeld all) where
  -- What the visit of a task that the search has not seen does, whichever way it ends.
  pub dfs-Post :
      (fuel : ℕ) (id : String) (m : Marks)
      → Inv all m
      → unvisited all m < fuel
      → m.visited id ≡ false
      → Held all id
      → Post all (λ k. k ≡ id) m (dfs all fuel id m)
  unfolding dfs
  dfs-Post zero id m inv enough white held = absurd (omega arith)
  dfs-Post (suc fuel) id m inv enough white (t, found) =
      rw (found, dfs)
        (finish (search_deps (λ d. dfs all fuel d) id t.depends_on (enter id m)) (
          search_deps-Post all fuel (λ d. dfs all fuel d) (dfs-Post fuel) id t.depends_on
            (enter id m) (enter-Inv all id m white inv)
            (let (listed, same) = find_task-Elem all id t found in
              let fewer = unvisited-enter all id m white all t listed same in omega arith)
            (λ d dep. deps_held id t d found dep)))
    where
      finish :
          (out : Outcome)
          → Post all (λ k. Elem k t.depends_on) (enter id m) out
          → Post all (λ k. k ≡ id) m (leave id out)
      finish (done m') (inv', keeps, black) =
          leave-Post all id m white m' keeps t found inv inv' black
      finish (fails e) (ne, none_below) = (
        ne,
        λ rank ranking above. none_below rank ranking λ d g dep grey.
            let low = ranking id t d found dep in
            elim (grey_of_enter all id m white g grey) [
              | inl same ↦ rw same low
              | inr h ↦ (let high = above id g refl h in omega arith)
            ],
      )
