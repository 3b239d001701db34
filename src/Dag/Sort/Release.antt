-- ===== src/Dag/Sort/Release.antt =====
-- The loop of TopologicalSort (pkg/dag/validator.go) that lowers the degrees of the dependents of a
-- visited task and queues those that reach zero.
use propeller.Prelude.{
  ℕ, zero, suc, ◌-◌, ◌≤◌, ◌≡◌, ◌⊎◌, refl, sym, ◌∙◌, ap, String, true, false, Option, none, some,
  List, [], ◌∷◌, ◌++◌, arith, str_eq, eq_iff, Bool-cases, inl, inr, Elem,
}
use propeller.Dag.Sort.{one_less, is_zero, lower, push_if_zero, release}
use propeller.Dag.Sort.Counts.{count}

lower_other :
    (d x : String) (degree : String → Option ℕ) → str_eq d x ≡ false → lower d degree x ≡ degree x
unfolding lower
lower_other d x degree n = rw n refl

lower_same :
    (d x : String) (degree : String → Option ℕ) (n : ℕ)
    → str_eq d x ≡ true
    → degree x ≡ some (suc n)
    → lower d degree x ≡ some n
unfolding lower one_less
lower_same d x degree n e h = rw (e, h) refl

-- The degree of a task falls by as often as the task is named.
pub release-degree :
    (ds : List String) (degree : String → Option ℕ) (queue : List String) (x : String) (n : ℕ)
    → degree x ≡ some n
    → count x ds ≤ n
    → (release ds degree queue).0 x ≡ some (n - count x ds)
unfolding release count
release-degree [] degree queue x n h le = h ∙ ap some (omega arith)
release-degree (d ∷ ds) degree queue x n h le = elim (Bool-cases (str_eq d x)) [
  | inr e ↦
      rw e (release-degree ds (lower d degree) _ x n (lower_other d x degree e ∙ h) (rw e at le))
  | inl e ↦
      let le' : suc (count x ds) ≤ n = (rw e at le) in
      let low = lower_same d x degree (n - 1) e (h ∙ ap some (omega arith)) in
      rw e
        (release-degree ds (lower d degree) _ x (n - 1) low (omega arith) ∙ ap some (omega arith))
]

some_inj : {m n : ℕ} → some m ≡ some n → m ≡ n
some_inj e = cc

is_zero_some : (o : Option ℕ) → is_zero o ≡ true → o ≡ some 0
unfolding is_zero
is_zero_some none h = cc
is_zero_some (some zero) h = refl
is_zero_some (some (suc n)) h = cc

module _ (x : String) where
  append-Elem :
      (d : String) (queue : List String) → Elem x (queue ++ d ∷ []) → Elem x queue ⊎ (d ≡ x)
  append-Elem d [] (inl q) = inr q
  append-Elem d [] (inr m) = absurd m
  append-Elem d (y ∷ queue) (inl q) = inl (inl q)
  append-Elem d (y ∷ queue) (inr m) = elim (append-Elem d queue m) [
    | inl a ↦ inl (inr a)
    | inr q ↦ inr q
  ]

  Elem-append : (d : String) (queue : List String) → Elem x queue → Elem x (queue ++ d ∷ [])
  Elem-append d [] m = absurd m
  Elem-append d (y ∷ queue) (inl q) = inl q
  Elem-append d (y ∷ queue) (inr m) = inr (Elem-append d queue m)

  last-Elem : (d : String) (queue : List String) → d ≡ x → Elem x (queue ++ d ∷ [])
  last-Elem d [] q = inl q
  last-Elem d (y ∷ queue) q = inr (last-Elem d queue q)

  push_stays :
      (d : String) (degree : String → Option ℕ) (queue : List String)
      → Elem x queue
      → Elem x (push_if_zero d degree queue)
  unfolding push_if_zero
  push_stays d degree queue m = elim (Bool-cases (is_zero (degree d))) [
    | inl z ↦ rw z (Elem-append d queue m)
    | inr z ↦ rw z m
  ]

  push_from :
      (d : String) (degree : String → Option ℕ) (queue : List String)
      → Elem x (push_if_zero d degree queue)
      → Elem x queue ⊎ ((d ≡ x) × (degree x ≡ some 0))
  unfolding push_if_zero
  push_from d degree queue m = elim (Bool-cases (is_zero (degree d))) [
    | inl z ↦ elim (append-Elem d queue (rw z at m)) [
      | inl a ↦ inl a
      | inr q ↦ inr (q, ap degree (sym q) ∙ is_zero_some (degree d) z)
    ]
    | inr z ↦ inl (rw z at m)
  ]

  push_zero :
      (d : String) (degree : String → Option ℕ) (queue : List String)
      → d ≡ x
      → degree x ≡ some 0
      → Elem x (push_if_zero d degree queue)
  unfolding push_if_zero is_zero
  push_zero d degree queue q h =
      let z : is_zero (degree d) ≡ true = ap (λ y. is_zero (degree y)) q ∙ ap is_zero h in
      rw z (last-Elem d queue q)

  -- What was queued stays there, and what comes is a dependent.
  pub release_stays :
      (ds : List String) (degree : String → Option ℕ) (queue : List String)
      → Elem x queue
      → Elem x (release ds degree queue).1
  unfolding release
  release_stays [] degree queue m = m
  release_stays (d ∷ ds) degree queue m =
      release_stays ds (lower d degree) _ (push_stays d (lower d degree) queue m)

  pub release_from :
      (ds : List String) (degree : String → Option ℕ) (queue : List String)
      → Elem x (release ds degree queue).1
      → Elem x queue ⊎ Elem x ds
  unfolding release
  release_from [] degree queue m = inl m
  release_from (d ∷ ds) degree queue m = elim (release_from ds (lower d degree) _ m) [
    | inr a ↦ inr (inr a)
    | inl a ↦ elim (push_from d (lower d degree) queue a) [
      | inl b ↦ inl b
      | inr (q, z) ↦ inr (inl q)
    ]
  ]

  -- Who is queued has no dependency left.
  pub release_queued :
      (ds : List String) (degree : String → Option ℕ) (queue : List String) (n : ℕ)
      → degree x ≡ some n
      → count x ds ≤ n
      → Elem x (release ds degree queue).1
      → Elem x queue ⊎ ((release ds degree queue).0 x ≡ some 0)
  unfolding release count
  release_queued [] degree queue n h le m = inl m
  release_queued (d ∷ ds) degree queue n h le m = elim (Bool-cases (str_eq d x)) [
    | inr e ↦
        let next = push_if_zero d (lower d degree) queue in
        elim (release_queued ds (lower d degree) next n (lower_other d x degree e ∙ h) (rw e at le)
          m) [
            | inr z ↦ inr z
            | inl a ↦ elim (push_from d (lower d degree) queue a) [
              | inl b ↦ inl b
              | inr (q, z) ↦ absurd (let c : str_eq d x ≡ true = (eq_iff d x).1 q in ground arith)
            ]
          ]
    | inl e ↦
        let next = push_if_zero d (lower d degree) queue in
        let le' : suc (count x ds) ≤ n = (rw e at le) in
        let low = lower_same d x degree (n - 1) e (h ∙ ap some (omega arith)) in
        elim (release_queued ds (lower d degree) next (n - 1) low (omega arith) m) [
          | inr z ↦ inr z
          | inl a ↦ elim (push_from d (lower d degree) queue a) [
            | inl b ↦ inl b
            | inr (q, z) ↦
                let both : some (n - 1) ≡ some 0 = sym low ∙ z in
                let done : n - 1 ≡ 0 = some_inj both in
                inr (
                  release-degree ds (lower d degree) next x (n - 1) low (omega arith)
                  ∙ ap some (omega arith))
          ]
        ]
  ]

  -- Whose last dependency goes is queued.
  pub release_zero :
      (ds : List String) (degree : String → Option ℕ) (queue : List String) (n : ℕ)
      → degree x ≡ some n
      → count x ds ≡ n
      → (n ≡ 0) ⊎ Elem x (release ds degree queue).1
  unfolding release count
  release_zero [] degree queue n h le = inl (sym le)
  release_zero (d ∷ ds) degree queue n h le = elim (Bool-cases (str_eq d x)) [
    | inr e ↦ release_zero ds (lower d degree) _ n (lower_other d x degree e ∙ h) (rw e at le)
    | inl e ↦
        let next = push_if_zero d (lower d degree) queue in
        let le' : suc (count x ds) ≡ n = (rw e at le) in
        let low = lower_same d x degree (n - 1) e (h ∙ ap some (omega arith)) in
        elim (release_zero ds (lower d degree) next (n - 1) low (omega arith)) [
          | inr a ↦ inr a
          | inl z ↦ inr (
              release_stays ds (lower d degree) next
                (push_zero d (lower d degree) queue ((eq_iff d x).0 e) (low ∙ ap some z)))
        ]
  ]
