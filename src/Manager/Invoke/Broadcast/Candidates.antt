-- ===== src/Manager/Invoke/Broadcast/Candidates.antt =====
-- The candidates of an invocation in manager/service.go: their order, and which of them answers.
use propeller.Prelude.{
  ◌≡◌, ◌⊎◌, refl, sym, ◌∙◌, ap, String, Bool, true, false, List, [], ◌∷◌, ◌++◌, str_eq, eq_iff,
  Elem, inl, inr, Bool-cases, arith,
}
use propeller.Task.{Task, Proplet}
use propeller.Errors.{Err}
use propeller.Outcome.{Result, ok, err}
use propeller.Manager.State.{Env, Svc, Action}
use propeller.Manager.Invoke.Broadcast.Recovery.{
  Redeployed, redeployed, recover_latent_deployment-Succeeds,
}
use propeller.Manager.Invoke.Broadcast.{
  split_at_id, ordered_proplets, recover_latent_deployment, after_failure, or_next, invoke_rest,
}

-- The two parts, in the other order, are the whole.
split-append :
    (id : String) (ps : List Proplet) → (split_at_id id ps).1 ++ (split_at_id id ps).0 ≡ ps
unfolding split_at_id
split-append id [] = refl
split-append id (p ∷ ps) = elim (Bool-cases (str_eq p.id id)) [
  | inl e ↦ rw (split_at_id, e) refl
  | inr n ↦ rw (split_at_id, n) (ap (λ qs. p ∷ qs) (split-append id ps))
]

-- The first proplet of the first part has the id, where one has it.
split-first :
    (id : String) (ps : List Proplet) (p : Proplet)
    → Elem p ps
    → p.id ≡ id
    → (q : Proplet) × (rest : List Proplet) × ((split_at_id id ps).0 ≡ q ∷ rest) × (q.id ≡ id)
unfolding split_at_id
split-first id [] p m e = absurd m
split-first id (c ∷ ps) p m e = elim (Bool-cases (str_eq c.id id)) [
  | inl y ↦ rw (split_at_id, y) (c, ps, refl, (eq_iff c.id id).0 y)
  | inr n ↦ rw (split_at_id, n) (split-first id ps p (later n m) e)
]
  where
    later : str_eq c.id id ≡ false → Elem p (c ∷ ps) → Elem p ps
    later n (inr m) = m
    later n (inl q) =
        (let y = (eq_iff c.id id).1 (ap (λ (x : Proplet). x.id) q ∙ e) in absurd (ground arith))

module _ (env : Env) (not_precompiled : Err → Bool) (on : Task → String → Action String) (t : Task)
    (all : List Proplet) where
  -- Each of the proplets failed, in this order, as not having the task precompiled.
  pub data Fails : List Proplet → Svc → Svc → Type 0 where
    no_more : {s : Svc} → Fails [] s s
    and_next :
        {c : Proplet} {cs : List Proplet} {s u v : Svc} (e : Err)
        → on t c.id s ≡ (err e, u)
        → not_precompiled e ≡ true
        → Fails cs u v
        → Fails (c ∷ cs) s v

  -- What the loop does at one candidate.
  at_success :
      (c : Proplet) (after : List Proplet) (s u : Svc) (out : String)
      → on t c.id s ≡ (ok out, u)
      → invoke_rest env not_precompiled on t all (c ∷ after) s ≡ (ok out, u)
  unfolding invoke_rest or_next
  at_success c after s u out h = rw (invoke_rest, h) refl

  at_error :
      (c : Proplet) (after : List Proplet) (s u : Svc) (e : Err)
      → on t c.id s ≡ (err e, u)
      → not_precompiled e ≡ false
      → invoke_rest env not_precompiled on t all (c ∷ after) s ≡ (err e, u)
  unfolding invoke_rest or_next
  at_error c after s u e h n = rw (invoke_rest, h, or_next, n) refl

  past :
      (c d : Proplet) (after : List Proplet) (s u : Svc) (e : Err)
      → on t c.id s ≡ (err e, u)
      → not_precompiled e ≡ true
      → invoke_rest env not_precompiled on t all (c ∷ d ∷ after) s
        ≡ invoke_rest env not_precompiled on t all (d ∷ after) u
  unfolding invoke_rest or_next after_failure
  past c d after s u e h y = rw (invoke_rest, h, or_next, y, after_failure) refl

  at_last :
      (c : Proplet) (s u : Svc) (e : Err)
      → on t c.id s ≡ (err e, u)
      → not_precompiled e ≡ true
      → invoke_rest env not_precompiled on t all (c ∷ []) s
        ≡ (err e, (recover_latent_deployment env not_precompiled on t all u).1)
  unfolding invoke_rest or_next after_failure
  at_last c s u e h y =
      let (x, v, same) = recover_latent_deployment-Succeeds env not_precompiled on t all u in
      rw (invoke_rest, h, or_next, y, after_failure) (rw same refl)

  -- How candidates are asked. Either the first of them fail as not having the task precompiled, and what
  -- the next one answers is the answer: results, or an error of another kind, after which no candidate is
  -- asked and nothing is deployed. Or all of them fail so, and the task is deployed again; the answer is
  -- the error of the last one.
  abbrev pub Answered : List Proplet → Svc → Result String × Svc → Type 0
  Answered cs s out =
      ((before : List Proplet) × (c : Proplet) × (after : List Proplet) × (u v : Svc) × (r : Result
          String)
        × (cs ≡ before ++ c ∷ after)
        × Fails before s u
        × (on t c.id u ≡ (r, v))
        × ((e : Err) → r ≡ err e → not_precompiled e ≡ false)
        × (out ≡ (r, v)))
      ⊎ ((before : List Proplet) × (c : Proplet) × (u v w : Svc) × (e : Err) × (cs
            ≡ before ++ c ∷ [])
          × Fails before s u
          × (on t c.id u ≡ (err e, v))
          × (not_precompiled e ≡ true)
          × Redeployed env t all v w
          × (out ≡ (err e, w)))

  Answered-cons :
      (c : Proplet) (cs : List Proplet) (s u : Svc) (e : Err) (out : Result String × Svc)
      → on t c.id s ≡ (err e, u)
      → not_precompiled e ≡ true
      → Answered cs u out
      → Answered (c ∷ cs) s out
  Answered-cons c cs s u e out h y (inl (before, d, after, v, w, r, cut, fails, h', k, o)) =
      inl (c ∷ before, d, after, v, w, r, ap (λ xs. c ∷ xs) cut, and_next e h y fails, h', k, o)
  Answered-cons c cs s u e out h y (inr (before, d, v, w, x, er, cut, fails, h', k, l, o)) =
      inr (c ∷ before, d, v, w, x, er, ap (λ xs. c ∷ xs) cut, and_next e h y fails, h', k, l, o)

  after_first :
      (c : Proplet) (cs : List Proplet) (s u : Svc) (e : Err)
      → on t c.id s ≡ (err e, u)
      → not_precompiled e ≡ true
      → ((d : Proplet) (ds : List Proplet)
          → cs ≡ d ∷ ds
          → Answered cs u (invoke_rest env not_precompiled on t all cs u))
      → Answered (c ∷ cs) s (invoke_rest env not_precompiled on t all (c ∷ cs) s)
  after_first c [] s u e h y rest = inr (
    [],
    c,
    s,
    u,
    (recover_latent_deployment env not_precompiled on t all u).1,
    e,
    refl,
    no_more,
    h,
    y,
    redeployed env not_precompiled on t all u,
    at_last c s u e h y,
  )
  after_first c (d ∷ ds) s u e h y rest =
      Answered-cons c (d ∷ ds) s u e _ h y (rw (past c d ds s u e h y) (rest d ds refl))

  at_once :
      (c : Proplet) (cs : List Proplet) (s u : Svc) (r : Result String)
      → on t c.id s ≡ (r, u)
      → ((e : Err) → r ≡ err e → not_precompiled e ≡ false)
      → Answered (c ∷ cs) s (invoke_rest env not_precompiled on t all (c ∷ cs) s)
  at_once c cs s u (ok out) h other =
      inl ([], c, cs, s, u, ok out, refl, no_more, h, other, at_success c cs s u out h)
  at_once c cs s u (err e) h other =
      inl ([], c, cs, s, u, err e, refl, no_more, h, other, at_error c cs s u e h (other e refl))

  ask :
      (c : Proplet) (cs : List Proplet) (s : Svc)
      → ((u : Svc) (d : Proplet) (ds : List Proplet)
          → cs ≡ d ∷ ds
          → Answered cs u (invoke_rest env not_precompiled on t all cs u))
      → Answered (c ∷ cs) s (invoke_rest env not_precompiled on t all (c ∷ cs) s)
  ask c cs s rest = by_result (on t c.id s) refl
    where
      by_result :
          (out : Result String × Svc)
          → on t c.id s ≡ out
          → Answered (c ∷ cs) s (invoke_rest env not_precompiled on t all (c ∷ cs) s)
      by_result (ok out, u) h = at_once c cs s u (ok out) h (λ e q. cc)
      by_result (err e, u) h = elim (Bool-cases (not_precompiled e)) [
        | inr n ↦ at_once c cs s u (err e) h (λ e' q. (let same : e ≡ e' = cc in rw (← same) n))
        | inl y ↦ after_first c cs s u e h y (rest u)
      ]

  pub invoke_rest-Answered :
      (c : Proplet) (cs : List Proplet) (s : Svc)
      → Answered (c ∷ cs) s (invoke_rest env not_precompiled on t all (c ∷ cs) s)
  invoke_rest-Answered c [] s = ask c [] s (λ u d ds q. absurd (ground arith))
  invoke_rest-Answered c (d ∷ ds) s = ask c (d ∷ ds) s (λ u d' ds' q. invoke_rest-Answered d ds u)

-- The candidates are all the proplets, and the first one is one with the id that was selected.
pub ordered_proplets_lem :
    (id : String) (ps : List Proplet) (p : Proplet)
    → Elem p ps
    → p.id ≡ id
    → (first : Proplet) × (rest before : List Proplet) × (ordered_proplets ps id
        ≡ first ∷ rest ++ before)
      × (first.id ≡ id)
      × (before ++ first ∷ rest ≡ ps)
unfolding ordered_proplets
ordered_proplets_lem id ps p m e =
    let (q, rest, cut, named) = split-first id ps p m e in
    (
      q,
      rest,
      (split_at_id id ps).1,
      ap (λ xs. xs ++ (split_at_id id ps).1) cut,
      named,
      ap (λ xs. (split_at_id id ps).1 ++ xs) (sym cut) ∙ split-append id ps,
    )
