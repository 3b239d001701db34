-- ===== src/Scheduler/Alive.antt =====
-- pkg/scheduler/roundrobin.go: a proplet that is chosen is alive.
use propeller.Prelude.{
  ℕ, zero, suc, ◌+◌, ◌%◌, ◌≡◌, ◌∙◌, subst, ap, true, some, List, [], ◌∷◌, arith, Bool-cases,
  Option-cases, inl, inr, Elem, length, get_elem?, ◌==◌,
}
use propeller.Task.{Proplet}
use propeller.Outcome.{ok}
use propeller.Scheduler.{scan, select_proplet, count_alive}

get_elem?-Elem : (ps : List Proplet) (i : ℕ) (p : Proplet) → get_elem? ps i ≡ some p → Elem p ps
get_elem?-Elem [] i p h = cc
get_elem?-Elem (q ∷ ps) zero p h = inl (let k : q ≡ p = cc in k)
get_elem?-Elem (q ∷ ps) (suc i) p h = inr (get_elem?-Elem ps i p h)

scan_alive :
    (rounds : ℕ) (ps : List Proplet) (last : ℕ) (p : Proplet) (next : ℕ)
    → scan rounds ps last ≡ some (p, next)
    → Elem p ps × (p.alive ≡ true)
unfolding scan
scan_alive zero ps last p next h = cc
scan_alive (suc rounds) ps last p next h =
    elim (Option-cases (get_elem? ps ((last + 1) % length ps))) [
      | inl e ↦ (let k = rw (scan, e) at h in absurd (ground arith))
      | inr (q, e) ↦ elim (Bool-cases q.alive) [
        | inl a ↦
            let same : q ≡ p = (let k = rw (scan, e, a) at h in cc) in
            (
              get_elem?-Elem ps _ p (e ∙ ap some same),
              subst (λ (r : Proplet). r.alive ≡ true) same a,
            )
        | inr a ↦ scan_alive rounds ps ((last + 1) % length ps) p next (rw (scan, e, a) at h)
      ]
    ]

-- What the round-robin choice answers with is one of the given proplets, and alive.
pub select_proplet_alive :
    (last : ℕ) (ps : List Proplet) (p : Proplet) (next : ℕ)
    → select_proplet last ps ≡ (ok p, next)
    → Elem p ps × (p.alive ≡ true)
unfolding select_proplet
select_proplet_alive last ps p next h = elim (Bool-cases (length ps == 0)) [
  | inl e ↦ (let k = rw e at h in absurd (ground arith))
  | inr e ↦ elim (Bool-cases (count_alive ps == 0)) [
    | inl d ↦ (let k = rw (e, d) at h in absurd (ground arith))
    | inr d ↦ elim (Option-cases (scan (length ps) ps last)) [
      | inl f ↦ (let k = rw (e, d, f) at h in absurd (ground arith))
      | inr ((q, n), f) ↦
          let same : q ≡ p = (let k = rw (e, d, f) at h in cc) in
          scan_alive (length ps) ps last p n (f ∙ ap (λ (r : Proplet). some (r, n)) same)
    ]
  ]
]
