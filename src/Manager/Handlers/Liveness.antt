-- ===== src/Manager/Handlers/Liveness.antt =====
-- What a sign of life does (updateLivenessHandler of manager/service.go).
use propeller.Prelude.{
  ℕ, zero, suc, ◌-◌, ◌≤◌, ◌<◌, ◌≡◌, ◌≢◌, refl, sym, ◌∙◌, String, true, false, none, some, List, [],
  ◌∷◌, ◌++◌, arith, str_eq, eq_iff, Bool-cases, inl, inr, length, take, drop, take-append-drop,
  length-drop, ltb,
}
use propeller.Value.{text, Fields, get_field}
use propeller.Task.{Proplet, alive_timeout, last?, set_alive}
use propeller.Storage
use propeller.Storage.Laws.{lookup-put}
use propeller.Outcome.{ok}
use propeller.Manager.State.{Env, Svc, reading, updating, external, now, asked}
use propeller.Manager.Repos.{proplet_update, proplet_repo_get}
use propeller.Manager.Proplets.{get_proplet}
use propeller.Manager.Handlers.{keep_last, seen_at, update_liveness_handler}

last?-append : (xs : List ℕ) (t : ℕ) → last? (xs ++ t ∷ []) ≡ some t
unfolding last?
last?-append [] t = refl
last?-append (x ∷ []) t = refl
last?-append (x ∷ y ∷ xs) t = last?-append (y ∷ xs) t

last?-drop : (n : ℕ) (xs : List ℕ) → n < length xs → last? (drop n xs) ≡ last? xs
unfolding last?
last?-drop zero xs h = refl
last?-drop (suc n) [] h = absurd (omega arith)
last?-drop (suc n) (x ∷ []) h = absurd (omega arith)
last?-drop (suc n) (x ∷ y ∷ xs) h = last?-drop n (y ∷ xs) (omega arith)

keep_last_short : (xs : List ℕ) → length (keep_last 10 xs) ≤ 10
unfolding keep_last
keep_last_short xs = elim (Bool-cases (ltb 10 (length xs))) [
  | inl e ↦ rw e (let d = length-drop (length xs - 10) xs in omega arith)
  | inr e ↦ rw e (ground arith)
]

last?-keep_last : (xs : List ℕ) → last? (keep_last 10 xs) ≡ last? xs
unfolding keep_last
last?-keep_last xs = elim (Bool-cases (ltb 10 (length xs))) [
  | inl e ↦ rw e (last?-drop (length xs - 10) xs (ground arith))
  | inr e ↦ rw e refl
]

alive_within :
    (p : Proplet) (t later : ℕ)
    → last? p.alive_history ≡ some t
    → later - t ≤ alive_timeout
    → (set_alive later p).alive ≡ true
unfolding set_alive
alive_within p t later e h = rw e (ground arith)

keep_last_rest :
    (xs : List ℕ)
    → (older : List ℕ) × (older ++ keep_last 10 xs ≡ xs) × (length xs ≤ 10 → older ≡ [])
unfolding keep_last
keep_last_rest xs = elim (Bool-cases (ltb 10 (length xs))) [
  | inl e ↦
      rw e
        (take (length xs - 10) xs, take-append-drop (length xs - 10) xs, λ h. absurd (ground arith))
  | inr e ↦ rw e ([], refl, λ h. refl)
]

-- `q` is `p` seen at a time: it is the same proplet but for its life; it is alive, and whenever it is
-- looked at within the timeout it counts as alive; of the times at which it was seen, that time
-- added at their end, it keeps the latest, ten at most, and all of them where they are no more.
pub record IsSeen (time : ℕ) (p q : Proplet) : Type 0 where
  pub same_id : q.id ≡ p.id
  pub same_name : q.name ≡ p.name
  pub same_count : q.task_count ≡ p.task_count
  pub same_metadata : q.metadata ≡ p.metadata
  pub is_alive : q.alive ≡ true
  pub stays_alive : (later : ℕ) → later - time ≤ alive_timeout → (set_alive later q).alive ≡ true
  pub few : length q.alive_history ≤ 10
  pub latest :
      (older : List ℕ) × (older ++ q.alive_history ≡ p.alive_history ++ time ∷ [])
      × (length (p.alive_history ++ time ∷ []) ≤ 10 → older ≡ [])

seen_at_lem : (p : Proplet) (now t : ℕ) → IsSeen t p (seen_at t (set_alive now p))
unfolding seen_at set_alive
seen_at_lem p now t =
    let seen = seen_at t (set_alive now p) in
    let last = last?-keep_last (p.alive_history ++ t ∷ []) ∙ last?-append p.alive_history t in
    record {
      same_id = refl;
      same_name = refl;
      same_count = refl;
      same_metadata = refl;
      is_alive = refl;
      stays_alive = λ later h. alive_within seen t later last h;
      few = keep_last_short (p.alive_history ++ t ∷ []);
      latest = keep_last_rest (p.alive_history ++ t ∷ []);
    }

not_empty : (id : String) → id ≢ "" → str_eq id "" ≡ false
not_empty id named = elim (Bool-cases (str_eq id "")) [
  | inl e ↦ absurd (named ((eq_iff id "").0 e))
  | inr e ↦ e
]

module _ (env : Env)
    (works : (n : ℕ) → (env.fault reading n ≡ none) × (env.fault updating n ≡ none)) where
  get_proplet_known :
      (id : String) (p : Proplet) (s : Svc)
      → str_eq id "" ≡ false
      → Storage.lookup s.proplets id ≡ some p
      → get_proplet env id s ≡ (ok (set_alive (env.clock (suc s.calls)) p), asked (asked s))
  unfolding get_proplet proplet_repo_get external now Storage.get
  get_proplet_known id p s named known = rw ((works s.calls).0, named, known) refl

  proplet_update_known :
      (q p : Proplet) (s : Svc)
      → str_eq q.id "" ≡ false
      → Storage.lookup s.proplets q.id ≡ some p
      → proplet_update env q s
        ≡ (ok tt, record (asked s) { proplets = Storage.put q.id q s.proplets })
  unfolding proplet_update external Storage.update
  proplet_update_known q p s named known = rw ((works s.calls).1, named, known) refl

  -- Where reading and updating do not fail, a message with the id of a known proplet is handled
  -- without error: the proplet is stored as seen now, and every other proplet is as it was.
  pub update_liveness_handler_lem :
      (msg : Fields) (p : Proplet) (s : Svc)
      → get_field msg "proplet_id" ≡ some (text p.id)
      → p.id ≢ ""
      → Storage.lookup s.proplets p.id ≡ some p
      → ((update_liveness_handler env msg s).0 ≡ ok tt)
        × ((q : Proplet) × (Storage.lookup (update_liveness_handler env msg s).1.proplets p.id
              ≡ some q)
            × IsSeen (env.clock (suc (suc s.calls))) p q)
        × ((j : String)
            → j ≢ p.id
            → Storage.lookup (update_liveness_handler env msg s).1.proplets j
              ≡ Storage.lookup s.proplets j)
  unfolding update_liveness_handler set_alive seen_at now
  update_liveness_handler_lem msg p s m named known =
      let b = not_empty p.id named in
      let got = get_proplet_known p.id p s b known in
      let seen = seen_at (env.clock (suc (suc s.calls))) (set_alive (env.clock (suc s.calls)) p) in
      let put = proplet_update_known seen p (asked (asked (asked s))) b known in
      let stored = λ (j : String). lookup-put p.id j seen s.proplets in
      rw (m, update_liveness_handler, b, got)
        (rw put (
          refl,
          (
            seen,
            rw (stored p.id, (eq_iff p.id p.id).1 refl) refl,
            seen_at_lem p (env.clock (suc s.calls)) (env.clock (suc (suc s.calls))),
          ),
          λ j other. (elim (Bool-cases (str_eq p.id j)) [
            | inl e ↦ absurd (other (sym ((eq_iff p.id j).0 e)))
            | inr e ↦ rw (stored j, e) refl
          ]),
        ))
