-- ===== src/Manager/Shutdown/Covered.antt =====
-- Keyed stores, and the lists that cover the active tasks of a store, for the shutdown.
use propeller.Prelude.{
  ℕ, ◌≡◌, ◌⊎◌, refl, sym, ◌∙◌, ap, String, true, false, none, some, List, ◌∷◌, arith, str_eq,
  eq_iff, Bool-cases, inl, inr, Elem,
}
use propeller.Task.{Task, interrupted}
use propeller.Storage
use propeller.Storage.{word_mod}
use propeller.Storage.Laws.{lookup-put}
use propeller.Manager.Workflow.{is_active}

-- Each task is stored under its id, and none under the empty key, which the store refuses.
pub record IsKeyed (tasks : List (String × Task)) : Type 0 where
  pub named : Storage.lookup tasks "" ≡ none
  pub keyed : (id : String) (t : Task) → Storage.lookup tasks id ≡ some t → t.id ≡ id

pub put-IsKeyed :
    (t : Task) (tasks : List (String × Task))
    → str_eq t.id "" ≡ false
    → IsKeyed tasks
    → IsKeyed (Storage.put t.id t tasks)
put-IsKeyed t tasks n k = record {
  named = lookup-put t.id "" t tasks ∙ rw n k.named;
  keyed = λ id u e. elim (Bool-cases (str_eq t.id id)) [
    | inl s ↦
        let f = lookup-put t.id id t tasks in
        let same : some t ≡ some u = sym (rw s at f) ∙ e in
        let t_is_u : t ≡ u = cc in ap (λ (w : Task). w.id) (sym t_is_u) ∙ (eq_iff t.id id).0 s
    | inr s ↦ (let f = lookup-put t.id id t tasks in k.keyed id u (sym (rw s at f) ∙ e))
  ];
}

-- Every active task that is stored is still to come in the list.
abbrev pub Covered : List Task → List (String × Task) → Type 0
Covered ts tasks =
    (id : String) (t : Task)
    → Storage.lookup tasks id ≡ some t
    → is_active t.state ≡ true
    → (u : Task) × Elem u ts × (u.id ≡ id) × (is_active u.state ≡ true)

-- What a round leaves behind: the store of before, or the task of the list is interrupted in it.
abbrev pub stopped : ℕ → Task → Task
stopped time t = record t {
  state = interrupted;
  error = "interrupted by shutdown";
  finish_time = time;
  updated_at = time;
}

abbrev IsQuiet : ℕ → Task → Type 0
IsQuiet time t = is_active (stopped time t).state ≡ false

stopped_inactive : (time : ℕ) (t : Task) → IsQuiet time t
unfolding is_active
stopped_inactive time t = refl

pub put-Covered :
    (time : ℕ) (t : Task) (ts : List Task) (tasks : List (String × Task))
    → Covered (t ∷ ts) tasks
    → Covered ts (Storage.put t.id (stopped time t) tasks)
put-Covered time t ts tasks c id u e a = elim (Bool-cases (str_eq t.id id)) [
  | inl s ↦
      let f = lookup-put t.id id (stopped time t) tasks in
      let same : some (stopped time t) ≡ some u = sym (rw s at f) ∙ e in
      let is_u : stopped time t ≡ u = cc in
      let quiet = stopped_inactive time t in
      absurd (
        let b : is_active (stopped time t).state ≡ true =
          ap (λ (w : Task). is_active w.state) is_u ∙ a in
        ground arith)
  | inr s ↦
      let f = lookup-put t.id id (stopped time t) tasks in later s (c id u (sym (rw s at f) ∙ e) a)
]
  where
    later :
        str_eq t.id id ≡ false
        → (w : Task) × Elem w (t ∷ ts) × (w.id ≡ id) × (is_active w.state ≡ true)
        → (w : Task) × Elem w ts × (w.id ≡ id) × (is_active w.state ≡ true)
    later s (w, inl q, same, b) =
        let at : t.id ≡ id = ap (λ (x : Task). x.id) q ∙ same in
        absurd (ground (arith, eq_iff t.id id))
    later s (w, inr m, same, b) = (w, m, same, b)

pub same-Covered :
    (t : Task) (ts : List Task) (tasks : List (String × Task))
    → IsKeyed tasks
    → (is_active t.state ≡ false) ⊎ (str_eq t.id "" ≡ true) ⊎ (Storage.lookup tasks t.id ≡ none)
    → Covered (t ∷ ts) tasks
    → Covered ts tasks
same-Covered t ts tasks k why c id u e a = later why (c id u e a)
  where
    later :
        (is_active t.state ≡ false) ⊎ (str_eq t.id "" ≡ true) ⊎ (Storage.lookup tasks t.id ≡ none)
        → (w : Task) × Elem w (t ∷ ts) × (w.id ≡ id) × (is_active w.state ≡ true)
        → (w : Task) × Elem w ts × (w.id ≡ id) × (is_active w.state ≡ true)
    later y (w, inr m, same, b) = (w, m, same, b)
    later (inl q) (w, inl p, same, b) =
        let d : is_active t.state ≡ true = ap (λ (x : Task). is_active x.state) p ∙ b in
        absurd (ground arith)
    later (inr (inl q)) (w, inl p, same, b) =
        let at : t.id ≡ id = ap (λ (x : Task). x.id) p ∙ same in
        let empty : id ≡ "" = sym at ∙ (eq_iff t.id "").0 q in
        let clash : none ≡ some u = sym k.named ∙ ap (Storage.lookup tasks) (sym empty) ∙ e in
        absurd (ground arith)
    later (inr (inr q)) (w, inl p, same, b) =
        let at : t.id ≡ id = ap (λ (x : Task). x.id) p ∙ same in
        let clash : none ≡ some u = sym q ∙ ap (Storage.lookup tasks) at ∙ e in
        absurd (ground arith)
