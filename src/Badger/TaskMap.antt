-- ===== src/Badger/TaskMap.antt =====
-- The tasks of pkg/storage/badger/tasks.go against a map from ids to tasks: the index of metadata
-- stands beside them.
use propeller.Prelude.{
  ◌≡◌, refl, ◌∙◌, String, true, str_eq, if◌then◌else◌, Bool-cases, Option-cases, inl, inr, subst,
  eq_iff,
}
use propeller.Value.{Value, Fields, end, field}
use propeller.Task.{Task}
use propeller.Errors.{
  Err, create_error, update_error, delete_error, task_not_found, store_not_found,
}
use propeller.Outcome.{Result, ok, err, Result-cases, ok_inj}
use propeller.Repository.{meta_value_str}
use propeller.Badger
use propeller.Badger.{wrap_state, Engine, Codec, update_txn, encode, ◌>>=◌, is_key_not_found}
use propeller.Badger.Keys.{same_prefix, meta_idx-task}
use propeller.Badger.Laws.{IsLawful, ComesBack, Outcome, update_txn-Outcome, wrap_state-Outcome}
use propeller.Badger.Records.{
  SetsUnder, ErasesUnder, SetsUnder-Takes, ErasesUnder-Loses, Takes, Loses, read_missing,
}
use propeller.Badger.Tasks.{
  key, meta_idx_key, index_task_txn, deindex_task_txn, deindex_copy, pass_missing, replace_txn,
  remove_txn, create, get, update, delete,
}

-- To read off the first step of a chain that succeeds.
pub bind_ok {ℓ κ} :
    {A : Type ℓ} {B : Type κ} (m : Result A) (f : A → Result B) (b : B)
    → (m >>= f) ≡ ok b
    → (a : A) × (m ≡ ok a) × (f a ≡ ok b)
bind_ok (ok a) f b h = (a, refl, h)
bind_ok (err e) f b h = cc

module _ (db : Engine) (laws : IsLawful db) (json : Codec Task) (sprint : Value → String) where
  -- The tasks are found as before.
  abbrev Keeps : db.State → db.State → Type 0
  Keeps s t = (j : String) → db.find t (key j) ≡ db.find s (key j)

  write-Keeps :
      (k v id w : String) (s t : db.State) → db.write s (meta_idx_key k v id) w ≡ ok t → Keeps s t
  write-Keeps k v id w s t h j =
      laws.find-write s t (meta_idx_key k v id) w (key j) h ∙ rw (meta_idx-task k v id j) refl

  erase-Keeps :
      (k v id : String) (s t : db.State) → db.erase s (meta_idx_key k v id) ≡ ok t → Keeps s t
  erase-Keeps k v id s t h j =
      laws.find-erase s t (meta_idx_key k v id) (key j) h ∙ rw (meta_idx-task k v id j) refl

  pass_missing-Keeps :
      (s u : db.State) (r : Result db.State)
      → pass_missing db json sprint s r ≡ ok u
      → (r ≡ ok u → Keeps s u)
      → Keeps s u
  pass_missing-Keeps s u (ok n) h f j = f h j
  pass_missing-Keeps s u (err e) h f j = elim (Bool-cases (is_key_not_found e)) [
    | inl q ↦ (let g = rw q at h in cc)
    | inr q ↦ (let g = rw q at h in cc)
  ]

  index-Keeps :
      (id : String) (m : Fields) (s t : db.State)
      → index_task_txn db json sprint id m s ≡ ok t
      → Keeps s t
  unfolding index_task_txn
  index-Keeps id end s t h j = cc
  index-Keeps id (field k v m) s t h j =
      let (u, w, rest) =
        bind_ok (db.write s (meta_idx_key k (meta_value_str sprint v) id) "") _ t h in
      index-Keeps id m u t rest j ∙ write-Keeps k (meta_value_str sprint v) id "" s u w j

  deindex-Keeps :
      (id : String) (m : Fields) (s t : db.State)
      → deindex_task_txn db json sprint id m s ≡ ok t
      → Keeps s t
  unfolding deindex_task_txn
  deindex-Keeps id end s t h j = cc
  deindex-Keeps id (field k v m) s t h j =
      let entry = meta_idx_key k (meta_value_str sprint v) id in
      let (u, w, rest) = bind_ok (pass_missing db json sprint s (db.erase s entry)) _ t h in
      deindex-Keeps id m u t rest j
      ∙ pass_missing-Keeps s u (db.erase s entry) w
          (λ e. erase-Keeps k (meta_value_str sprint v) id s u e) j

  copy-Keeps :
      (copy : Result String) (s t : db.State)
      → deindex_copy db json sprint copy s ≡ ok t
      → Keeps s t
  unfolding deindex_copy
  copy-Keeps (err _) s t h j = cc
  copy-Keeps (ok val) s t h j = elim (Option-cases (json.unmarshal val)) [
    | inl e ↦ (let q = rw (e, deindex_copy) at h in cc)
    | inr (old, e) ↦ deindex-Keeps old.id old.metadata s t (rw (e, deindex_copy) at h) j
  ]

  -- The task's record is set last, before its entries.
  write-SetsUnder :
      (t : Task) (val : String) (s u w x : db.State)
      → Keeps s u
      → db.write u (key t.id) val ≡ ok w
      → index_task_txn db json sprint t.id t.metadata w ≡ ok x
      → SetsUnder db "task:" t.id val s x
  write-SetsUnder t val s u w x before set after i =
      index-Keeps t.id t.metadata w x after i
      ∙ laws.find-write u w (key t.id) val (key i) set
      ∙ rw (same_prefix "task:" t.id i, before i) refl

  erase-ErasesUnder :
      (id : String) (s u x : db.State)
      → Keeps s u
      → db.erase u (key id) ≡ ok x
      → ErasesUnder db "task:" id s x
  erase-ErasesUnder id s u x before gone i =
      laws.find-erase u x (key id) (key i) gone ∙ rw (same_prefix "task:" id i, before i) refl

  create-SetsUnder :
      (t : Task) (val : String) (s x : db.State)
      → (db.write s (key t.id) val >>= index_task_txn db json sprint t.id t.metadata) ≡ ok x
      → SetsUnder db "task:" t.id val s x
  create-SetsUnder t val s x h =
      let (w, set, after) = bind_ok (db.write s (key t.id) val) _ x h in
      write-SetsUnder t val s s w x (λ j. refl) set after

  replace-SetsUnder :
      (t : Task) (val : String) (s x : db.State)
      → replace_txn db json sprint t val s ≡ ok x
      → SetsUnder db "task:" t.id val s x
  unfolding replace_txn
  replace-SetsUnder t val s x h = elim (Result-cases (db.find s (key t.id))) [
    | inr (e, q) ↦ (let g = rw (q, replace_txn) at h in cc)
    | inl (copy, q) ↦
        let (u, before, g) =
          bind_ok (deindex_copy db json sprint copy s) _ x (rw (q, replace_txn) at h) in
        let (w, set, after) = bind_ok (db.write u (key t.id) val) _ x g in
        write-SetsUnder t val s u w x (copy-Keeps copy s u before) set after
  ]

  -- A key that cannot be found is not read either.
  absent :
      (k : String) (s : db.State) (e : Err)
      → db.find s k ≡ err e
      → is_key_not_found e ≡ true
      → Badger.get db k s ≡ err store_not_found
  unfolding Badger.get
  absent k s e q n = rw (q, Badger.get, n) refl

  remove-Loses :
      (id : String) (s x : db.State)
      → remove_txn db json sprint id s ≡ ok x
      → Loses db json task_not_found "task:" id s x
  unfolding remove_txn
  remove-Loses id s x h = elim (Result-cases (db.find s (key id))) [
    | inl (copy, q) ↦
        let (u, before, gone) =
          bind_ok (deindex_copy db json sprint copy s) _ x (rw (q, remove_txn) at h) in
        ErasesUnder-Loses db json task_not_found "task:" id s x
          (erase-ErasesUnder id s u x (copy-Keeps copy s u before) gone)
    | inr (e, q) ↦ elim (Bool-cases (is_key_not_found e)) [
      | inr n ↦ (let g = rw (q, remove_txn, n) at h in cc)
      | inl n ↦
          let same : s ≡ x = ok_inj (rw (q, remove_txn, n) at h) in
          subst (λ y. Loses db json task_not_found "task:" id s y) same
            (still id s (absent (key id) s e q n))
    ]
  ]
    where
      still :
          (id : String) (s : db.State)
          → Badger.get db (key id) s ≡ err store_not_found
          → Loses db json task_not_found "task:" id s s
      still id s gone i = elim (Bool-cases (str_eq id i)) [
        | inr n ↦ rw n refl
        | inl e ↦
            let same = (eq_iff id i).0 e in
            rw e (
              read_missing db json task_not_found (key i) s store_not_found
                (subst (λ y. Badger.get db (key y) s ≡ err store_not_found) same gone))
      ]

  -- On a database that does what it documents, with a task that comes back from its JSON: creating it
  -- either fails and changes nothing, or it is read back under its id, whatever was there
  -- before, and every other id as before; the same of an update; deleting an id either fails and
  -- changes nothing, or no task is read under it and every other one as before. The entries of the
  -- index that the three write and delete disturb none of this.
  pub tasks_refine_map :
      (t : Task) (id : String) (s : db.State)
      → ComesBack json t
      → Outcome db
          (λ u.
            (i : String)
            → get db json sprint i u ≡ (if str_eq t.id i then ok t else get db json sprint i s))
          s
          (create db json sprint t s)
        × Outcome db
            (λ u.
              (i : String)
              → get db json sprint i u ≡ (if str_eq t.id i then ok t else get db json sprint i s))
            s
            (update db json sprint t s)
        × Outcome db
            (λ u.
              (i : String)
              → get db json sprint i u
                ≡ (if str_eq id i then err task_not_found else get db json sprint i s))
            s
            (delete db json sprint id s)
  unfolding create update delete get encode
  tasks_refine_map t id s back = (
    elim (Option-cases (json.marshal t)) [
      | inl e ↦ rw (e, create, encode) refl
      | inr (v, e) ↦
          rw (e, create, encode)
            (done create_error (Takes db json task_not_found "task:" t.id t s)
              (λ txn. db.write txn (key t.id) v >>= index_task_txn db json sprint t.id t.metadata)
              λ x h.
                SetsUnder-Takes db json task_not_found "task:" t.id v t s x (back v e)
                  (create-SetsUnder t v s x h))
    ],
    elim (Option-cases (json.marshal t)) [
      | inl e ↦ rw (e, update, encode) refl
      | inr (v, e) ↦
          rw (e, update, encode)
            (done update_error (Takes db json task_not_found "task:" t.id t s)
              (replace_txn db json sprint t v)
              λ x h.
                SetsUnder-Takes db json task_not_found "task:" t.id v t s x (back v e)
                  (replace-SetsUnder t v s x h))
    ],
    done delete_error (Loses db json task_not_found "task:" id s) (remove_txn db json sprint id)
        (λ x h. remove-Loses id s x h),
  )
    where
      done :
          (sentinel : Err → Err) (P : db.State → Type 0) (fn : db.State → Result db.State)
          → ((x : db.State) → fn s ≡ ok x → P x)
          → Outcome db P s (wrap_state db sentinel (update_txn db fn s))
      done sentinel P fn h =
          wrap_state-Outcome db P sentinel s (update_txn db fn s) (update_txn-Outcome db P fn s h)
