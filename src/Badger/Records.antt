-- ===== src/Badger/Records.antt =====
-- The repositories of pkg/storage/badger without an index (jobs.go, proplets.go, task_proplets.go)
-- against maps from ids to records.
use Prim.Native.String.{◌++◌ as ◌++ᵗ◌}
use propeller.Prelude.{
  ◌≡◌, refl, ◌∙◌, String, some, str_eq, if◌then◌else◌, Bool-cases, Option-cases, inl, inr,
}
use propeller.Task.{Job, Proplet}
use propeller.Errors.{
  Err, key_not_found, store_not_found, create_error, update_error, proplet_not_found,
}
use propeller.Outcome.{Result, ok, err}
use propeller.Badger.{Engine, Codec, encode, decode, get, set, delete, save_record, read_record}
use propeller.Badger.Keys.{same_prefix}
use propeller.Badger.Laws.{
  IsLawful, ComesBack, Outcome, Sets, Erases, set-Outcome, delete-Outcome, wrap_state-Outcome,
}
use propeller.Badger.Jobs
use propeller.Badger.Proplets

module _ (db : Engine) where
  Outcome-map :
      (P Q : db.State → Type 0) (s : db.State) (out : Result (Unit {0}) × db.State)
      → ((t : db.State) → P t → Q t)
      → Outcome db P s out
      → Outcome db Q s out
  Outcome-map P Q s (ok _, t) f h = f t h
  Outcome-map P Q s (err _, t) f h = h

  -- Reading at one key asks for nothing but what is found there.
  get_cong : (k : String) (s t : db.State) → db.find t k ≡ db.find s k → get db k t ≡ get db k s
  unfolding get
  get_cong k s t e = rw (e, get) refl

  get_found : (k v : String) (s : db.State) → db.find s k ≡ ok (ok v) → get db k s ≡ ok v
  unfolding get
  get_found k v s e = rw (e, get) refl

  get_missing :
      (k : String) (s : db.State)
      → db.find s k ≡ err key_not_found
      → get db k s ≡ err store_not_found
  unfolding get
  get_missing k s e = rw (e, get) refl

  -- What is found under a prefix, after one of its keys is set or deleted.
  abbrev pub SetsUnder : String → String → String → db.State → db.State → Type 0
  SetsUnder p x v s t =
      (i : String) → db.find t (p ++ᵗ i) ≡ (if str_eq x i then ok (ok v) else db.find s (p ++ᵗ i))

  abbrev pub ErasesUnder : String → String → db.State → db.State → Type 0
  ErasesUnder p x s t =
      (i : String)
      → db.find t (p ++ᵗ i) ≡ (if str_eq x i then err key_not_found else db.find s (p ++ᵗ i))

  Sets-SetsUnder : (p x v : String) (s t : db.State) → Sets db (p ++ᵗ x) v s t → SetsUnder p x v s t
  Sets-SetsUnder p x v s t h i = h (p ++ᵗ i) ∙ rw (same_prefix p x i) refl

  Erases-ErasesUnder :
      (p x : String) (s t : db.State) → Erases db (p ++ᵗ x) s t → ErasesUnder p x s t
  Erases-ErasesUnder p x s t h i = h (p ++ᵗ i) ∙ rw (same_prefix p x i) refl

  get-SetsUnder :
      (p x v : String) (s t : db.State)
      → SetsUnder p x v s t
      → (i : String) → get db (p ++ᵗ i) t ≡ (if str_eq x i then ok v else get db (p ++ᵗ i) s)
  get-SetsUnder p x v s t h i = elim (Bool-cases (str_eq x i)) [
    | inl e ↦ rw e (get_found (p ++ᵗ i) v t (h i ∙ rw e refl))
    | inr n ↦ rw n (get_cong (p ++ᵗ i) s t (h i ∙ rw n refl))
  ]

  get-ErasesUnder :
      (p x : String) (s t : db.State)
      → ErasesUnder p x s t
      → (i : String)
      → get db (p ++ᵗ i) t ≡ (if str_eq x i then err store_not_found else get db (p ++ᵗ i) s)
  get-ErasesUnder p x s t h i = elim (Bool-cases (str_eq x i)) [
    | inl e ↦ rw e (get_missing (p ++ᵗ i) t (h i ∙ rw e refl))
    | inr n ↦ rw n (get_cong (p ++ᵗ i) s t (h i ∙ rw n refl))
  ]

module _ (db : Engine) {R : Type 0} (json : Codec R) (missing : Err) where
  read_cong :
      (k : String) (s t : db.State)
      → get db k t ≡ get db k s
      → read_record db json missing k t ≡ read_record db json missing k s
  unfolding read_record
  read_cong k s t e = rw (e, read_record) refl

  pub read_missing :
      (k : String) (s : db.State) (e : Err)
      → get db k s ≡ err e
      → read_record db json missing k s ≡ err missing
  unfolding read_record
  read_missing k s e h = rw (h, read_record) refl

  read_found :
      (k v : String) (s : db.State) (r : R)
      → get db k s ≡ ok v
      → json.unmarshal v ≡ some r
      → read_record db json missing k s ≡ ok r
  unfolding read_record decode
  read_found k v s r h u = rw (h, u, read_record, decode) refl

  -- A map under a prefix that takes up a record, and one that loses a record.
  abbrev pub Takes : String → String → R → db.State → db.State → Type 0
  Takes p x r s t =
      (i : String)
      → read_record db json missing (p ++ᵗ i) t
        ≡ (if str_eq x i then ok r else read_record db json missing (p ++ᵗ i) s)

  abbrev pub Loses : String → String → db.State → db.State → Type 0
  Loses p x s t =
      (i : String)
      → read_record db json missing (p ++ᵗ i) t
        ≡ (if str_eq x i then err missing else read_record db json missing (p ++ᵗ i) s)

  pub SetsUnder-Takes :
      (p x v : String) (r : R) (s t : db.State)
      → json.unmarshal v ≡ some r
      → SetsUnder db p x v s t
      → Takes p x r s t
  SetsUnder-Takes p x v r s t u h i = elim (Bool-cases (str_eq x i)) [
    | inl e ↦ rw e (read_found (p ++ᵗ i) v t r (get-SetsUnder db p x v s t h i ∙ rw e refl) u)
    | inr n ↦ rw n (read_cong (p ++ᵗ i) s t (get-SetsUnder db p x v s t h i ∙ rw n refl))
  ]

  pub ErasesUnder-Loses : (p x : String) (s t : db.State) → ErasesUnder db p x s t → Loses p x s t
  ErasesUnder-Loses p x s t h i = elim (Bool-cases (str_eq x i)) [
    | inl e ↦
        rw e (read_missing (p ++ᵗ i) t store_not_found (get-ErasesUnder db p x s t h i ∙ rw e refl))
    | inr n ↦ rw n (read_cong (p ++ᵗ i) s t (get-ErasesUnder db p x s t h i ∙ rw n refl))
  ]

  save-Outcome :
      IsLawful db
      → (sentinel : Err → Err) (p x : String) (r : R) (s : db.State) → ComesBack json r
      → Outcome db (Takes p x r s) s (save_record db json sentinel (p ++ᵗ x) r s)
  unfolding save_record encode
  save-Outcome laws sentinel p x r s back = elim (Option-cases (json.marshal r)) [
    | inl e ↦ rw (e, save_record) refl
    | inr (v, e) ↦
        rw (e, save_record)
          (wrap_state-Outcome db (Takes p x r s) sentinel s (set db (p ++ᵗ x) v s) (
            Outcome-map db (Sets db (p ++ᵗ x) v s) (Takes p x r s) s (set db (p ++ᵗ x) v s)
              (λ t h. SetsUnder-Takes p x v r s t (back v e) (Sets-SetsUnder db p x v s t h))
              (set-Outcome db laws (p ++ᵗ x) v s)))
  ]

  erase-Outcome :
      IsLawful db
      → (p x : String) (s : db.State) → Outcome db (Loses p x s) s (delete db (p ++ᵗ x) s)
  erase-Outcome laws p x s =
      Outcome-map db (Erases db (p ++ᵗ x) s) (Loses p x s) s (delete db (p ++ᵗ x) s)
        (λ t h. ErasesUnder-Loses p x s t (Erases-ErasesUnder db p x s t h))
        (delete-Outcome db laws (p ++ᵗ x) s)

module _ (db : Engine) (laws : IsLawful db) where
  -- On a database that does what it documents, with a job that comes back from its JSON: creating
  -- it either fails and changes nothing, or it is read back under its id, whatever was there
  -- before, and every other id as before; deleting an id either fails and changes nothing, or no
  -- job is read under it and every other one as before.
  jobs_refine_map :
      (json : Codec Job) (j : Job) (id : String) (s : db.State)
      → ComesBack json j
      → Outcome db
          (λ t.
            (i : String)
            → Jobs.get db json i t ≡ (if str_eq j.id i then ok j else Jobs.get db json i s))
          s
          (Jobs.create db json j s)
        × Outcome db
            (λ t.
              (i : String)
              → Jobs.get db json i t
                ≡ (if str_eq id i then err store_not_found else Jobs.get db json i s))
            s
            (Jobs.delete db json id s)
  unfolding Jobs.create Jobs.get Jobs.delete
  jobs_refine_map json j id s back = (
    save-Outcome db json store_not_found laws create_error "job:" j.id j s back,
    erase-Outcome db json store_not_found laws "job:" id s,
  )

  -- The same of a proplet's creation, update and deletion; an update of one that is not there
  -- creates it.
  proplets_refine_map :
      (json : Codec Proplet) (p : Proplet) (id : String) (s : db.State)
      → ComesBack json p
      → Outcome db
          (λ t.
            (i : String)
            → Proplets.get db json i t ≡ (if str_eq p.id i then ok p else Proplets.get db json i s))
          s
          (Proplets.create db json p s)
        × Outcome db
            (λ t.
              (i : String)
              → Proplets.get db json i t
                ≡ (if str_eq p.id i then ok p else Proplets.get db json i s))
            s
            (Proplets.update db json p s)
        × Outcome db
            (λ t.
              (i : String)
              → Proplets.get db json i t
                ≡ (if str_eq id i then err proplet_not_found else Proplets.get db json i s))
            s
            (Proplets.delete db json id s)
  unfolding Proplets.create Proplets.get Proplets.delete Proplets.update
  proplets_refine_map json p id s back = (
    save-Outcome db json proplet_not_found laws create_error "proplet:" p.id p s back,
    save-Outcome db json proplet_not_found laws update_error "proplet:" p.id p s back,
    erase-Outcome db json proplet_not_found laws "proplet:" id s,
  )
