-- ===== src/Repository/Exact.antt =====
-- The invariant of the task repository (pkg/storage/memory_adapter.go): its index of metadata holds
-- exactly the entries of the stored tasks.
use propeller.Prelude.{
  ◌≡◌, refl, sym, ◌∙◌, ap, String, Bool, false, Option, none, some, List, [], ◌∷◌, arith, str_eq,
  eq_iff, if◌then◌else◌, contains, Bool-cases, Option-cases, inl, inr,
}
use propeller.Value.{Value}
use propeller.Task.{Task}
use propeller.Storage
use propeller.Storage.Laws.{lookup-put, lookup-remove}
use propeller.Repository.{Repo, MetaIdx, deindex_old, create, update, delete, index_task, new_repo}
use propeller.Repository.Index.{has, mem_meta, has-index_task, has-deindex_task}

module _ (sprint : Value → String) where
  -- A stored task has the entry.
  abbrev pub holds : Option Task → String → String → Bool
  holds none k s = false
  holds (some t) k s = mem_meta sprint t.metadata k s

  pub record IsExact (r : Repo) : Type 0 where
    pub named : Storage.lookup r.storage "" ≡ none
    pub keyed : (id : String) (t : Task) → Storage.lookup r.storage id ≡ some t → t.id ≡ id
    pub exact : (k s id : String) → has r.meta_idx k s id ≡ holds (Storage.lookup r.storage id) k s

  -- The entries of what was stored under the id are gone, and no others.
  has-deindex_old :
      (id : String) (r : Repo) (k s i : String)
      → IsExact r
      → has (deindex_old sprint id r) k s i ≡ (
          if str_eq id i
          then (if str_eq id "" then has r.meta_idx k s i else false)
          else has r.meta_idx k s i)
  unfolding deindex_old Storage.get
  has-deindex_old id r k s i inv = elim (Bool-cases (str_eq id "")) [
    | inl e ↦ rw (e, deindex_old) (ground arith)
    | inr named ↦
        let here = inv.exact k s id in
        elim (Option-cases (Storage.lookup r.storage id)) [
          | inl e ↦ rw (named, e, deindex_old) (ground (arith, here, eq_iff id i))
          | inr (old, e) ↦
              let same = inv.keyed id old e in
              rw (named, e, deindex_old)
                (has-deindex_task sprint old.id old.metadata k s i r.meta_idx
                  ∙ ground (arith, here, eq_iff id i))
        ]
  ]

  -- An index that takes up a task, in place of whatever stood under its id.
  put-IsExact :
      (t : Task) (r : Repo) (idx : MetaIdx)
      → IsExact r
      → str_eq t.id "" ≡ false
      → ((k s i : String) → has idx k s i ≡ (if str_eq t.id i then false else has r.meta_idx k s i))
      → IsExact (record {
        storage = Storage.put t.id t r.storage;
        meta_idx = index_task sprint t.id t.metadata idx;
      })
  put-IsExact t r idx inv t_named gone = record {
    named = lookup-put t.id "" t r.storage ∙ rw t_named inv.named;
    keyed = λ id u e. elim (Bool-cases (str_eq t.id id)) [
      | inl s ↦
          (let f = lookup-put t.id id t r.storage in
            let same : some t ≡ some u = sym (rw s at f) ∙ e in
            ap (λ (o : Option Task). id_or o) (sym same) ∙ (eq_iff t.id id).0 s)
      | inr n ↦ (let f = lookup-put t.id id t r.storage in inv.keyed id u (sym (rw n at f) ∙ e))
    ];
    exact = λ k s i.
        has-index_task sprint t.id t.metadata k s i idx
        ∙ ground (arith, gone k s i, lookup-put t.id i t r.storage, inv.exact k s i);
  }
    where
      id_or : Option Task → String
      id_or none = ""
      id_or (some u) = u.id

  -- Creation keeps the index exact, whether it succeeds or not.
  create-IsExact : (t : Task) (r : Repo) → IsExact r → IsExact (create sprint t r).1
  unfolding create Storage.create
  create-IsExact t r inv = elim (Bool-cases (str_eq t.id "")) [
    | inl e ↦ rw (e, create) inv
    | inr named ↦ elim (Option-cases (Storage.lookup r.storage t.id)) [
      | inr (old, e) ↦ rw (named, e, create) inv
      | inl e ↦
          rw (named, e, create)
            (put-IsExact t r r.meta_idx inv named
              λ k s i. (let here = inv.exact k s t.id in ground (arith, eq_iff t.id i, here)))
    ]
  ]

  unchanged :
      (id : String) (r : Repo) (idx : MetaIdx)
      → IsExact r
      → ((k s i : String) → has idx k s i ≡ has r.meta_idx k s i)
      → IsExact (record r { meta_idx = idx })
  unchanged id r idx inv same = record {
    named = inv.named;
    keyed = inv.keyed;
    exact = λ k s i. same k s i ∙ inv.exact k s i;
  }

  update-IsExact : (t : Task) (r : Repo) → IsExact r → IsExact (update sprint t r).1
  unfolding update Storage.update
  update-IsExact t r inv = elim (Bool-cases (str_eq t.id "")) [
    | inl e ↦
        rw (e, update)
          (unchanged t.id r _ inv
            λ k s i. (let d = has-deindex_old t.id r k s i inv in ground arith))
    | inr named ↦ elim (Option-cases (Storage.lookup r.storage t.id)) [
      | inl e ↦
          rw (named, e, update)
            (unchanged t.id r _ inv λ k s i.
              (let d = has-deindex_old t.id r k s i inv in
                let here = inv.exact k s t.id in ground (arith, eq_iff t.id i)))
      | inr (old, e) ↦
          rw (named, e, update)
            (put-IsExact t r (deindex_old sprint t.id r) inv named
              λ k s i. (let d = has-deindex_old t.id r k s i inv in ground arith))
    ]
  ]

  delete-IsExact : (id : String) (r : Repo) → IsExact r → IsExact (delete sprint id r).1
  unfolding delete Storage.delete
  delete-IsExact id r inv = elim (Bool-cases (str_eq id "")) [
    | inl e ↦
        rw (e, delete)
          (unchanged id r _ inv λ k s i. (let d = has-deindex_old id r k s i inv in ground arith))
    | inr named ↦
        rw (named, delete)
          (record {
            named = lookup-remove id "" r.storage ∙ rw named inv.named;
            keyed = λ i u e. elim (Bool-cases (str_eq id i)) [
              | inl s ↦
                  (let f = lookup-remove id i r.storage in
                    let g = rw s at f in absurd (ground arith))
              | inr n ↦
                  (let f = lookup-remove id i r.storage in inv.keyed i u (sym (rw n at f) ∙ e))
            ];
            exact = λ k s i.
                (let d = has-deindex_old id r k s i inv in
                  ground (arith, lookup-remove id i r.storage, inv.exact k s i));
          })
  ]

-- The operations that change the repository.
pub data Op : Type 0 where
  creation : Task → Op
  change : Task → Op
  deletion : String → Op

module _ (sprint : Value → String) where
  abbrev apply : Op → Repo → Repo
  apply (creation t) r = (create sprint t r).1
  apply (change t) r = (update sprint t r).1
  apply (deletion id) r = (delete sprint id r).1

  abbrev pub run : List Op → Repo → Repo
  run [] r = r
  run (op ∷ ops) r = run ops (apply op r)

  apply-IsExact : (op : Op) (r : Repo) → IsExact sprint r → IsExact sprint (apply op r)
  apply-IsExact (creation t) r inv = create-IsExact sprint t r inv
  apply-IsExact (change t) r inv = update-IsExact sprint t r inv
  apply-IsExact (deletion id) r inv = delete-IsExact sprint id r inv

  run_from-IsExact : (ops : List Op) (r : Repo) → IsExact sprint r → IsExact sprint (run ops r)
  run_from-IsExact [] r inv = inv
  run_from-IsExact (op ∷ ops) r inv = run_from-IsExact ops (apply op r) (apply-IsExact op r inv)

  new-IsExact : IsExact sprint new_repo
  unfolding Storage.lookup has contains
  new-IsExact = record { named = refl; keyed = λ id t e. cc; exact = λ k s id. refl }

  -- After any creations, changes and deletions, failed ones included, from an empty repository on:
  -- each task is stored under its id, none under the empty one, and the index holds an id under a
  -- key and a text exactly when the task of that id is stored and has that entry.
  pub run-IsExact : (ops : List Op) → IsExact sprint (run ops new_repo)
  run-IsExact ops = run_from-IsExact ops new_repo new-IsExact
