-- ===== src/Repository.antt =====
-- pkg/storage/memory_adapter.go: the task repository over the in-memory store, with its index of
-- metadata. `sprint` is fmt.Sprint of the standard library.
pub mod Index
pub mod Exact
pub mod Collect
pub mod Filter
use propeller.Prelude.{
  String, Bool, true, false, Option, none, some, List, [], ◌∷◌, ◌++◌, str_eq, if◌then◌else◌,
  contains, keep, ℕ, text_leb,
}
use propeller.Value.{Value, text, Fields, end, field}
use propeller.Task.{Task}
use propeller.Outcome.{Result, ok, err}
use propeller.Storage

-- metaIdx[key][value]: the ids of the tasks with that value.
abbrev pub MetaIdx : Type 0
MetaIdx = List (String × List (String × List String))

pub record Repo : Type 0 where
  pub storage : List (String × Task)
  pub meta_idx : MetaIdx

abbrev pub new_repo : Repo
new_repo = record { storage = []; meta_idx = [] }

-- A map that is nil where there is none.
abbrev pub or_empty : {A : Type 0} → Option (List A) → List A
or_empty none = []
or_empty (some xs) = xs

unfoldable pub add_id : String → List String → List String
add_id id ids = if contains ids id then ids else id ∷ ids

unfoldable pub drop_id : String → List String → List String
drop_id id [] = []
drop_id id (i ∷ ids) = let rest = drop_id id ids in if str_eq i id then rest else i ∷ rest

abbrev pub put_unless_empty :
    {A : Type 0} → String → List A → List (String × List A) → List (String × List A)
put_unless_empty k [] m = Storage.remove k m
put_unless_empty k (x ∷ xs) m = Storage.put k (x ∷ xs) m

-- A round of the loop of `indexTask`.
unfoldable pub index_entry : String → String → String → MetaIdx → MetaIdx
unfolding add_id
index_entry k s id idx =
    let vals = or_empty (Storage.lookup idx k) in
    Storage.put k (Storage.put s (add_id id (or_empty (Storage.lookup vals s))) vals) idx

-- A round of the loop of `deindexTask`.
unfoldable pub deindex_entry : String → String → String → MetaIdx → MetaIdx
unfolding drop_id
deindex_entry k s id idx =
    let vals = or_empty (Storage.lookup idx k) in
    elim (Storage.lookup vals s) [
      | none ↦ idx
      | some ids ↦ put_unless_empty k (put_unless_empty s (drop_id id ids) vals) idx
    ]

-- The ids of both sets; there is no first set before the first round.
unfoldable pub intersect : Option (List String) → List String → List String
intersect none ids = ids
intersect (some matched) ids = keep (λ id. contains ids id) matched

-- The set, empty where there is none.
matched_ids : Option (Option (List String)) → List String
matched_ids (some (some ids)) = ids
matched_ids _ = []

unfoldable pub collect : List (String × Task) → List String → List Task
collect storage [] = []
collect storage (id ∷ ids) = elim (Storage.get id storage) [
  | ok t ↦ t ∷ collect storage ids
  | err e ↦ collect storage ids
]

-- `slices.SortFunc` by the id.
insert_by_id : Task → List Task → List Task
insert_by_id t [] = t ∷ []
insert_by_id t (u ∷ us) = if text_leb t.id u.id then t ∷ u ∷ us else u ∷ insert_by_id t us

unfoldable pub sort_by_id : List Task → List Task
unfolding insert_by_id
sort_by_id [] = []
sort_by_id (t ∷ ts) = insert_by_id t (sort_by_id ts)

module _ (sprint : Value → String) where
  unfoldable pub meta_value_str : Value → String
  meta_value_str (text s) = s
  meta_value_str v = sprint v

  unfoldable pub index_task : String → Fields → MetaIdx → MetaIdx
  unfolding index_entry meta_value_str
  index_task id end idx = idx
  index_task id (field k v m) idx = index_task id m (index_entry k (meta_value_str v) id idx)

  unfoldable pub deindex_task : String → Fields → MetaIdx → MetaIdx
  unfolding deindex_entry meta_value_str
  deindex_task id end idx = idx
  deindex_task id (field k v m) idx = deindex_task id m (deindex_entry k (meta_value_str v) id idx)

  -- `if old, err := r.storage.Get(ctx, id); err == nil { r.deindexTask(old) }`
  unfoldable pub deindex_old : String → Repo → MetaIdx
  unfolding deindex_task
  deindex_old id r = elim (Storage.get id r.storage) [
    | ok old ↦ deindex_task old.id old.metadata r.meta_idx
    | err e ↦ r.meta_idx
  ]

  unfoldable pub create : Task → Repo → Result (Unit {0}) × Repo
  unfolding index_task
  create t r = elim (Storage.create t.id t r.storage) [
    | err e ↦ (err e, r)
    | ok storage ↦
        (ok tt, record { storage = storage; meta_idx = index_task t.id t.metadata r.meta_idx })
  ]

  unfoldable pub update : Task → Repo → Result (Unit {0}) × Repo
  unfolding index_task deindex_old
  update t r = elim (Storage.update t.id t r.storage) [
    | err e ↦ (err e, record r { meta_idx = deindex_old t.id r })
    | ok storage ↦ (
      ok tt,
      record { storage = storage; meta_idx = index_task t.id t.metadata (deindex_old t.id r) },
    )
  ]

  unfoldable pub delete : String → Repo → Result (Unit {0}) × Repo
  unfolding deindex_old
  delete id r = elim (Storage.delete id r.storage) [
    | err e ↦ (err e, record r { meta_idx = deindex_old id r })
    | ok storage ↦ (ok tt, record { storage = storage; meta_idx = deindex_old id r })
  ]

  -- The rest of the loop of `filterIDsByMetadata`; `none` is its `false`. The order of the filter's
  -- keys is open in Go.
  filter_loop : Option (List String) → Fields → MetaIdx → Option (Option (List String))
  unfolding intersect meta_value_str
  filter_loop matched end idx = some matched
  filter_loop matched (field k v m) idx = elim (Storage.lookup idx k) [
    | none ↦ none
    | some vals ↦ elim (Storage.lookup vals (meta_value_str v)) [
      | none ↦ none
      | some ids ↦
          let both = intersect matched ids in
          let rest = filter_loop (some both) m idx in elim both [ [] ↦ none | i ∷ is ↦ rest ]
    ]
  ]

  unfoldable pub filter_ids_by_metadata : Fields → MetaIdx → Option (Option (List String))
  unfolding filter_loop
  filter_ids_by_metadata filter idx = filter_loop none filter idx

  -- The tasks of `listByMetadata` before a page is cut.
  unfoldable pub matching : Fields → Repo → List Task
  unfolding filter_ids_by_metadata matched_ids collect sort_by_id
  matching filter r =
      sort_by_id (collect r.storage (matched_ids (filter_ids_by_metadata filter r.meta_idx)))

  -- `none` is the panic of a slice whose end is before its start.
  unfoldable pub list_by_metadata : Fields → Repo → ℕ → ℕ → Option (List Task × ℕ)
  unfolding matching
  list_by_metadata filter r offset limit = Storage.page (matching filter r) offset limit

  -- `List`.
  unfoldable pub list : Fields → Repo → ℕ → ℕ → Option (List Task × ℕ)
  unfolding list_by_metadata
  list end r offset limit = Storage.list r.storage offset limit
  list (field k v m) r offset limit = list_by_metadata (field k v m) r offset limit
