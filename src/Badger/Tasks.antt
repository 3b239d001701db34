-- ===== src/Badger/Tasks.antt =====
-- pkg/storage/badger/tasks.go: the tasks, with their index of metadata, an empty record under each
-- key `meta-idx`, key, value and id. `sprint` is fmt.Sprint of the standard library. A context is
-- what `ctx.Err()` answers at each look.
use Prim.Native.String.{◌++◌ as ◌++ᵗ◌, len, slice}
use propeller.Prelude.{
  ℕ, suc, String, Bool, true, false, Option, none, some, List, [], ◌∷◌, map, str_eq, if◌then◌else◌,
}
use propeller.Value.{Value, Fields, end, field}
use propeller.Task.{Task}
use propeller.Errors.{Err, create_error, update_error, delete_error, query_error, task_not_found}
use propeller.Outcome.{Result, ok, err, map_ok}
use propeller.Storage.{page}
use propeller.Repository.{meta_value_str, intersect, sort_by_id}
use propeller.Badger.{
  Engine, Codec, is_key_not_found, ◌>>=◌, update_txn, wrap_state, encode, decode, read_record,
  list_records,
}

abbrev pub key : String → String
key id = "task:" ++ᵗ id

abbrev pub meta_prefix : String → String → String
meta_prefix k v = ((("meta-idx\0" ++ᵗ k) ++ᵗ "\0") ++ᵗ v) ++ᵗ "\0"

abbrev pub meta_idx_key : String → String → String → String
meta_idx_key k v id = meta_prefix k v ++ᵗ id

-- `string(key[len(prefix):])`.
abbrev pub after : String → String → String
after prefix k = slice k (len prefix) (len k)

unfoldable pub or_none : Option (List String) → List String
or_none none = []
or_none (some ids) = ids

module _ (db : Engine) (json : Codec Task) (sprint : Value → String) where
  unfoldable pub index_task_txn : String → Fields → db.State → Result db.State
  unfolding meta_value_str
  index_task_txn id end txn = ok txn
  index_task_txn id (field k v m) txn = do
    txn ← db.write txn (meta_idx_key k (meta_value_str sprint v) id) ""
    index_task_txn id m txn

  -- `err != nil && !errors.Is(err, badgerdb.ErrKeyNotFound)`.
  abbrev pub pass_missing : db.State → Result db.State → Result db.State
  pass_missing txn (ok next) = ok next
  pass_missing txn (err e) = if is_key_not_found e then ok txn else err e

  unfoldable pub deindex_task_txn : String → Fields → db.State → Result db.State
  unfolding meta_value_str
  deindex_task_txn id end txn = ok txn
  deindex_task_txn id (field k v m) txn =
      pass_missing txn (db.erase txn (meta_idx_key k (meta_value_str sprint v) id))
      >>= deindex_task_txn id m

  -- The old record's entries are taken out, where it can be read.
  unfoldable pub deindex_copy : Result String → db.State → Result db.State
  unfolding deindex_task_txn
  deindex_copy (err _) txn = ok txn
  deindex_copy (ok val) txn = elim (json.unmarshal val) [
    | none ↦ ok txn
    | some old ↦ deindex_task_txn old.id old.metadata txn
  ]

  unfoldable pub create : Task → db.State → Result (Unit {0}) × db.State
  unfolding index_task_txn encode update_txn
  create t s = elim (encode json t) [
    | err e ↦ (err e, s)
    | ok val ↦
        wrap_state db create_error
          (update_txn db (λ txn. db.write txn (key t.id) val >>= index_task_txn t.id t.metadata) s)
  ]

  unfoldable pub get : String → db.State → Result Task
  get id s = read_record db json task_not_found (key id) s

  -- The transaction of `Update`.
  unfoldable pub replace_txn : Task → String → db.State → Result db.State
  unfolding deindex_copy index_task_txn
  replace_txn t val txn = elim (db.find txn (key t.id)) [
    | err _ ↦ err task_not_found
    | ok copy ↦ do
      txn ← deindex_copy copy txn
      txn ← db.write txn (key t.id) val
      index_task_txn t.id t.metadata txn
  ]

  unfoldable pub update : Task → db.State → Result (Unit {0}) × db.State
  unfolding replace_txn encode update_txn
  update t s = elim (encode json t) [
    | err e ↦ (err e, s)
    | ok val ↦ wrap_state db update_error (update_txn db (replace_txn t val) s)
  ]

  -- The transaction of `Delete`.
  unfoldable pub remove_txn : String → db.State → Result db.State
  unfolding deindex_copy
  remove_txn id txn = elim (db.find txn (key id)) [
    | err e ↦ if is_key_not_found e then ok txn else err e
    | ok copy ↦ deindex_copy copy txn >>= λ next. db.erase next (key id)
  ]

  unfoldable pub delete : String → db.State → Result (Unit {0}) × db.State
  unfolding remove_txn update_txn
  delete id s = wrap_state db delete_error (update_txn db (remove_txn id) s)

  unfoldable list_all : ℕ → ℕ → db.State → Result (List Task × ℕ)
  list_all offset limit s = list_records db json "task:" offset limit s

  unfoldable pub ids_under : String → List (String × Result String) → List String
  ids_under prefix items = map (λ item. after prefix item.0) items

  -- The rest of the loop of `filterIDsByMetadata`; there is no set before the first round. The order
  -- of the filter's keys is open in Go.
  unfoldable pub filter_loop :
      Option (List String) → Fields → db.State → Result (Option (List String))
  unfolding meta_value_str intersect ids_under
  filter_loop matched end s = ok matched
  filter_loop matched (field k v m) s =
      let prefix = meta_prefix k (meta_value_str sprint v) in
      elim (db.scan s prefix) [
        | err e ↦ err (query_error e)
        | ok items ↦ elim (intersect matched (ids_under prefix items)) [
          | [] ↦ ok (some [])
          | i ∷ is ↦ filter_loop (some (i ∷ is)) m s
        ]
      ]

  unfoldable pub filter_ids_by_metadata : Fields → db.State → Result (Option (List String))
  unfolding filter_loop
  filter_ids_by_metadata filter s = filter_loop none filter s

  -- The tasks under the ids; the ones that cannot be read are left out.
  unfoldable pub collect : List String → db.State → List Task
  unfolding get
  collect [] s = []
  collect (id ∷ ids) s = elim (get id s) [ err _ ↦ collect ids s | ok t ↦ t ∷ collect ids s ]

  -- `none` is the panic of a slice whose end is before its start.
  unfoldable pub list_by_metadata : Fields → ℕ → ℕ → db.State → Result (Option (List Task × ℕ))
  unfolding filter_ids_by_metadata or_none collect
  list_by_metadata filter offset limit s = do
    ids ← filter_ids_by_metadata filter s
    ok (page (sort_by_id (collect (or_none ids) s)) offset limit)

  unfoldable pub list : Fields → ℕ → ℕ → db.State → Result (Option (List Task × ℕ))
  unfolding list_all list_by_metadata
  list end offset limit s = map_ok some (list_all offset limit s)
  list (field k v m) offset limit s = list_by_metadata (field k v m) offset limit s

  -- The loop of `listBy`, and how many looks it took.
  unfoldable list_loop :
      (ℕ → Option Err) → (Task → Bool) → ℕ → List (String × Result String) → Result (List Task) × ℕ
  unfolding decode
  list_loop ctx matches look [] = (ok [], look)
  list_loop ctx matches look ((k, val) ∷ items) = elim (ctx look) [
    | some e ↦ (err e, suc look)
    | none ↦ elim (val >>= decode json) [
      | err e ↦ (err e, suc look)
      | ok t ↦
          let (rest, looks) = list_loop ctx matches (suc look) items in
          (map_ok (λ ts. elim (matches t) [ true ↦ t ∷ ts | false ↦ ts ]) rest, looks)
    ]
  ]

  unfoldable after_loop : (ℕ → Option Err) → Result (List Task) × ℕ → Result (List Task)
  after_loop ctx (ok ts, look) = ok ts
  after_loop ctx (err e, look) = elim (ctx look) [
    | some cancelled ↦ err cancelled
    | none ↦ err (query_error e)
  ]

  unfoldable list_by : (ℕ → Option Err) → (Task → Bool) → db.State → Result (List Task)
  unfolding list_loop after_loop
  list_by ctx matches s = elim (db.scan s "task:") [
    | err e ↦ after_loop ctx (err e, 0)
    | ok items ↦ after_loop ctx (list_loop ctx matches 0 items)
  ]

  unfoldable pub list_by_workflow_id : (ℕ → Option Err) → String → db.State → Result (List Task)
  unfolding list_by
  list_by_workflow_id ctx workflow_id s = list_by ctx (λ t. str_eq t.workflow_id workflow_id) s

  unfoldable pub list_by_job_id : (ℕ → Option Err) → String → db.State → Result (List Task)
  unfolding list_by
  list_by_job_id ctx job_id s = list_by ctx (λ t. str_eq t.job_id job_id) s
