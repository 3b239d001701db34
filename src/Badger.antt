-- ===== src/Badger.antt =====
-- pkg/storage/badger: the stores over a Badger database. init.go wraps the database, with one
-- transaction for each call; a module per repository has the keys and the JSON on top of it.
--
-- The database of github.com/dgraph-io/badger is an `Engine`: what its transactions do to the
-- contents, failures included. Bytes are a text. `Codec` is encoding/json at the type of a record.
pub mod Keys
pub mod Filter
pub mod Laws
pub mod MetricsPrefix
pub mod Records
pub mod Adapter
pub mod Pages
pub mod TaskMap
pub mod Jobs
pub mod Proplets
pub mod TaskProplets
pub mod Metrics
pub mod Tasks
use propeller.Prelude.{
  ℕ, zero, suc, String, Bool, true, false, Option, none, some, List, [], ◌∷◌, ltb, leb, length,
  if◌then◌else◌,
}
use propeller.Errors.{
  Err, key_not_found, store_not_found, query_error, update_error, delete_error, marshal_error,
  unmarshal_error,
}
use propeller.Outcome.{Result, ok, err, map_ok}

pub record Engine : Type 1 where
  pub State : Type 0
  -- `txn.Get`, and then `item.ValueCopy`
  pub find : State → String → Result (Result String)
  -- `txn.Set`
  pub write : State → String → String → Result State
  -- `txn.Delete`
  pub erase : State → String → Result State
  -- the keys that an iterator visits from `Seek(prefix)` on while `ValidForPrefix(prefix)`, with the
  -- result of `ValueCopy` at each
  pub scan : State → String → Result (List (String × Result String))
  -- the commit at the end of `db.Update`, from the contents before to those of the transaction
  pub commit : State → State → Result (Unit {0})

pub record Codec (R : Type 0) : Type 0 where
  pub marshal : R → Option String
  pub unmarshal : String → Option R

-- `if err != nil { return fmt.Errorf("%w: %w", sentinel, err) }`.
abbrev pub wrap : {A : Type 0} → (Err → Err) → Result A → Result A
wrap sentinel (ok a) = ok a
wrap sentinel (err e) = err (sentinel e)

-- `if err != nil { return err }`.
infixl 10 ◌>>=◌
abbrev pub ◌>>=◌ {ℓ κ} : {A : Type ℓ} {B : Type κ} → Result A → (A → Result B) → Result B
ok a >>= f = f a
err e >>= f = err e

module _ {R : Type 0} (json : Codec R) where
  unfoldable pub encode : R → Result String
  encode r = elim (json.marshal r) [ some bytes ↦ ok bytes | none ↦ err marshal_error ]

  unfoldable pub decode : String → Result R
  decode bytes = elim (json.unmarshal bytes) [ some r ↦ ok r | none ↦ err unmarshal_error ]

  -- `for i, val := range values { … json.Unmarshal … }`
  unfoldable pub decode_all : List String → Result (List R)
  unfolding decode
  decode_all [] = ok []
  decode_all (bytes ∷ values) = elim (decode bytes) [
    | ok r ↦ map_ok (λ rs. r ∷ rs) (decode_all values)
    | err e ↦ err e
  ]

-- `errors.Is(err, badger.ErrKeyNotFound)`.
abbrev pub is_key_not_found : Err → Bool
is_key_not_found key_not_found = true
is_key_not_found _ = false

module _ (db : Engine) where
  -- `db.Update(fn)`: the contents change only where `fn` and the commit succeed.
  unfoldable pub update_txn : (db.State → Result db.State) → db.State → Result (Unit {0}) × db.State
  update_txn fn s = elim (fn s) [
    | err e ↦ (err e, s)
    | ok t ↦ elim (db.commit s t) [ ok _ ↦ (ok tt, t) | err e ↦ (err e, s) ]
  ]

  abbrev pub wrap_state : (Err → Err) → Result (Unit {0}) × db.State → Result (Unit {0}) × db.State
  wrap_state sentinel (r, s) = (wrap sentinel r, s)

  unfoldable pub get : String → db.State → Result String
  get key s = elim (db.find s key) [
    | ok (ok val) ↦ ok val
    | ok (err e) ↦ if is_key_not_found e then err store_not_found else err (query_error e)
    | err e ↦ if is_key_not_found e then err store_not_found else err (query_error e)
  ]

  unfoldable pub set : String → String → db.State → Result (Unit {0}) × db.State
  unfolding update_txn
  set key val s = wrap_state update_error (update_txn (λ txn. db.write txn key val) s)

  unfoldable pub delete : String → db.State → Result (Unit {0}) × db.State
  unfolding update_txn
  delete key s = wrap_state delete_error (update_txn (λ txn. db.erase txn key) s)

  -- The loop of `listWithPrefix`, with its two counters.
  unfoldable pub walk : ℕ → ℕ → ℕ → ℕ → List (String × Result String) → Result (List String)
  walk offset limit skipped count [] = ok []
  walk offset limit skipped count ((key, val) ∷ items) = elim (ltb skipped offset) [
    | true ↦ walk offset limit (suc skipped) count items
    | false ↦ elim (leb limit count) [
      | true ↦ ok []
      | false ↦ elim val [
        | err e ↦ err e
        | ok bytes ↦ map_ok (λ rest. bytes ∷ rest) (walk offset limit skipped (suc count) items)
      ]
    ]
  ]

  unfoldable pub list_with_prefix : String → ℕ → ℕ → db.State → Result (List String)
  unfolding walk
  list_with_prefix prefix offset limit s = elim (db.scan s prefix) [
    | err e ↦ err (query_error e)
    | ok items ↦ wrap query_error (walk offset limit 0 0 items)
  ]

  unfoldable pub count_with_prefix : String → db.State → Result ℕ
  count_with_prefix prefix s = elim (db.scan s prefix) [
    | err e ↦ err (query_error e)
    | ok items ↦ ok (length items)
  ]

  -- The body that the `List` methods share: the count, the page, and its values decoded.
  unfoldable pub list_records :
      {R : Type 0} → Codec R → String → ℕ → ℕ → db.State → Result (List R × ℕ)
  unfolding count_with_prefix list_with_prefix decode_all
  list_records json prefix offset limit s = do
    total ← count_with_prefix prefix s
    values ← list_with_prefix prefix offset limit s
    records ← decode_all json values
    ok (records, total)

  -- `Create` and `Update` of the records without an index, under the error of each.
  unfoldable pub save_record :
      {R : Type 0} → Codec R → (Err → Err) → String → R → db.State → Result (Unit {0}) × db.State
  unfolding encode set
  save_record json sentinel key r s = elim (encode json r) [
    | err e ↦ (err e, s)
    | ok val ↦ wrap_state sentinel (set key val s)
  ]

  -- `Get` of a record: any failure of the database is the error of a missing record.
  unfoldable pub read_record : {R : Type 0} → Codec R → Err → String → db.State → Result R
  unfolding get decode
  read_record json missing key s = elim (get key s) [
    | err _ ↦ err missing
    | ok val ↦ decode json val
  ]
