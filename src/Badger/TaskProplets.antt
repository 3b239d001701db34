-- ===== src/Badger/TaskProplets.antt =====
-- pkg/storage/badger/task_proplets.go: the proplet that each task runs on.
use Prim.Native.String.{◌++◌ as ◌++ᵗ◌}
use propeller.Prelude.{String}
use propeller.Errors.{create_error, store_not_found}
use propeller.Outcome.{Result, ok, err}
use propeller.Badger
use propeller.Badger.{Engine, wrap_state}

abbrev pub key : String → String
key task_id = "map:task:" ++ᵗ task_id

module _ (db : Engine) where
  unfoldable pub create : String → String → db.State → Result (Unit {0}) × db.State
  create task_id proplet_id s =
      wrap_state db create_error (Badger.set db (key task_id) proplet_id s)

  unfoldable pub get : String → db.State → Result String
  get task_id s = elim (Badger.get db (key task_id) s) [
    | err _ ↦ err store_not_found
    | ok val ↦ ok val
  ]

  unfoldable pub delete : String → db.State → Result (Unit {0}) × db.State
  delete task_id s = Badger.delete db (key task_id) s
