-- ===== src/Badger/Jobs.antt =====
-- pkg/storage/badger/jobs.go: the jobs, one key each.
use Prim.Native.String.{◌++◌ as ◌++ᵗ◌}
use propeller.Prelude.{ℕ, String, List}
use propeller.Task.{Job}
use propeller.Errors.{create_error, store_not_found}
use propeller.Outcome.{Result}
use propeller.Badger
use propeller.Badger.{Engine, Codec, save_record, read_record, list_records}

abbrev pub key : String → String
key id = "job:" ++ᵗ id

module _ (db : Engine) (json : Codec Job) where
  unfoldable pub create : Job → db.State → Result (Unit {0}) × db.State
  create j s = save_record db json create_error (key j.id) j s

  unfoldable pub get : String → db.State → Result Job
  get id s = read_record db json store_not_found (key id) s

  unfoldable pub list : ℕ → ℕ → db.State → Result (List Job × ℕ)
  list offset limit s = list_records db json "job:" offset limit s

  unfoldable pub delete : String → db.State → Result (Unit {0}) × db.State
  delete id s = Badger.delete db (key id) s
