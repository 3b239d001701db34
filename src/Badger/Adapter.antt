-- ===== src/Badger/Adapter.antt =====
-- pkg/storage/factory.go: the Badger repositories as the manager sees them, where the error of a
-- missing proplet is put into the one of pkg/storage, and what GetTask, GetProplet and
-- GetPropletAliveHistory of manager/service.go make of a missing record. The adapters of the other
-- methods call the repository's, and no more.
use propeller.Prelude.{◌≡◌, refl, ℕ, String, Option, List}
use propeller.Value.{Value}
use propeller.Task.{Task, Proplet, set_alive}
use propeller.Errors.{
  Err, key_not_found, not_found, missing_task, missing_proplet, proplet_not_found, task_not_found,
}
use propeller.Outcome.{Result, ok, err, map_ok}
use propeller.Badger.{Engine, Codec, read_record, get}
use propeller.Badger.Tasks
use propeller.Badger.Proplets
use propeller.Api.Response.{encode_error, failed}

-- `errors.Is(err, badger.ErrPropletNotFound)`.
unfoldable adapt_proplet : {A : Type 0} → Result A → Result A
adapt_proplet (err proplet_not_found) = err missing_proplet
adapt_proplet r = r

-- `errors.Is(err, storage.ErrTaskNotFound)`, and with proplets.
unfoldable report_task : {A : Type 0} → Result A → Result A
report_task (err missing_task) = err not_found
report_task r = r

unfoldable report_proplet : {A : Type 0} → Result A → Result A
report_proplet (err missing_proplet) = err not_found
report_proplet r = r

module _ (db : Engine) where
  -- `badgerTaskAdapter.Get`.
  unfoldable task_adapter_get : Codec Task → (Value → String) → String → db.State → Result Task
  task_adapter_get json sprint id s = Tasks.get db json sprint id s

  -- `badgerPropletAdapter.Get`.
  unfoldable proplet_adapter_get : Codec Proplet → String → db.State → Result Proplet
  unfolding adapt_proplet
  proplet_adapter_get json id s = adapt_proplet (Proplets.get db json id s)

  -- `badgerPropletAdapter.GetAliveHistory`.
  unfoldable proplet_adapter_history :
      Codec Proplet → String → ℕ → ℕ → db.State → Result (Option (List ℕ × ℕ))
  unfolding adapt_proplet
  proplet_adapter_history json id offset limit s =
      adapt_proplet (Proplets.get_alive_history db json id offset limit s)

  -- `GetTask` and `GetProplet` of the service over this store.
  unfoldable pub get_stored_task : Codec Task → (Value → String) → String → db.State → Result Task
  unfolding report_task task_adapter_get
  get_stored_task json sprint id s = report_task (task_adapter_get json sprint id s)

  unfoldable pub get_stored_proplet : Codec Proplet → ℕ → String → db.State → Result Proplet
  unfolding report_proplet proplet_adapter_get set_alive
  get_stored_proplet json now id s =
      map_ok (set_alive now) (report_proplet (proplet_adapter_get json id s))

  missing :
      {R : Type 0} (json : Codec R) (e : Err) (k : String) (s : db.State)
      → db.find s k ≡ err key_not_found
      → read_record db json e k s ≡ err e
  unfolding read_record get
  missing json e k s h = rw (read_record, get, h) refl

  -- The status of a failed call.
  abbrev pub status : {A : Type 0} → Result A → ℕ
  status (ok a) = 200
  status (err e) = encode_error (failed e)

  -- Over the Badger store, asking for a proplet that is not there is answered with status 404, and
  -- asking for a task that is not there with status 500.
  pub missing-status :
      (task_json : Codec Task) (proplet_json : Codec Proplet) (sprint : Value → String) (now : ℕ)
      (id : String) (s : db.State)
      → db.find s (Tasks.key id) ≡ err key_not_found
      → db.find s (Proplets.key id) ≡ err key_not_found
      → (status (get_stored_task task_json sprint id s) ≡ 500)
        × (status (get_stored_proplet proplet_json now id s) ≡ 404)
  unfolding get_stored_task get_stored_proplet Tasks.get Proplets.get encode_error
  missing-status task_json proplet_json sprint now id s h k =
      let t = missing task_json task_not_found (Tasks.key id) s h in
      let p = missing proplet_json proplet_not_found (Proplets.key id) s k in
      (rw (get_stored_task, Tasks.get, t) refl, rw (get_stored_proplet, Proplets.get, p) refl)
