-- ===== src/Badger/Metrics.antt =====
-- pkg/storage/badger/metrics.go: the metrics of tasks and proplets, one key for each time.
-- `decimal` is the `%d` of package fmt.
use Prim.Native.String.{◌++◌ as ◌++ᵗ◌}
use propeller.Prelude.{ℕ, String, List}
use propeller.Metrics.{TaskMetrics, PropletMetrics}
use propeller.Errors.{create_error}
use propeller.Outcome.{Result}
use propeller.Badger.{Engine, Codec, save_record, list_records}

-- `fmt.Appendf([]byte{}, "tm:%s:%d", …)`, and with "pm:".
abbrev pub key : (ℕ → String) → String → String → ℕ → String
key decimal prefix id time = ((prefix ++ᵗ id) ++ᵗ ":") ++ᵗ decimal time

module _ (db : Engine) (decimal : ℕ → String) where
  unfoldable pub create_task_metrics :
      Codec TaskMetrics → TaskMetrics → db.State → Result (Unit {0}) × db.State
  create_task_metrics json m s =
      save_record db json create_error (key decimal "tm:" m.task_id m.timestamp) m s

  unfoldable pub create_proplet_metrics :
      Codec PropletMetrics → PropletMetrics → db.State → Result (Unit {0}) × db.State
  create_proplet_metrics json m s =
      save_record db json create_error (key decimal "pm:" m.proplet_id m.timestamp) m s

module _ (db : Engine) where
  unfoldable pub list_task_metrics :
      Codec TaskMetrics → String → ℕ → ℕ → db.State → Result (List TaskMetrics × ℕ)
  list_task_metrics json task_id offset limit s =
      list_records db json ("tm:" ++ᵗ task_id) offset limit s

  unfoldable pub list_proplet_metrics :
      Codec PropletMetrics → String → ℕ → ℕ → db.State → Result (List PropletMetrics × ℕ)
  list_proplet_metrics json proplet_id offset limit s =
      list_records db json ("pm:" ++ᵗ proplet_id) offset limit s
