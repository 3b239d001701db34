-- ===== src/Metrics/Store.antt =====
-- The repository of metrics in pkg/storage/memory_adapter.go, over the in-memory store. Task and
-- proplet metrics share one store; the keys are texts that the code makes, with `decimal` for the
-- time of the metrics in nanoseconds.
pub mod Pages
pub mod Paged
use propeller.Prelude.{
  ℕ, zero, suc, ◌+◌, String, Bool, true, false, Option, none, some, List, [], ◌∷◌, ◌++◌, str_eq,
  if◌then◌else◌, leb, ltb, ◌&&◌, length,
}
use Prim.Native.String.{◌++◌ as ◌++ᵗ◌}
use propeller.Outcome.{Result}
use propeller.Storage
use propeller.Metrics.{TaskMetrics, PropletMetrics}

pub data StoredMetrics : Type 0 where
  of_task : TaskMetrics → StoredMetrics
  of_proplet : PropletMetrics → StoredMetrics

abbrev memory_scan_page_size : ℕ
memory_scan_page_size = 100

-- The metrics of a task, or of a proplet; `none` is another value of the store.
unfoldable pub task_metrics_of : String → StoredMetrics → Option TaskMetrics
task_metrics_of id (of_task m) = if str_eq m.task_id id then some m else none
task_metrics_of id (of_proplet m) = none

unfoldable pub proplet_metrics_of : String → StoredMetrics → Option PropletMetrics
proplet_metrics_of id (of_proplet m) = if str_eq m.proplet_id id then some m else none
proplet_metrics_of id (of_task m) = none

module _ (decimal : ℕ → String) where
  key_at : String → ℕ → String
  key_at id time = id ++ᵗ (":" ++ᵗ decimal time)

  unfoldable pub create_task_metrics :
      TaskMetrics → List (String × StoredMetrics) → Result (List (String × StoredMetrics))
  unfolding key_at
  create_task_metrics m s = Storage.create (key_at m.task_id m.timestamp) (of_task m) s

  unfoldable pub create_proplet_metrics :
      PropletMetrics → List (String × StoredMetrics) → Result (List (String × StoredMetrics))
  unfolding key_at
  create_proplet_metrics m s = Storage.create (key_at m.proplet_id m.timestamp) (of_proplet m) s

module _ {M : Type 0} (pick : StoredMetrics → Option M) (offset limit : ℕ) where
  -- `total` and `filtered` after one value.
  count_in : Option M → ℕ × List M → ℕ × List M
  count_in none (total, filtered) = (total, filtered)
  count_in (some m) (total, filtered) = (
    total + 1,
    if leb offset total && ltb (length filtered) limit then filtered ++ m ∷ [] else filtered,
  )

  unfoldable pub scan_page : List StoredMetrics → ℕ × List M → ℕ × List M
  unfolding count_in
  scan_page [] found = found
  scan_page (d ∷ ds) found = scan_page ds (count_in (pick d) found)

  -- The loop over the pages of the store, for the rounds that are left: an end without pages, a
  -- panic of the store and the end of the rounds are none.
  unfoldable pub scan_store :
      ℕ → List (String × StoredMetrics) → ℕ → ℕ × List M → Option (ℕ × List M)
  unfolding scan_page
  scan_store zero s scan_offset found = none
  scan_store (suc rounds) s scan_offset found =
      elim (Storage.list s scan_offset memory_scan_page_size) [
        | none ↦ none
        | some (data_, all_total) ↦
            let next = scan_offset + length data_ in
            let after = scan_page data_ found in
            let rest = scan_store rounds s next after in
            elim data_ [
              | [] ↦ some found
              | d ∷ ds ↦ if leb all_total next then some after else rest
            ]
      ]

  unfoldable pub cut_found : ℕ × List M → List M × ℕ
  cut_found (total, filtered) = if leb total offset then ([], total) else (filtered, total)

  -- The loop of ListTaskMetrics and of ListPropletMetrics.
  unfoldable pub list_picked : List (String × StoredMetrics) → Option (List M × ℕ)
  unfolding scan_store cut_found
  list_picked s = elim (scan_store (suc (length s)) s 0 (0, [])) [
    | none ↦ none
    | some found ↦ some (cut_found found)
  ]

unfoldable pub list_task_metrics :
    String → ℕ → ℕ → List (String × StoredMetrics) → Option (List TaskMetrics × ℕ)
unfolding list_picked task_metrics_of
list_task_metrics id offset limit s = list_picked (task_metrics_of id) offset limit s

unfoldable pub list_proplet_metrics :
    String → ℕ → ℕ → List (String × StoredMetrics) → Option (List PropletMetrics × ℕ)
unfolding list_picked proplet_metrics_of
list_proplet_metrics id offset limit s = list_picked (proplet_metrics_of id) offset limit s
