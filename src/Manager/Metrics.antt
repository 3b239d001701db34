-- ===== src/Manager/Metrics.antt =====
-- The messages of metrics and the reads of metrics and of histories (manager/service.go). The
-- errors for a missing and for an empty id are one here.
use propeller.Prelude.{ℕ, String, Option, none, some, List, if◌then◌else◌, ◌==◌}
use propeller.Value.{Value, text, obj, Fields, end, get_field}
use propeller.Errors.{invalid_message}
use propeller.Storage
use propeller.Metrics.{
  TaskMetrics, PropletMetrics, parse_process_metrics, parse_aggregated_metrics, AggregatedMetrics,
  parse_cpu_metrics, parse_memory_metrics,
}
use propeller.Metrics.Store.{
  create_task_metrics, create_proplet_metrics, list_task_metrics, list_proplet_metrics,
}
use propeller.Manager.State.{
  Env, creating, reading, Action, ◌>>=◌, ◌>>◌, pure, throw, get, external, now,
}
use propeller.Manager.Repos.{stored, task_get, proplet_repo_get}
use propeller.Manager.Proplets.{page_or_panic}
use propeller.Manager.Handlers.{id_of}

-- `msg[key].(string)`.
as_string : Option Value → Option String
as_string (some (text s)) = some s
as_string _ = none

-- `msg[key].(map[string]any)`, with the empty map for another value.
as_fields : Option Value → Fields
as_fields (some (obj m)) = m
as_fields _ = end

or_invalid : Option String → Action String
or_invalid none = throw invalid_message
or_invalid (some s) = pure s

or_empty_text : Option String → String
or_empty_text none = ""
or_empty_text (some s) = s

module _ (env : Env) where
  -- The time of the message, 0 where it has none that can be read.
  time_of : Option String → ℕ
  time_of none = 0
  time_of (some s) = elim (env.parse_time s) [ none ↦ 0 | some t ↦ t ]

  timestamp_of : Fields → Action ℕ
  unfolding time_of as_string get_field now
  timestamp_of msg =
      if time_of (as_string (get_field msg "timestamp")) == 0
      then now env
      else pure (time_of (as_string (get_field msg "timestamp")))

  aggregated_of : Option Value → Option AggregatedMetrics
  unfolding parse_aggregated_metrics
  aggregated_of (some (obj m)) = some (parse_aggregated_metrics env.conversions m)
  aggregated_of _ = none

  unfoldable task_metrics_create : TaskMetrics → Action (Unit {0})
  unfolding create_task_metrics external
  task_metrics_create m = do
    external env creating
    s ← get
    stored (create_task_metrics env.decimal m s.metrics)
        (λ metrics s'. record s' { metrics = metrics })

  unfoldable proplet_metrics_create : PropletMetrics → Action (Unit {0})
  unfolding create_proplet_metrics external
  proplet_metrics_create m = do
    external env creating
    s ← get
    stored (create_proplet_metrics env.decimal m s.metrics)
        (λ metrics s'. record s' { metrics = metrics })

  unfoldable handle_task_metrics : Fields → Action (Unit {0})
  unfolding timestamp_of aggregated_of as_fields as_string or_invalid task_metrics_create id_of
      get_field parse_process_metrics
  handle_task_metrics msg = do
    task_id ← id_of (get_field msg "task_id")
    proplet_id ← or_invalid (as_string (get_field msg "proplet_id"))
    time ← timestamp_of msg
    task_metrics_create (record {
      task_id = task_id;
      proplet_id = proplet_id;
      metrics = parse_process_metrics env.conversions (as_fields (get_field msg "metrics"));
      aggregated = aggregated_of (get_field msg "aggregated");
      timestamp = time;
    })

  unfoldable handle_proplet_metrics : Fields → Action (Unit {0})
  unfolding timestamp_of as_fields as_string or_empty_text proplet_metrics_create id_of get_field
      parse_cpu_metrics parse_memory_metrics
  handle_proplet_metrics msg = do
    proplet_id ← id_of (get_field msg "proplet_id")
    time ← timestamp_of msg
    proplet_metrics_create (record {
      proplet_id = proplet_id;
      namespace = or_empty_text (as_string (get_field msg "namespace"));
      timestamp = time;
      cpu = parse_cpu_metrics (as_fields (get_field msg "cpu_metrics"));
      memory = parse_memory_metrics env.conversions (as_fields (get_field msg "memory_metrics"));
    })

  unfoldable pub get_task_metrics : String → ℕ → ℕ → Action (List TaskMetrics × ℕ)
  unfolding external list_task_metrics
  get_task_metrics id offset limit = do
    external env reading
    s ← get
    page_or_panic (list_task_metrics id offset limit s.metrics)

  unfoldable pub get_proplet_metrics : String → ℕ → ℕ → Action (List PropletMetrics × ℕ)
  unfolding external list_proplet_metrics
  get_proplet_metrics id offset limit = do
    external env reading
    s ← get
    page_or_panic (list_proplet_metrics id offset limit s.metrics)

  unfoldable pub get_proplet_alive_history : String → ℕ → ℕ → Action (List ℕ × ℕ)
  unfolding proplet_repo_get
  get_proplet_alive_history id offset limit = do
    p ← proplet_repo_get env id
    page_or_panic (Storage.page p.alive_history offset limit)

  unfoldable pub get_task_results : String → Action Value
  unfolding task_get
  get_task_results id = do t ← task_get env id; pure t.results
