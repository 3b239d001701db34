-- ===== src/Manager/Middleware.antt =====
-- manager/middleware/plugin.go: the service behind the plugins, which authorize each operation and
-- enrich new tasks. `auth` is what AuthFromContext finds in the context of the call. The notification of
-- plugins after a start runs beside it and is left out.
pub mod Served
pub mod Guard
use propeller.Prelude.{
  ℕ, String, Bool, true, false, Option, none, some, List, [], ◌∷◌, str_eq, if◌then◌else◌,
}
use propeller.Task.{Task}
use propeller.Errors.{Err, blocked}
use propeller.Outcome.{Result, ok, err}
use propeller.Manager.State.{
  Env, Svc, Action, TaskInfo, new_task_info, Plugin, PluginAction, action_create, action_start,
  action_stop, action_delete, action_update, AuthContext, AuthorizeResponse, EnrichResponse,
  and_then, ◌>>=◌, ◌>>◌, pure, from_result,
}
use propeller.Manager.Plugins.{reason_or, merge_tags, copy_env}
use propeller.Manager.Create.{or_default}
use propeller.Manager.Update.{TaskChange}

-- `manager.Service`, as far as the plugins stand before it. UpdateTask takes the request's task
-- information besides, which only the plugins read.
pub record Service : Type 0 where
  pub get_task : String → Action Task
  pub get_job : String → Action (List Task)
  pub create_task : Task → Action Task
  pub update_task : TaskInfo → TaskChange → Action Task
  pub delete_task : String → Action (Unit {0})
  pub start_task : String → Action (Unit {0})
  pub stop_task : String → Action (Unit {0})
  pub create_workflow : List Task → Action (List Task)
  pub create_job : String → List Task → String → Action (String × List Task)
  pub start_job : String → Action (Unit {0})
  pub stop_job : String → Action (Unit {0})
  pub shutdown : Action (Unit {0})

-- `withAction`.
abbrev pub with_action : AuthContext → PluginAction → AuthContext
with_action auth action = record auth { action = some action }

-- The end of a round of the loop, with the result of the rest.
unfoldable pub unless_denied : Result AuthorizeResponse → Result (Unit {0}) → Result (Unit {0})
unless_denied (err e) rest = err e
unless_denied (ok resp) rest = elim resp.allow [
  | false ↦ err (blocked (reason_or resp.reason "denied by plugin"))
  | true ↦ rest
]

unfoldable pub authorize_loop : AuthContext → TaskInfo → List Plugin → Result (Unit {0})
unfolding unless_denied
authorize_loop auth info [] = ok tt
authorize_loop auth info (p ∷ ps) =
    unless_denied (p.authorize auth info) (authorize_loop auth info ps)

unfoldable pub authorize : List Plugin → AuthContext → PluginAction → TaskInfo → Result (Unit {0})
unfolding authorize_loop
authorize plugins auth action info = authorize_loop (with_action auth action) info plugins

abbrev newer : Option ℕ → Option ℕ → Option ℕ
newer old none = old
newer old (some n) = some n

merge_response : EnrichResponse → EnrichResponse → EnrichResponse
unfolding copy_env merge_tags
merge_response merged resp = record {
  env = copy_env merged.env resp.env;
  priority = newer merged.priority resp.priority;
  inputs = merge_tags merged.inputs resp.inputs;
  image_url = or_default resp.image_url merged.image_url;
}

-- A plugin that fails is passed over.
merge_answer : EnrichResponse → Result EnrichResponse → EnrichResponse
unfolding merge_response
merge_answer merged (err e) = merged
merge_answer merged (ok resp) = merge_response merged resp

enrich_loop : AuthContext → TaskInfo → List Plugin → EnrichResponse → EnrichResponse
unfolding merge_answer
enrich_loop auth info [] merged = merged
enrich_loop auth info (p ∷ ps) merged =
    enrich_loop auth info ps (merge_answer merged (p.enrich auth info))

unfoldable pub enrich : List Plugin → AuthContext → TaskInfo → EnrichResponse
unfolding enrich_loop
enrich plugins auth info =
    enrich_loop auth info plugins
      (record { env = []; priority = none; inputs = []; image_url = "" })

priority_of : ℕ → Option ℕ → ℕ
priority_of old none = old
priority_of old (some n) = n

unfoldable apply_enrichment : EnrichResponse → Task → Task
unfolding copy_env merge_tags priority_of
apply_enrichment e t = record t {
  env = copy_env t.env e.env;
  priority = priority_of t.priority e.priority;
  inputs = merge_tags t.inputs e.inputs;
  program = record t.program { image_url = or_default e.image_url t.program.image_url };
}

module _ (plugins : List Plugin) (auth : AuthContext) where
  -- Each task is authorized, then enriched, before the next.
  enrich_tasks : List Task → Result (List Task)
  unfolding authorize enrich apply_enrichment new_task_info
  enrich_tasks [] = ok []
  enrich_tasks (t ∷ ts) = elim (authorize plugins auth action_create (new_task_info t)) [
    | err e ↦ err e
    | ok _ ↦ elim (enrich_tasks ts) [
      | err e ↦ err e
      | ok us ↦ ok (apply_enrichment (enrich plugins auth (new_task_info t)) t ∷ us)
    ]
  ]

  unfoldable pub authorize_tasks : PluginAction → List Task → Result (Unit {0})
  unfolding authorize new_task_info
  authorize_tasks action [] = ok tt
  authorize_tasks action (t ∷ ts) = elim (authorize plugins auth action (new_task_info t)) [
    | err e ↦ err e
    | ok _ ↦ authorize_tasks action ts
  ]

  module _ (service : Service) where
    -- The task is read, its operation authorized and then passed on.
    guard_task : {A : Type 0} → PluginAction → String → (String → Action A) → Action A
    unfolding authorize new_task_info
    guard_task action id next = do
      t ← service.get_task id
      from_result (authorize plugins auth action (new_task_info t))
      next id

    unfoldable pub guard_job :
        PluginAction → String → (String → Action (Unit {0})) → Action (Unit {0})
    unfolding authorize_tasks
    guard_job action id next = do
      ts ← service.get_job id
      from_result (authorize_tasks action ts)
      next id

    unfoldable delete_authorized : String → Action (Unit {0})
    unfolding guard_task
    delete_authorized id = guard_task action_delete id service.delete_task

    unfoldable start_authorized : String → Action (Unit {0})
    unfolding guard_task
    start_authorized id = guard_task action_start id service.start_task

    unfoldable stop_authorized : String → Action (Unit {0})
    unfolding guard_task
    stop_authorized id = guard_task action_stop id service.stop_task

    unfoldable pub start_job_authorized : String → Action (Unit {0})
    unfolding guard_job
    start_job_authorized id = guard_job action_start id service.start_job

    unfoldable stop_job_authorized : String → Action (Unit {0})
    unfolding guard_job
    stop_job_authorized id = guard_job action_stop id service.stop_job

    create_enriched : Task → Action Task
    unfolding authorize enrich apply_enrichment new_task_info
    create_enriched t = do
      from_result (authorize plugins auth action_create (new_task_info t))
      service.create_task (apply_enrichment (enrich plugins auth (new_task_info t)) t)

    update_authorized : TaskInfo → TaskChange → Action Task
    unfolding authorize
    update_authorized info c = do
      from_result (authorize plugins auth action_update info)
      service.update_task info c

    create_workflow_enriched : List Task → Action (List Task)
    unfolding enrich_tasks
    create_workflow_enriched ts = do us ← from_result (enrich_tasks ts); service.create_workflow us

    create_job_enriched : String → List Task → String → Action (String × List Task)
    unfolding enrich_tasks
    create_job_enriched name ts mode = do
      us ← from_result (enrich_tasks ts)
      service.create_job name us mode

    -- `middleware.Plugin`.
    unfoldable pub behind_plugins : Service
    unfolding delete_authorized start_authorized stop_authorized start_job_authorized
        stop_job_authorized create_enriched update_authorized create_workflow_enriched
        create_job_enriched
    behind_plugins = record {
      get_task = service.get_task;
      get_job = service.get_job;
      create_task = create_enriched;
      update_task = update_authorized;
      delete_task = delete_authorized;
      start_task = start_authorized;
      stop_task = stop_authorized;
      create_workflow = create_workflow_enriched;
      create_job = create_job_enriched;
      start_job = start_job_authorized;
      stop_job = stop_job_authorized;
      shutdown = service.shutdown;
    }
