-- ===== src/Manager/Middleware/Served.antt =====
-- The service of manager/service.go as the middleware takes it: each method of `manager.Service`
-- that the plugins stand before. The fuel bounds the starts inside one another, and `order` is the
-- order of a map (Manager/Launch).
use propeller.Prelude.{ℕ, String, List}
use propeller.Task.{Task}
use propeller.Manager.State.{Env, Action}
use propeller.Manager.Repos.{task_get, list_by_job_id}
use propeller.Manager.Create.{create_task, create_workflow, create_job}
use propeller.Manager.Update.{update_task, delete_task}
use propeller.Manager.Start.{start_task}
use propeller.Manager.Stop.{stop_task, stop_job}
use propeller.Manager.Launch.{start_job}
use propeller.Manager.Shutdown.{shutdown}
use propeller.Manager.Middleware.{Service}

-- `GetJob`.
unfoldable pub get_job : Env → String → Action (List Task)
unfolding list_by_job_id
get_job env id = list_by_job_id env id

unfoldable pub served : Env → ℕ → (List Task → List String) → Service
unfolding get_job task_get create_task update_task delete_task start_task stop_task create_workflow
    create_job start_job stop_job shutdown
served env fuel order = record {
  get_task = task_get env;
  get_job = get_job env;
  create_task = create_task env;
  update_task = λ info c. update_task env c;
  delete_task = delete_task env;
  start_task = start_task env fuel;
  stop_task = stop_task env;
  create_workflow = create_workflow env;
  create_job = create_job env;
  start_job = start_job env (λ id. start_task env fuel id) order;
  stop_job = stop_job env;
  shutdown = shutdown env;
}
