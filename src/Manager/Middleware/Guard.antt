-- ===== src/Manager/Middleware/Guard.antt =====
-- The plugins as guards (manager/middleware/plugin.go): who may start a job.
use propeller.Prelude.{
  ℕ, ◌≡◌, ◌↔◌, refl, sym, ◌∙◌, ap, String, true, none, List, [], ◌∷◌, All, str_eq, keep, Bool-cases,
  arith, inl, inr,
}
use propeller.Task.{Task}
use propeller.Errors.{Err}
use propeller.Outcome.{Result, ok, err, ok_inj, Result-cases}
use propeller.Storage
use propeller.Manager.State.{
  Env, Svc, reading, TaskInfo, new_task_info, Plugin, PluginAction, action_start, AuthContext,
  AuthorizeResponse, external, asked,
}
use propeller.Manager.Repos.{list_by_job_id}
use propeller.Manager.Middleware.{
  with_action, unless_denied, authorize_loop, authorize, authorize_tasks, guard_job,
  start_job_authorized, behind_plugins,
}
use propeller.Manager.Middleware.Served.{get_job, served}

-- The plugin answers, and its answer allows the action on the task.
abbrev Allows : AuthContext → PluginAction → TaskInfo → Plugin → Type 0
Allows auth action info p =
    (resp : AuthorizeResponse) × (p.authorize (with_action auth action) info ≡ ok resp)
    × (resp.allow ≡ true)

-- Every plugin allows the action on every task.
abbrev pub AllAllow : List Plugin → AuthContext → PluginAction → List Task → Type 0
AllAllow plugins auth action ts =
    All (λ t. All (λ p. Allows auth action (new_task_info t) p) plugins) ts

unless_denied_iff :
    (r : Result AuthorizeResponse) (rest : Result (Unit {0}))
    → (unless_denied r rest ≡ ok tt)
      ↔ (((resp : AuthorizeResponse) × (r ≡ ok resp) × (resp.allow ≡ true)) × (rest ≡ ok tt))
unfolding unless_denied
unless_denied_iff (err e) rest =
    (λ h. cc, λ ((resp, q, a), h). absurd (let c : err e ≡ ok resp = q in ground arith))
unless_denied_iff (ok resp) rest = elim (Bool-cases resp.allow) [
  | inl a ↦
      (λ h. ((resp, refl, a), (rw (a, unless_denied) at h)), λ (y, h). rw (a, unless_denied) h)
  | inr a ↦ (
    λ h. absurd (let c : err _ ≡ ok tt = (rw (a, unless_denied) at h) in ground arith),
    λ ((resp', q, a'), h).
        let same : resp ≡ resp' = ok_inj q in
        absurd (
          let b : resp.allow ≡ true = ap (λ (w : AuthorizeResponse). w.allow) same ∙ a' in
          ground arith),
  )
]

module _ (auth : AuthContext) (action : PluginAction) where
  authorize_iff :
      (info : TaskInfo) (plugins : List Plugin)
      → (authorize plugins auth action info ≡ ok tt) ↔ All (λ p. Allows auth action info p) plugins
  unfolding authorize authorize_loop
  authorize_iff info [] = (λ h. tt, λ h. refl)
  authorize_iff info (p ∷ ps) =
      let one =
        unless_denied_iff (p.authorize (with_action auth action) info)
          (authorize ps auth action info) in
      let rest = authorize_iff info ps in
      (λ h. let (a, b) = one.0 h in (a, rest.0 b), λ (a, b). one.1 (a, rest.1 b))

  authorize_tasks_iff :
      (plugins : List Plugin) (ts : List Task)
      → (authorize_tasks plugins auth action ts ≡ ok tt) ↔ AllAllow plugins auth action ts
  unfolding authorize_tasks
  authorize_tasks_iff plugins [] = (λ h. tt, λ h. refl)
  authorize_tasks_iff plugins (t ∷ ts) =
      let one = authorize_iff (new_task_info t) plugins in
      let rest = authorize_tasks_iff plugins ts in
      elim (Result-cases (authorize plugins auth action (new_task_info t))) [
        | inl (u, e) ↦ (
          λ h. (one.0 e, rest.0 (rw (e, authorize_tasks) at h)),
          λ (a, b). rw (e, authorize_tasks) (rest.1 b),
        )
        | inr (x, e) ↦ (
          λ h. absurd (let c : err x ≡ ok tt = (rw (e, authorize_tasks) at h) in ground arith),
          λ (a, b). absurd (let c : err x ≡ ok tt = sym e ∙ one.1 a in ground arith),
        )
      ]

-- The tasks of the job, as StartJob reads them.
abbrev tasks_of_job : Svc → String → List Task
tasks_of_job s id = keep (λ t. str_eq t.job_id id) (Storage.sorted_values s.tasks)

-- Behind the plugins, and where the first read does not fail, StartJob is the service's own StartJob if
-- every plugin allows the start of every task of the job; else it fails, and the state is as
-- it was but for the count of calls.
pub start_job_guarded :
    (env : Env) (fuel : ℕ) (order : List Task → List String) (plugins : List Plugin)
    (auth : AuthContext) (id : String) (s : Svc)
    → env.fault reading s.calls ≡ none
    → (AllAllow plugins auth action_start (tasks_of_job s id)
        → (behind_plugins plugins auth (served env fuel order)).start_job id s
          ≡ (served env fuel order).start_job id (asked s))
      × ((¬ AllAllow plugins auth action_start (tasks_of_job s id))
          → (e : Err) × ((behind_plugins plugins auth (served env fuel order)).start_job id s
              ≡ (err e, asked s)))
unfolding behind_plugins start_job_authorized guard_job served get_job list_by_job_id external
start_job_guarded env fuel order plugins auth id s fine =
    let ts = tasks_of_job s id in
    let agrees = authorize_tasks_iff auth action_start plugins ts in
    elim (Result-cases (authorize_tasks plugins auth action_start ts)) [
      | inl (u, e) ↦ (λ h. rw (fine, e) refl, λ n. absurd (n (agrees.0 e)))
      | inr (x, e) ↦ (
        λ h. absurd (let c : err x ≡ ok tt = sym e ∙ agrees.1 h in ground arith),
        λ n. (x, rw (fine, e) refl),
      )
    ]
