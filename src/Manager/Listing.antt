-- ===== src/Manager/Listing.antt =====
-- The lists of tasks, of stored jobs and of jobs (manager/service.go). Tasks are listed without a
-- filter here, as the service's own code does.
pub mod Whole
use propeller.Prelude.{
  ℕ, zero, suc, ◌+◌, String, Bool, true, false, Option, none, some, List, [], ◌∷◌, ◌++◌, str_eq,
  if◌then◌else◌, leb, ltb, ◌==◌, ◌||◌, length, keep, text_leb, contains, not,
}
use propeller.Task.{State, pending, running, completed, failed, Task, Job}
use propeller.Task.Status.{JobStatus, to_job_status, job_state}
use propeller.Errors.{Err, invalid_value, unfinished}
use propeller.Outcome.{Result, ok, err}
use propeller.Storage
use propeller.Jobs.{JobSummary, compute_job_summary}
use propeller.Manager.State.{
  Env, Svc, reading, Action, and_then, ◌>>=◌, ◌>>◌, pure, throw, get, external,
}
use propeller.Manager.Proplets.{page_or_panic}

module _ (env : Env) where
  -- `taskRepo.List(ctx, nil, offset, limit)` and `jobRepo.List(ctx, offset, limit)`.
  unfoldable pub task_list : ℕ → ℕ → Action (List Task × ℕ)
  unfolding external
  task_list offset limit = do
    external env reading
    s ← get
    page_or_panic (Storage.list s.tasks offset limit)

  unfoldable job_list : ℕ → ℕ → Action (List Job × ℕ)
  unfolding external
  job_list offset limit = do
    external env reading
    s ← get
    page_or_panic (Storage.list s.jobs offset limit)

  -- The loop of listAllTasksFromRepo, for the rounds that are left.
  collect_tasks : ℕ → ℕ → List Task → Action (List Task)
  unfolding task_list
  collect_tasks zero offset all = throw unfinished
  collect_tasks (suc rounds) offset all = do
    r ← task_list offset 100
    let all' = all ++ r.0
    let offset' = offset + length r.0
    let next = collect_tasks rounds offset' all'
    if leb r.1 offset' || (length r.0 == 0) then pure all' else next

  -- Each round but the last takes in a task, so a round more than there are tasks is enough.
  unfoldable pub list_all_tasks : Action (List Task)
  unfolding collect_tasks
  list_all_tasks = do s ← get; collect_tasks (suc (length s.tasks)) 0 []

  collect_jobs : ℕ → ℕ → List Job → Action (List Job)
  unfolding job_list
  collect_jobs zero offset all = throw unfinished
  collect_jobs (suc rounds) offset all = do
    r ← job_list offset 1000
    let all' = all ++ r.0
    let offset' = offset + 1000
    let next = collect_jobs rounds offset' all'
    if (length r.0 == 0) || leb r.1 (offset + length r.0) then pure all' else next

  unfoldable list_all_stored_jobs : Action (List Job)
  unfolding collect_jobs
  list_all_stored_jobs = do
    s ← get
    if s.has_job_repo then collect_jobs (suc (length s.jobs)) 0 [] else pure []

-- `jobMap`: the tasks of each job, in order.
tasks_of_job : String → List Task → List Task
tasks_of_job id ts = keep (λ t. str_eq t.job_id id) ts

-- The keys of `jobMap`, each once. Go ranges over them in any order; the sort after it decides.
job_ids : List Task → List String
job_ids [] = []
job_ids (t ∷ ts) =
    let rest = job_ids ts in
    if str_eq t.job_id "" || contains rest t.job_id then rest else t.job_id ∷ rest

stored_summary : List Task → Job → JobSummary
unfolding compute_job_summary tasks_of_job
stored_summary ts j = record (compute_job_summary j.id (tasks_of_job j.id ts)) { name = j.name }

stored_summaries : List Task → List Job → List JobSummary
unfolding stored_summary
stored_summaries ts [] = []
stored_summaries ts (j ∷ js) = stored_summary ts j ∷ stored_summaries ts js

seen : List Job → String → Bool
seen [] id = false
seen (j ∷ js) id = if str_eq j.id id then true else seen js id

other_summaries : List Task → List Job → List String → List JobSummary
unfolding compute_job_summary tasks_of_job seen
other_summaries ts js [] = []
other_summaries ts js (id ∷ ids) =
    let rest = other_summaries ts js ids in
    if seen js id then rest else compute_job_summary id (tasks_of_job id ts) ∷ rest

-- The comparison of the sort is at most 0: the newer job first, then by id.
job_first : JobSummary → JobSummary → Bool
job_first a b =
    if a.created_at == b.created_at
    then text_leb a.job_id b.job_id
    else ltb b.created_at a.created_at

insert_job : JobSummary → List JobSummary → List JobSummary
unfolding job_first
insert_job j [] = j ∷ []
insert_job j (k ∷ ks) = if job_first j k then j ∷ k ∷ ks else k ∷ insert_job j ks

sort_jobs : List JobSummary → List JobSummary
unfolding insert_job
sort_jobs [] = []
sort_jobs (j ∷ js) = insert_job j (sort_jobs js)

unfoldable same_state : State → State → Bool
same_state pending pending = true
same_state running running = true
same_state completed completed = true
same_state failed failed = true
same_state s t = false

-- The filter by status, with none for an empty text.
by_status : Option JobStatus → List JobSummary → List JobSummary
unfolding same_state job_state
by_status none js = js
by_status (some status) js = keep (λ j. same_state j.state (job_state status)) js

module _ (env : Env) where
  list_with_filter : Option JobStatus → ℕ → ℕ → Action (List JobSummary × ℕ)
  unfolding list_all_tasks list_all_stored_jobs by_status sort_jobs stored_summaries other_summaries
      job_ids
  list_with_filter status offset limit = do
    ts ← list_all_tasks env
    js ← list_all_stored_jobs env
    let all = sort_jobs (stored_summaries ts js ++ other_summaries ts js (job_ids ts))
    page_or_panic (Storage.page (by_status status all) offset limit)

  unfoldable pub list_jobs : ℕ → ℕ → String → Action (List JobSummary × ℕ)
  unfolding list_with_filter to_job_status
  list_jobs offset limit status =
      if str_eq status "" then list_with_filter none offset limit else elim (to_job_status status) [
        | none ↦ throw invalid_value
        | some st ↦ list_with_filter (some st) offset limit
      ]
