-- ===== src/Task/Status.antt =====
-- The status texts of pkg/task/task.go and pkg/proplet/proplet.go, and how they are read back.
use propeller.Prelude.{
  String, ◌≡◌, ◌↔◌, refl, subst, Option, none, some, arith, str_eq, eq_iff, if◌then◌else◌,
}
use propeller.Task.{State, pending, running, completed, failed}

pub data JobStatus : Type 0 where
  pending_status running_status completed_status failed_status : JobStatus

unfoldable job_status_text : JobStatus → String
job_status_text pending_status = "pending"
job_status_text running_status = "running"
job_status_text completed_status = "completed"
job_status_text failed_status = "failed"

-- `none` is ErrInvalidJobStatus.
unfoldable pub to_job_status : String → Option JobStatus
to_job_status status =
    if str_eq status "pending"
    then some pending_status
    else if str_eq status "running"
    then some running_status
    else if str_eq status "completed"
    then some completed_status
    else if str_eq status "failed"
    then some failed_status
    else none

unfoldable pub job_state : JobStatus → State
job_state pending_status = pending
job_state running_status = running
job_state completed_status = completed
job_state failed_status = failed

pub data PropletStatus : Type 0 where
  active_status inactive_status : PropletStatus

unfoldable proplet_status_text : PropletStatus → String
proplet_status_text active_status = "active"
proplet_status_text inactive_status = "inactive"

-- `none` is ErrInvalidStatus.
unfoldable pub to_proplet_status : String → Option PropletStatus
to_proplet_status status =
    if str_eq status "active"
    then some active_status
    else if str_eq status "inactive"
    then some inactive_status
    else none

read-text : (s : JobStatus) → to_job_status (job_status_text s) ≡ some s
unfolding to_job_status job_status_text
read-text pending_status = refl
read-text running_status = refl
read-text completed_status = refl
read-text failed_status = refl

text-read :
    (status : String) (s : JobStatus) → to_job_status status ≡ some s → job_status_text s ≡ status
unfolding to_job_status job_status_text
text-read status s h = ground (
  arith,
  eq_iff status "pending",
  eq_iff status "running",
  eq_iff status "completed",
  eq_iff status "failed",
)

-- A text reads as a job status exactly when it is the text of that status.
to_job_status-text :
    (status : String) (s : JobStatus)
    → (to_job_status status ≡ some s) ↔ (job_status_text s ≡ status)
to_job_status-text status s =
    (text-read status s, λ e. subst (λ t. to_job_status t ≡ some s) e (read-text s))
