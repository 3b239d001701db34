-- ===== src/Jobs.antt =====
-- The state and the summary of a job, from its tasks: ComputeJobState and computeJobSummary of
-- manager/service.go.
pub mod Totals
use propeller.Prelude.{
  ℕ, String, Bool, true, false, Option, none, some, List, [], ◌∷◌, ltb, ◌==◌, if◌then◌else◌,
}
use propeller.Task.{
  State, pending, scheduled, running, completed, failed, skipped, interrupted, Task,
}

-- The five flags of the loop.
pub record Flags : Type 0 where
  pub has_failed : Bool
  pub has_running : Bool
  pub has_scheduled : Bool
  pub all_completed : Bool
  pub all_skipped : Bool

note_state : State → Flags → Flags
note_state failed f = record f { has_failed = true; all_completed = false; all_skipped = false }
note_state interrupted f = record f {
  has_failed = true;
  all_completed = false;
  all_skipped = false;
}
note_state running f = record f { has_running = true; all_completed = false; all_skipped = false }
note_state scheduled f = record f {
  has_scheduled = true;
  all_completed = false;
  all_skipped = false;
}
note_state completed f = record f { all_skipped = false }
note_state skipped f = f
note_state pending f = record f { all_completed = false; all_skipped = false }

note_states : List Task → Flags → Flags
unfolding note_state
note_states [] f = f
note_states (t ∷ ts) f = note_states ts (note_state t.state f)

judge : Flags → State
judge f =
    if f.has_failed
    then failed
    else if (if f.has_running then true else f.has_scheduled)
    then running
    else if (if f.all_completed then true else f.all_skipped)
    then completed
    else pending

abbrev no_flags : Flags
no_flags = record {
  has_failed = false;
  has_running = false;
  has_scheduled = false;
  all_completed = true;
  all_skipped = true;
}

unfoldable pub compute_job_state : List Task → State
unfolding note_states judge
compute_job_state [] = pending
compute_job_state (t ∷ ts) = judge (note_states (t ∷ ts) no_flags)

pub record JobSummary : Type 0 where
  pub job_id : String
  pub name : String
  pub state : State
  pub tasks : List Task
  pub start_time : ℕ
  pub finish_time : ℕ
  pub created_at : ℕ

-- `if !has || t.Before(best) { best = t; has = true }` on a time that is not zero; `best` is none
-- while `has` is false.
keep_earliest : ℕ → Option ℕ → Option ℕ
keep_earliest t none = if t == 0 then none else some t
keep_earliest t (some best) = if t == 0 then some best else if ltb t best then some t else some best

keep_latest : ℕ → Option ℕ → Option ℕ
keep_latest t none = if t == 0 then none else some t
keep_latest t (some best) = if t == 0 then some best else if ltb best t then some t else some best

-- The three times of the loop, each on its own.
earliest : (Task → ℕ) → List Task → Option ℕ → Option ℕ
unfolding keep_earliest
earliest time [] best = best
earliest time (t ∷ ts) best = earliest time ts (keep_earliest (time t) best)

latest : (Task → ℕ) → List Task → Option ℕ → Option ℕ
unfolding keep_latest
latest time [] best = best
latest time (t ∷ ts) best = latest time ts (keep_latest (time t) best)

-- The zero time where nothing was found.
abbrev pub or_zero : Option ℕ → ℕ
or_zero none = 0
or_zero (some t) = t

unfoldable pub compute_job_summary : String → List Task → JobSummary
unfolding compute_job_state earliest latest
compute_job_summary job_id [] = record {
  job_id = job_id;
  name = "";
  state = pending;
  tasks = [];
  start_time = 0;
  finish_time = 0;
  created_at = 0;
}
compute_job_summary job_id (t ∷ ts) = record {
  job_id = job_id;
  name = "";
  state = compute_job_state (t ∷ ts);
  tasks = t ∷ ts;
  start_time = or_zero (earliest (λ u. u.start_time) (t ∷ ts) none);
  finish_time = or_zero (latest (λ u. u.finish_time) (t ∷ ts) none);
  created_at = or_zero (earliest (λ u. u.created_at) (t ∷ ts) none);
}
