-- ===== src/Task.antt =====
-- pkg/task/task.go, pkg/proplet/proplet.go and pkg/job/job.go: the records that the manager keeps.
-- A time is its count of nanoseconds, with 0 for Go's zero time.
pub mod Status
use propeller.Prelude.{
  ℕ, String, Bool, true, false, Option, none, some, List, [], ◌∷◌, ◌-◌, leb, length,
}
use propeller.Value.{Value, Fields}

pub data State : Type 0 where
  pending scheduled running completed failed skipped interrupted : State

unfoldable pub is_terminal : State → Bool
is_terminal completed = true
is_terminal failed = true
is_terminal skipped = true
is_terminal interrupted = true
is_terminal _ = false

pub record MonitoringProfile : Type 0 where
  pub enabled : Bool
  pub interval : ℕ
  pub collect_cpu : Bool
  pub collect_memory : Bool
  pub collect_disk_io : Bool
  pub collect_threads : Bool
  pub collect_file_descriptors : Bool
  pub export_to_mqtt : Bool
  pub retain_history : Bool
  pub history_size : ℕ

-- What the proplet is to run: the fields that the manager hands over without reading them.
pub record Program : Type 0 where
  pub image_url : String
  pub file : List ℕ
  pub cli_args : List String
  pub daemon : Bool
  pub encrypted : Bool
  pub kbs_resource_path : String
  pub monitoring_profile : Option MonitoringProfile
  pub hal_storage_path : Option String
  pub mode : String

pub record Task : Type 0 where
  pub id : String
  pub name : String
  pub kind : String
  pub state : State
  pub program : Program
  pub inputs : List String
  pub env : List (String × String)
  pub latent : Bool
  pub proplet_id : String
  pub depends_on : List String
  pub run_if : String
  pub workflow_id : String
  pub job_id : String
  pub results : Value
  pub error : String
  pub start_time : ℕ
  pub finish_time : ℕ
  pub created_at : ℕ
  pub updated_at : ℕ
  pub schedule : String
  pub next_run : ℕ
  pub is_recurring : Bool
  pub timezone : String
  pub broadcast : Bool
  -- an `int`, as its pattern of 64 bits
  pub priority : ℕ
  pub metadata : Fields

pub record PropletMetadata : Type 0 where
  pub description : String
  pub tags : List String
  pub location : String
  pub ip : String
  pub environment : String
  pub os : String
  pub hostname : String
  pub cpu_arch : String
  pub total_memory_bytes : ℕ
  pub proplet_version : String
  pub wasm_runtime : String

pub record Proplet : Type 0 where
  pub id : String
  pub name : String
  pub task_count : ℕ
  pub alive : Bool
  pub alive_history : List ℕ
  pub metadata : PropletMetadata

pub record Job : Type 0 where
  pub id : String
  pub name : String
  pub execution_mode : String
  pub created_at : ℕ
  pub updated_at : ℕ

-- 10 seconds, in nanoseconds.
abbrev pub alive_timeout : ℕ
alive_timeout = 10000000000

-- The last element of a slice, if there is one.
unfoldable pub last? {ℓ} : {A : Type ℓ} → List A → Option A
last? [] = none
last? (x ∷ []) = some x
last? (x ∷ y ∷ xs) = last? (y ∷ xs)

-- Whether a last sign of life at a time is recent; `time.Since` is negative for a later one.
recent : ℕ → Option ℕ → Bool
recent now none = false
recent now (some last_alive) = leb (now - last_alive) alive_timeout

unfoldable pub set_alive : ℕ → Proplet → Proplet
unfolding recent last?
set_alive now p = record p { alive = recent now (last? p.alive_history) }
