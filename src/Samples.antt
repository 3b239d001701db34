-- ===== src/Samples.antt =====
-- Sample records for the tests and the witnesses: two tasks, one after the other, two proplets,
-- one of them alive, and a plugin that asks for a tag and for memory.
pub mod Database
pub mod Invocations
pub mod Histories
pub mod Endpoints
pub mod Graphs
pub mod Placement
pub mod Stores
pub mod Federated
pub mod Indexed
pub mod World
pub mod Service
pub mod Running
pub mod Settled
pub mod Launch
pub mod Messages
pub mod Requests
use propeller.Prelude.{ℕ, String, Bool, true, false, Option, none, some, List, [], ◌∷◌}
use propeller.Value.{nil, end}
use propeller.Errors.{no_proplet}
use propeller.Outcome.{ok, err}
use propeller.Manager.State.{Plugin, SelectResponse}
use propeller.Task.{Task, pending, Proplet, PropletMetadata, Program}

abbrev program : Program
program = record {
  image_url = "docker.io/mrstevenyaga/add.wasm";
  file = [];
  cli_args = [];
  daemon = false;
  encrypted = false;
  kbs_resource_path = "";
  monitoring_profile = none;
  hal_storage_path = none;
  mode = "";
}

-- A task that is pending, by id, dependencies and priority.
abbrev pub task : String → List String → ℕ → Task
task id depends_on priority = record {
  id = id;
  name = "add";
  kind = "standard";
  state = pending;
  program = program;
  inputs = [];
  env = [];
  latent = false;
  proplet_id = "";
  depends_on = depends_on;
  run_if = "";
  workflow_id = "w";
  job_id = "";
  results = nil;
  error = "";
  start_time = 0;
  finish_time = 0;
  created_at = 0;
  updated_at = 0;
  schedule = "";
  next_run = 0;
  is_recurring = false;
  timezone = "";
  broadcast = false;
  priority = priority;
  metadata = end;
}

abbrev pub first_task : Task
first_task = task "a" [] 0

abbrev pub second_task : Task
second_task = task "b" ("a" ∷ []) 90

abbrev pub two_tasks : List Task
two_tasks = first_task ∷ second_task ∷ []

abbrev pub proplet : String → Bool → List String → ℕ → Proplet
proplet id alive tags memory = record {
  id = id;
  name = id;
  task_count = 0;
  alive = alive;
  alive_history = [];
  metadata = record {
    description = "";
    tags = tags;
    location = "";
    ip = "";
    environment = "";
    os = "linux";
    hostname = "";
    cpu_arch = "";
    total_memory_bytes = memory;
    proplet_version = "";
    wasm_runtime = "";
  };
}

abbrev pub dead_proplet : Proplet
dead_proplet = proplet "p0" false [] 0

abbrev pub alive_proplet : Proplet
alive_proplet = proplet "p1" true ("gpu" ∷ []) 4096

abbrev pub two_proplets : List Proplet
two_proplets = dead_proplet ∷ alive_proplet ∷ []

abbrev pub gpu : SelectResponse
gpu = record { allow = true; reason = ""; required_tags = "gpu" ∷ []; min_memory_bytes = some 1024 }

abbrev pub asks_for_gpu : Plugin
asks_for_gpu = record {
  name = "gpu";
  authorize = λ auth info. ok (record { allow = true; reason = "" });
  enrich = λ auth info. err no_proplet;
  on_before_proplet_select = λ info. ok gpu;
  on_before_dispatch = λ info p. err no_proplet;
}
