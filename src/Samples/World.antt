-- ===== src/Samples/World.antt =====
-- A world in which one call fails, and a service with two proplets.
use propeller.Prelude.{ℕ, true, false, Option, none, some, [], ◌∷◌, ◌==◌, if◌then◌else◌}
use propeller.Manager.State.{Env, Svc, Call, creating}
use propeller.Samples.{task, dead_proplet, alive_proplet}

-- The n-th call fails if it is a creation.
abbrev failing_creations : ℕ → Call → ℕ → Option ℕ
failing_creations n creating m = if n == m then some 28 else none
failing_creations n call m = none

abbrev pub world : ℕ → Env
world n = record {
  fault = failing_creations n;
  clock = λ m. m;
  uuid = λ m. "id";
  generated_name = λ m. "name";
  plugins = [];
  parse_cron = λ s. false;
  next_run = λ s t z. t;
  job_execution_mode = "";
  conversions = record {
    to_uint64 = λ bits. bits;
    to_int64 = λ bits. bits;
    to_int32 = λ bits. bits;
    to_float32 = λ bits. bits;
  };
  parse_time = λ s. none;
  decimal = λ n. if n == 0 then "0" else "1";
}

abbrev pub service : Svc
service = record {
  tasks = ("z", task "z" [] 0) ∷ [];
  proplets = ("p0", dead_proplet) ∷ ("p1", alive_proplet) ∷ [];
  task_proplets = [];
  jobs = [];
  metrics = [];
  has_job_repo = true;
  last_proplet = 0;
  published = [];
  calls = 0;
  shutting_down = false;
}
