-- ===== src/Manager/State.antt =====
-- The state of the manager's service (manager/service.go) and the world around it, and actions: a
-- Go method returns a value or an error, and in both cases a new state.
use propeller.Prelude.{ℕ, suc, ◌≡◌, refl, String, Bool, Option, none, some, List}
use propeller.Value.{Value, Fields}
use propeller.Task.{State, Task, Program, Proplet, Job}
use propeller.Metrics.{Conversions}
use propeller.Metrics.Store.{StoredMetrics}
use propeller.Errors.{Err}
use propeller.Outcome.{Result, ok, err}

-- What a plugin is told of a task (`TaskInfo` of pkg/plugin/plugin.go).
pub record TaskInfo : Type 0 where
  pub id : String
  pub name : String
  pub kind : String
  pub image_url : String
  pub inputs : List String
  pub cli_args : List String
  pub env : List (String × String)
  pub proplet_id : String
  pub priority : ℕ
  pub daemon : Bool
  pub encrypted : Bool
  pub created_at : ℕ

unfoldable pub new_task_info : Task → TaskInfo
new_task_info t = record {
  id = t.id;
  name = t.name;
  kind = t.kind;
  image_url = t.program.image_url;
  inputs = t.inputs;
  cli_args = t.program.cli_args;
  env = t.env;
  proplet_id = t.proplet_id;
  priority = t.priority;
  daemon = t.program.daemon;
  encrypted = t.program.encrypted;
  created_at = t.created_at;
}

-- `PropletSelectResponse`.
pub record SelectResponse : Type 0 where
  pub allow : Bool
  pub reason : String
  pub required_tags : List String
  pub min_memory_bytes : Option ℕ

-- `DispatchResponse`.
pub record DispatchResponse : Type 0 where
  pub allow : Bool
  pub reason : String
  pub extra_env : List (String × String)

-- `Action` of pkg/plugin/plugin.go.
pub data PluginAction : Type 0 where
  action_create action_start action_stop action_invoke action_delete action_update : PluginAction

pub record AuthContext : Type 0 where
  pub user_id : String
  pub token : String
  pub action : Option PluginAction

pub record AuthorizeResponse : Type 0 where
  pub allow : Bool
  pub reason : String

pub record EnrichResponse : Type 0 where
  pub env : List (String × String)
  pub priority : Option ℕ
  pub inputs : List String
  pub image_url : String

-- A plugin is code that the manager loads: its answers are given, as functions of what it is asked.
-- An error of a plugin is a number that stands for its text.
pub record Plugin : Type 0 where
  pub name : String
  pub authorize : AuthContext → TaskInfo → Result AuthorizeResponse
  pub enrich : AuthContext → TaskInfo → Result EnrichResponse
  pub on_before_proplet_select : TaskInfo → Result SelectResponse
  pub on_before_dispatch : TaskInfo → Proplet → Result DispatchResponse

-- The start message (`startPayload`).
pub record StartPayload : Type 0 where
  pub id : String
  pub name : String
  pub state : State
  pub program : Program
  pub inputs : List String
  pub broadcast : Bool
  pub latent : Bool
  pub env : List (String × String)
  pub proplet_id : String
  pub parent_results : List (String × Value)
  pub metadata : Option Fields

pub data Message : Type 0 where
  start_message : StartPayload → Message
  stop_message : (id : String) → (broadcast : Option Bool) → (proplet_id : Option String) → Message

-- The kinds of calls to the repositories and the message broker.
pub data Call : Type 0 where
  creating reading updating deleting publishing : Call

-- What the service calls and does not implement. `fault c n` is the error of the n-th call, of kind
-- `c`, to a repository or to the message broker, if it fails; `clock n` and `uuid n` are what the clock and
-- the id generator answer when they are asked n-th. `parse_cron` tells whether an expression
-- parses, and `next_run` computes its next time after a time, in a time zone (robfig/cron);
-- `conversions` are those of floats, `parse_time` reads a time in RFC 3339, and `decimal` writes a number.
pub record Env : Type 0 where
  pub fault : Call → ℕ → Option ℕ
  pub clock : ℕ → ℕ
  pub uuid : ℕ → String
  pub generated_name : ℕ → String
  pub plugins : List Plugin
  pub parse_cron : String → Bool
  pub next_run : String → ℕ → String → ℕ
  pub job_execution_mode : String
  pub conversions : Conversions
  pub parse_time : String → Option ℕ
  pub decimal : ℕ → String

-- The service. Each repository is the in-memory store of its values; `has_job_repo` is
-- `svc.jobRepo != nil`; `last_proplet` is the cursor of the scheduler; `published` is what went to
-- the broker, the last message first; `calls` counts the questions to the world.
pub record Svc : Type 0 where
  pub tasks : List (String × Task)
  pub proplets : List (String × Proplet)
  pub task_proplets : List (String × String)
  pub jobs : List (String × Job)
  pub metrics : List (String × StoredMetrics)
  pub has_job_repo : Bool
  pub last_proplet : ℕ
  pub published : List Message
  pub calls : ℕ
  pub shutting_down : Bool

abbrev pub Action : Type 0 → Type 0
Action A = Svc → Result A × Svc

abbrev pub and_then : {A B : Type 0} → Result A × Svc → (A → Action B) → Result B × Svc
and_then (ok a, s) f = f a s
and_then (err e, s) f = (err e, s)

infixl 5 ◌>>=◌ ◌>>◌
abbrev pub ◌>>=◌ : {A B : Type 0} → Action A → (A → Action B) → Action B
◌>>=◌ m f s = and_then (m s) f

abbrev pub ◌>>◌ : {B : Type 0} → Action (Unit {0}) → Action B → Action B
m >> k = m >>= λ _. k

abbrev pub pure : {A : Type 0} → A → Action A
pure a s = (ok a, s)

abbrev pub throw : {A : Type 0} → Err → Action A
throw e s = (err e, s)

abbrev pub get : Action Svc
get s = (ok s, s)

-- The result of an action as a value: what `err := ...` hands to the code after it.
abbrev pub try : {A : Type 0} → Action A → Action (Result A)
try m s = let (r, s') = m s in (ok r, s')

-- A call whose error is dropped, or only logged.
abbrev pub ignore : {A : Type 0} → Action A → Action (Unit {0})
ignore m s = (ok tt, (m s).1)

abbrev pub from_result : {A : Type 0} → Result A → Action A
from_result r s = (r, s)

-- One more question to the world.
abbrev pub asked : Svc → Svc
asked s = record s { calls = suc s.calls }

-- The fault of the call that is being made, if it has one.
abbrev pub answer : Option ℕ → Result (Unit {0})
answer none = ok tt
answer (some n) = err (Err.outside n)

module _ (env : Env) where
  unfoldable pub external : Call → Action (Unit {0})
  external c s = (answer (env.fault c s.calls), asked s)

  unfoldable pub now : Action ℕ
  now s = (ok (env.clock s.calls), asked s)

  unfoldable pub new_uuid : Action String
  new_uuid s = (ok (env.uuid s.calls), asked s)

-- Inversion of a successful bind.
pub and_then-eq-ok :
    {A B : Type 0} (r : Result A × Svc) (f : A → Action B) {b : B} {s' : Svc}
    → and_then r f ≡ (ok b, s')
    → (a : A) × (s : Svc) × (r ≡ (ok a, s)) × (f a s ≡ (ok b, s'))
and_then-eq-ok (ok a, s) f h = (a, s, refl, h)
and_then-eq-ok (err e, s) f h = cc
