-- ===== src/Manager/Start/Whole.antt =====
-- StartTask of manager/service.go from its first guard to its end, for a task that names its proplet.
use propeller.Prelude.{◌≡◌, String, List, []}
use propeller.Value.{Value}
use propeller.Task.{Task}
use propeller.Storage
use propeller.Manager.State.{Env, StartPayload}
use propeller.Manager.Start.{elastic_config}

-- The message tells a proplet to start a task with results of its parents.
pub record TellsStart (t : Task) (proplet_id : String) (results : List (String × Value))
    (m : StartPayload) : Type 0 where
  pub same_id : m.id ≡ t.id
  pub same_name : m.name ≡ t.name
  pub same_state : m.state ≡ t.state
  pub same_program : m.program ≡ t.program
  pub same_inputs : m.inputs ≡ t.inputs
  pub same_broadcast : m.broadcast ≡ t.broadcast
  pub same_latent : m.latent ≡ t.latent
  pub same_env : m.env ≡ t.env
  pub to_proplet : m.proplet_id ≡ proplet_id
  pub parents : m.parent_results ≡ results
  pub elastic : m.metadata ≡ elastic_config t

-- The same world without plugins.
abbrev pub plain : Env → Env
plain env = record env { plugins = [] }
