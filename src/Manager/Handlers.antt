-- ===== src/Manager/Handlers.antt =====
-- The handlers of the messages that announce a proplet and its life (manager/service.go). The two
-- errors for a missing and for an empty id are one here.
pub mod Liveness
use propeller.Prelude.{
  ℕ, ◌-◌, String, Bool, true, false, Option, none, some, List, [], ◌∷◌, ◌++◌, str_eq, if◌then◌else◌,
  ltb, length, drop,
}
use propeller.Value.{Value, text, Fields, get_field}
use propeller.Value.Readers.{get_string, get_string_slice, get_map, get_uint64}
use propeller.Task.{Proplet, PropletMetadata}
use propeller.Errors.{Err, not_found, invalid_message}
use propeller.Outcome.{Result, ok, err}
use propeller.Manager.State.{Env, Svc, Action, and_then, ◌>>=◌, ◌>>◌, pure, throw, try, now}
use propeller.Manager.Repos.{proplet_create, proplet_update}
use propeller.Manager.Proplets.{get_proplet}

abbrev alive_history_limit : ℕ
alive_history_limit = 10

unfoldable pub id_of : Option Value → Action String
id_of (some (text id)) = if str_eq id "" then throw invalid_message else pure id
id_of _ = throw invalid_message

unfoldable read_metadata : Fields → PropletMetadata
unfolding get_string get_string_slice get_uint64
read_metadata meta = record {
  description = get_string meta "description" "";
  tags = get_string_slice meta "tags";
  location = get_string meta "location" "";
  ip = get_string meta "ip" "";
  environment = get_string meta "environment" "";
  os = get_string meta "os" "";
  hostname = get_string meta "hostname" "";
  cpu_arch = get_string meta "cpu_arch" "";
  total_memory_bytes = get_uint64 meta "total_memory_bytes";
  proplet_version = get_string meta "proplet_version" "";
  wasm_runtime = get_string meta "wasm_runtime" "";
}

-- The last elements, as many as the limit says.
unfoldable pub keep_last : ℕ → List ℕ → List ℕ
keep_last limit xs = if ltb limit (length xs) then drop (length xs - limit) xs else xs

-- A sign of life, at a time.
unfoldable pub seen_at : ℕ → Proplet → Proplet
unfolding keep_last
seen_at t p = record p {
  alive = true;
  alive_history = keep_last alive_history_limit (p.alive_history ++ t ∷ []);
}

module _ (env : Env) where
  -- `namegen.Generate()`.
  generate_name : Action String
  generate_name s = (ok (env.generated_name s.calls), s)

  -- After GetProplet: a known proplet takes the metadata, an unknown one is created.
  refresh_or_create : String → PropletMetadata → Result Proplet → Action (Unit {0})
  unfolding generate_name proplet_create proplet_update
  refresh_or_create id md (ok existing) = proplet_update env (record existing { metadata = md })
  refresh_or_create id md (err not_found) = do
    name ← generate_name
    proplet_create env (record {
      id = id;
      name = name;
      task_count = 0;
      alive = false;
      alive_history = [];
      metadata = md;
    })
  refresh_or_create id md (err e) = throw e

  unfoldable create_proplet_handler : Fields → Action (Unit {0})
  unfolding id_of refresh_or_create read_metadata get_map get_proplet get_field
  create_proplet_handler msg = do
    id ← id_of (get_field msg "proplet_id")
    existing ← try (get_proplet env id)
    refresh_or_create id (read_metadata (get_map msg "metadata")) existing

  note_life : Fields → Result Proplet → Action (Unit {0})
  unfolding create_proplet_handler seen_at proplet_update now
  note_life msg (ok p) = do t ← now env; proplet_update env (seen_at t p)
  note_life msg (err not_found) = create_proplet_handler msg
  note_life msg (err e) = throw e

  unfoldable pub update_liveness_handler : Fields → Action (Unit {0})
  unfolding id_of note_life get_proplet get_field
  update_liveness_handler msg = do
    id ← id_of (get_field msg "proplet_id")
    p ← try (get_proplet env id)
    note_life msg p
