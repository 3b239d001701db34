-- ===== src/Manager/Rounds.antt =====
-- The start of a round of federated learning by a message (manager/service.go): a task for each
-- participant that is alive. The time limit of the round is left out. `marshal` is json.Marshal, none where it
-- fails, and `start` is StartTask.
use propeller.Prelude.{
  ℕ, String, Bool, false, Option, none, some, List, [], ◌∷◌, str_eq, if◌then◌else◌,
}
use Prim.Native.String.{◌++◌ as ◌++ᵗ◌}
use propeller.Value.{Value, nil, text, arr, obj, Values, empty, item, Fields, end, get_field}
use propeller.Task.{pending, Task, Program}
use propeller.Outcome.{Result, ok, err}
use propeller.Manager.State.{Env, Action, ◌>>=◌, ◌>>◌, pure, try, ignore, now}
use propeller.Manager.Proplets.{get_proplet}
use propeller.Manager.Create.{create_task}

record RoundConfig : Type 0 where
  pub round_id : String
  pub model_uri : String
  pub task_wasm_image : String
  pub hyperparams : Option Fields

-- A text that is there and not empty.
named_text : Option Value → Option String
named_text (some (text s)) = if str_eq s "" then none else some s
named_text _ = none

as_array : Option Value → Values
as_array (some (arr vs)) = vs
as_array _ = empty

as_map : Option Value → Option Fields
as_map (some (obj m)) = some m
as_map _ = none

-- `none` is the error of a message that is not valid.
unfoldable parse_round_start_message : Fields → Option RoundConfig
unfolding named_text as_array as_map get_field
parse_round_start_message msg = elim (named_text (get_field msg "round_id")) [
  | none ↦ none
  | some id ↦ elim (named_text (get_field msg "model_uri")) [
    | none ↦ none
    | some uri ↦ elim (named_text (get_field msg "task_wasm_image")) [
      | none ↦ none
      | some image ↦ elim (as_array (get_field msg "participants")) [
        | empty ↦ none
        | item v vs ↦ some (record {
          round_id = id;
          model_uri = uri;
          task_wasm_image = image;
          hyperparams = as_map (get_field msg "hyperparams");
        })
      ]
    ]
  ]
]

-- The texts of an array that are not empty.
names_of : Values → List String
unfolding named_text
names_of empty = []
names_of (item v vs) = elim (named_text (some v)) [
  | none ↦ names_of vs
  | some id ↦ id ∷ names_of vs
]

unfoldable extract_participants : Fields → List String
unfolding names_of as_array get_field
extract_participants msg = names_of (as_array (get_field msg "participants"))

hyperparams_env : (Fields → Option String) → Option Fields → List (String × String)
hyperparams_env marshal none = []
hyperparams_env marshal (some m) = elim (marshal m) [ none ↦ [] | some s ↦ ("HYPERPARAMS", s) ∷ [] ]

-- A program of which only the image is set.
image_only : String → Program
image_only image = record {
  image_url = image;
  file = [];
  cli_args = [];
  daemon = false;
  encrypted = false;
  kbs_resource_path = "";
  monitoring_profile = none;
  hal_storage_path = none;
  mode = "";
}

unfoldable create_round_task : (Fields → Option String) → RoundConfig → String → ℕ → Task
unfolding hyperparams_env image_only
create_round_task marshal config proplet_id time = record {
  id = "";
  name = "fl-round-" ++ᵗ (config.round_id ++ᵗ ("-" ++ᵗ proplet_id));
  kind = "standard";
  state = pending;
  program = image_only config.task_wasm_image;
  inputs = [];
  env =
      ("ROUND_ID", config.round_id)
      ∷ ("MODEL_URI", config.model_uri)
      ∷ hyperparams_env marshal config.hyperparams;
  latent = false;
  proplet_id = proplet_id;
  depends_on = [];
  run_if = "";
  workflow_id = "";
  job_id = "";
  results = nil;
  error = "";
  start_time = 0;
  finish_time = 0;
  created_at = time;
  updated_at = 0;
  schedule = "";
  next_run = 0;
  is_recurring = false;
  timezone = "";
  broadcast = false;
  priority = 0;
  metadata = end;
}

module _ (env : Env) (marshal : Fields → Option String) (start : String → Action (Unit {0})) where
  unfoldable is_proplet_available : String → Action Bool
  unfolding get_proplet
  is_proplet_available id = do
    r ← try (get_proplet env id)
    pure (elim r [ err e ↦ false | ok p ↦ p.alive ])

  start_created : Result Task → Action (Unit {0})
  start_created (err e) = pure tt
  start_created (ok t) = ignore (start t.id)

  unfoldable launch_task_for_participant : RoundConfig → String → Action (Unit {0})
  unfolding create_round_task start_created create_task now
  launch_task_for_participant config proplet_id = do
    n ← now env
    created ← try (create_task env (create_round_task marshal config proplet_id n))
    start_created created

  unfoldable launch_tasks_for_participants : RoundConfig → List String → Action (Unit {0})
  unfolding is_proplet_available launch_task_for_participant
  launch_tasks_for_participants config [] = pure tt
  launch_tasks_for_participants config (id ∷ ids) = do
    available ← is_proplet_available id
    if available then launch_task_for_participant config id else pure tt
    launch_tasks_for_participants config ids

  unfoldable process_round_start : Fields → Action (Unit {0})
  unfolding parse_round_start_message extract_participants launch_tasks_for_participants
  process_round_start msg = elim (parse_round_start_message msg) [
    | none ↦ pure tt
    | some config ↦ elim (extract_participants msg) [
      | [] ↦ pure tt
      | id ∷ ids ↦ launch_tasks_for_participants config (id ∷ ids)
    ]
  ]
