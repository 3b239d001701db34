-- ===== src/Manager/Plugins.antt =====
-- What the plugins say before a task is dispatched: runOnBeforePropletSelect, runOnBeforeDispatch and
-- propletMatchesConstraints of manager/service.go. No plugin registry is a registry with no plugin.
pub mod Merge
use propeller.Prelude.{
  ℕ, ◌<◌, String, Bool, true, false, Option, none, some, List, [], ◌∷◌, ◌++◌, str_eq, contains,
  if◌then◌else◌, ltb,
}
use propeller.Task.{Task, Proplet}
use propeller.Errors.{Err, blocked}
use propeller.Outcome.{Result, ok, err}
use propeller.Manager.State.{TaskInfo, new_task_info, SelectResponse, DispatchResponse, Plugin}

-- The reason that a plugin gives, or a default.
abbrev pub reason_or : String → String → String
reason_or reason default = if str_eq reason "" then default else reason

abbrev pub add_tag : List String → String → List String
add_tag merged tag = if contains merged tag then merged else merged ++ tag ∷ []

-- Tags are appended unless they are there.
unfoldable pub merge_tags : List String → List String → List String
unfolding contains
merge_tags merged [] = merged
merge_tags merged (tag ∷ tags) = merge_tags (add_tag merged tag) tags

-- The larger minimum stays.
unfoldable pub merge_memory : Option ℕ → Option ℕ → Option ℕ
merge_memory merged none = merged
merge_memory none (some n) = some n
merge_memory (some m) (some n) = if ltb m n then some n else some m

merge : SelectResponse → SelectResponse → SelectResponse
unfolding merge_tags merge_memory
merge merged resp = record merged {
  required_tags = merge_tags merged.required_tags resp.required_tags;
  min_memory_bytes = merge_memory merged.min_memory_bytes resp.min_memory_bytes;
}

select_loop : TaskInfo → List Plugin → SelectResponse → Result SelectResponse
unfolding merge
select_loop info [] merged = ok merged
select_loop info (p ∷ ps) merged = elim (p.on_before_proplet_select info) [
  | err e ↦ err e
  | ok resp ↦ elim resp.allow [
    | false ↦ err (blocked (reason_or resp.reason "proplet selection blocked by plugin"))
    | true ↦ select_loop info ps (merge merged resp)
  ]
]

abbrev pub no_constraints : SelectResponse
no_constraints = record { allow = true; reason = ""; required_tags = []; min_memory_bytes = none }

unfoldable pub run_on_before_proplet_select : List Plugin → Task → Result SelectResponse
unfolding select_loop new_task_info
run_on_before_proplet_select plugins t = select_loop (new_task_info t) plugins no_constraints

has_tags : Proplet → List String → Bool
has_tags p [] = true
has_tags p (tag ∷ tags) = if contains p.metadata.tags tag then has_tags p tags else false

enough_memory : Proplet → Option ℕ → Bool
enough_memory p none = true
enough_memory p (some n) = if ltb p.metadata.total_memory_bytes n then false else true

unfoldable pub proplet_matches_constraints : Proplet → SelectResponse → Bool
unfolding has_tags enough_memory contains
proplet_matches_constraints p c =
    if enough_memory p c.min_memory_bytes then has_tags p c.required_tags else false

-- `t.Env[k] = v`.
unfoldable set_env : String → String → List (String × String) → List (String × String)
set_env k v [] = (k, v) ∷ []
set_env k v ((j, w) ∷ env) = if str_eq j k then (k, v) ∷ env else (j, w) ∷ set_env k v env

-- `maps.Copy(t.Env, extra)`.
unfoldable pub copy_env : List (String × String) → List (String × String) → List (String × String)
unfolding set_env
copy_env env [] = env
copy_env env ((k, v) ∷ extra) = copy_env (set_env k v env) extra

-- The request is made before the loop, so no plugin sees what another one adds.
dispatch_loop : TaskInfo → Proplet → List Plugin → Task → Result Task
unfolding copy_env
dispatch_loop info p [] t = ok t
dispatch_loop info p (pl ∷ pls) t = elim (pl.on_before_dispatch info p) [
  | err e ↦ err e
  | ok resp ↦ elim resp.allow [
    | false ↦ err (blocked (reason_or resp.reason "dispatch blocked by plugin"))
    | true ↦ dispatch_loop info p pls (record t { env = copy_env t.env resp.extra_env })
  ]
]

unfoldable pub run_on_before_dispatch : List Plugin → Task → Proplet → Result Task
unfolding dispatch_loop new_task_info
run_on_before_dispatch plugins t p = dispatch_loop (new_task_info t) p plugins t
