-- ===== src/Manager/Invoke/Broadcast.antt =====
-- InvokeTask in manager/service.go: the proplets that an invocation is sent to, one after the other.
-- The invocation of one proplet, invokeOnProplet, is an argument: it waits for a message (see
-- Manager/Invoke). `not_precompiled` is isNotPrecompiledError, a search in an error's text.
pub mod Recovery
pub mod Candidates
pub mod Whole
use propeller.Prelude.{
  String, Bool, true, false, Option, none, some, List, [], ◌∷◌, ◌++◌, str_eq, if◌then◌else◌,
}
use propeller.Task.{Task, Proplet}
use propeller.Errors.{Err, not_latent, shutting_down}
use propeller.Outcome.{Result, ok, err}
use propeller.Manager.State.{
  Env, Action, StartPayload, start_message, ◌>>=◌, ◌>>◌, pure, throw, get, try, ignore,
}
use propeller.Manager.Repos.{task_get, pin_get, publish}
use propeller.Manager.Proplets.{list_all_active_proplets, schedule}
use propeller.Manager.Start.{start_payload}

-- The proplets from the first one with the id on, and those before it; `idx <= 0` is no exception,
-- since nothing stands before the first proplet, and all of them stand before an id that is not
-- there.
unfoldable pub split_at_id : String → List Proplet → List Proplet × List Proplet
split_at_id id [] = ([], [])
split_at_id id (p ∷ ps) =
    let (from, before) = split_at_id id ps in
    if str_eq p.id id then (p ∷ ps, []) else (from, p ∷ before)

unfoldable pub ordered_proplets : List Proplet → String → List Proplet
unfolding split_at_id
ordered_proplets ps first_id = let (from, before) = split_at_id first_id ps in from ++ before

module _ (env : Env) (not_precompiled : Err → Bool) (on : Task → String → Action String) where
  unfoldable redeploy_latent : Task → String → Action (Unit {0})
  unfolding publish
  redeploy_latent t proplet_id = publish env (
      start_message (record (start_payload env t proplet_id []) {
        program = record t.program { daemon = false };
        broadcast = false;
        latent = true;
        metadata = none;
      }))

  unfoldable recover_latent_deployment : Task → List Proplet → Action (Unit {0})
  unfolding redeploy_latent
  recover_latent_deployment t [] = pure tt
  recover_latent_deployment t (p ∷ ps) = do
    ignore (redeploy_latent t p.id)
    recover_latent_deployment t ps

  -- After a failure: the next candidate, or the end.
  unfoldable pub after_failure :
      Task → List Proplet → Err → List Proplet → Action String → Action String
  unfolding recover_latent_deployment
  after_failure t all e [] next = recover_latent_deployment t all >> throw e
  after_failure t all e (c ∷ cs) next = next

  unfoldable pub or_next :
      Task → List Proplet → List Proplet → Action String → Result String → Action String
  unfolding after_failure
  or_next t all rest next (ok results) = pure results
  or_next t all rest next (err e) =
      if not_precompiled e then after_failure t all e rest next else throw e

  -- The rest of the loop over the candidates; with none at all there is no error to return.
  unfoldable pub invoke_rest : Task → List Proplet → List Proplet → Action String
  unfolding or_next
  invoke_rest t all [] = pure ""
  invoke_rest t all (c ∷ cs) = try (on t c.id) >>= or_next t all cs (invoke_rest t all cs)

  unfoldable invoke_broadcast : Task → Action String
  unfolding invoke_rest ordered_proplets
  invoke_broadcast t = do
    ps ← list_all_active_proplets env
    first ← schedule env ps
    invoke_rest t (ordered_proplets ps first.id) (ordered_proplets ps first.id)

  unfoldable pub invoke_task : String → Action String
  unfolding invoke_broadcast
  invoke_task task_id = do
    s ← get
    if s.shutting_down then throw shutting_down else pure tt
    t ← task_get env task_id
    if t.latent then pure tt else throw not_latent
    if t.broadcast then invoke_broadcast t else (pin_get env t.id >>= on t)
