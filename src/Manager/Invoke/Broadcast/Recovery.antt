-- ===== src/Manager/Invoke/Broadcast/Recovery.antt =====
-- recoverLatentDeployment in manager/service.go: a task that no candidate had precompiled is deployed
-- again.
use propeller.Prelude.{
  ℕ, ◌≡◌, refl, String, Bool, true, false, none, some, List, [], ◌∷◌, Option-cases, inl, inr,
}
use propeller.Task.{Task, Proplet}
use propeller.Errors.{Err}
use propeller.Manager.State.{
  Env, Svc, Action, StartPayload, start_message, publishing, asked, external, ignore,
}
use propeller.Manager.Repos.{publish}
use propeller.Manager.Start.{start_payload}
use propeller.Manager.Succeeds.{Succeeds, Succeeds-bind, pure-Succeeds, ignore-Succeeds}
use propeller.Manager.Invoke.Broadcast.{redeploy_latent, recover_latent_deployment}

module _ (env : Env) (t : Task) where
  -- For each of the proplets, in this order, a message is published that the task be started there as a
  -- latent one, or the publication fails; nothing else is done.
  pub data Redeployed : List Proplet → Svc → Svc → Type 0 where
    done : {s : Svc} → Redeployed [] s s
    sent :
        {p : Proplet} {ps : List Proplet} {s v : Svc} (m : StartPayload)
        → m.id ≡ t.id
        → m.proplet_id ≡ p.id
        → m.latent ≡ true
        → m.broadcast ≡ false
        → m.program.daemon ≡ false
        → Redeployed ps (record (asked s) { published = start_message m ∷ s.published }) v
        → Redeployed (p ∷ ps) s v
    unsent :
        {p : Proplet} {ps : List Proplet} {s v : Svc} (n : ℕ)
        → env.fault publishing s.calls ≡ some n
        → Redeployed ps (asked s) v
        → Redeployed (p ∷ ps) s v

module _ (env : Env) (not_precompiled : Err → Bool) (on : Task → String → Action String)
    (t : Task) where
  pub recover_latent_deployment-Succeeds :
      (ps : List Proplet) → Succeeds (recover_latent_deployment env not_precompiled on t ps)
  unfolding recover_latent_deployment
  recover_latent_deployment-Succeeds [] = pure-Succeeds tt
  recover_latent_deployment-Succeeds (p ∷ ps) =
      let again = redeploy_latent env not_precompiled on t p.id in
      Succeeds-bind (ignore again) (λ _. recover_latent_deployment env not_precompiled on t ps)
        (ignore-Succeeds again) (λ _. recover_latent_deployment-Succeeds ps)

  redeployment : String → StartPayload
  redeployment id = record (start_payload env t id []) {
    program = record t.program { daemon = false };
    broadcast = false;
    latent = true;
    metadata = none;
  }

  redeploy_latent-sent :
      (id : String) (s : Svc)
      → env.fault publishing s.calls ≡ none
      → (redeploy_latent env not_precompiled on t id s).1
        ≡ record (asked s) { published = start_message (redeployment id) ∷ s.published }
  unfolding redeploy_latent publish external redeployment
  redeploy_latent-sent id s e = rw (redeploy_latent, e) refl

  redeploy_latent-unsent :
      (id : String) (s : Svc) (n : ℕ)
      → env.fault publishing s.calls ≡ some n
      → (redeploy_latent env not_precompiled on t id s).1 ≡ asked s
  unfolding redeploy_latent publish external
  redeploy_latent-unsent id s n e = rw (redeploy_latent, e) refl

  pub redeployed :
      (ps : List Proplet) (s : Svc)
      → Redeployed env t ps s (recover_latent_deployment env not_precompiled on t ps s).1
  unfolding recover_latent_deployment redeployment start_payload
  redeployed [] s = done
  redeployed (p ∷ ps) s = elim (Option-cases (env.fault publishing s.calls)) [
    | inl e ↦
        rw (redeploy_latent-sent p.id s e)
          (sent (redeployment p.id) refl refl refl refl refl (redeployed ps _))
    | inr (n, e) ↦ rw (redeploy_latent-unsent p.id s n e) (unsent n e (redeployed ps _))
  ]
