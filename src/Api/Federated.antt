-- ===== src/Api/Federated.antt =====
-- manager/api/fl_endpoints.go: the endpoints that pass federated learning on to the coordinator, and
-- their decoders. A body is what the JSON decoder makes of it, none where it fails.
use propeller.Prelude.{
  ◌≡◌, refl, ℕ, String, Bool, true, false, Option, none, some, List, str_eq, if◌then◌else◌, ◌||◌,
  inl, inr, ◌⊎◌,
}
use propeller.Outcome.{ok, err}
use propeller.Manager.Interface.{Outside, Service, Method}
use propeller.Api.Response.{Failure, undecodable, invalid_data, failed, encode_error}

pub data FlRequest (O : Outside) : Type 0 where
  experiment_config_req : O.ExperimentConfig → FlRequest O
  fl_task_req : (round_id proplet_id : String) → FlRequest O
  fl_update_req : O.FlUpdate → FlRequest O
  fl_update_cbor_req : List ℕ → FlRequest O
  round_status_req : (round_id : String) → FlRequest O

pub data FlResponse (O : Outside) : Type 0 where
  configured : (experiment_id round_id : String) → FlResponse O
  fl_task_response : O.FlTask → FlResponse O
  accepted : FlResponse O
  round_status_response : O.RoundStatus → FlResponse O

module _ {O : Outside} {S : Type 0} (svc : Service O S) where
  abbrev FlEndpoint : Type 0
  FlEndpoint = FlRequest O → S → (FlResponse O ⊎ Failure) × S

  unfoldable reply :
      {A : Type 0} → (A → FlResponse O) → Method S A → S → (FlResponse O ⊎ Failure) × S
  reply respond m s =
      let (r, t) = m s in
      (
        elim r as (λ _. FlResponse O ⊎ Failure) [ ok a ↦ inl (respond a) | err e ↦ inr (failed e) ],
        t,
      )

  unfoldable configure_experiment_endpoint : FlEndpoint
  unfolding reply
  configure_experiment_endpoint (experiment_config_req c) s =
      reply (λ _. configured (O.experiment_id c) (O.config_round_id c)) (svc.configure_experiment c)
        s
  configure_experiment_endpoint _ s = (inr invalid_data, s)

  unfoldable get_fl_task_endpoint : FlEndpoint
  unfolding reply
  get_fl_task_endpoint (fl_task_req round_id proplet_id) s =
      reply fl_task_response (svc.get_fl_task round_id proplet_id) s
  get_fl_task_endpoint _ s = (inr invalid_data, s)

  unfoldable post_fl_update_endpoint : FlEndpoint
  unfolding reply
  post_fl_update_endpoint (fl_update_req u) s = reply (λ _. accepted) (svc.post_fl_update u) s
  post_fl_update_endpoint _ s = (inr invalid_data, s)

  unfoldable post_fl_update_cbor_endpoint : FlEndpoint
  unfolding reply
  post_fl_update_cbor_endpoint (fl_update_cbor_req bytes) s =
      reply (λ _. accepted) (svc.post_fl_update_cbor bytes) s
  post_fl_update_cbor_endpoint _ s = (inr invalid_data, s)

  unfoldable get_round_status_endpoint : FlEndpoint
  unfolding reply
  get_round_status_endpoint (round_status_req round_id) s =
      reply round_status_response (svc.get_round_status round_id) s
  get_round_status_endpoint _ s = (inr invalid_data, s)

module _ (O : Outside) where
  abbrev FlDecoded : Type 0
  FlDecoded = FlRequest O ⊎ Failure

  -- `r.URL.Query().Get`, the empty text where there is none.
  unfoldable decode_fl_task_req : String → String → FlDecoded
  decode_fl_task_req round_id proplet_id =
      if str_eq round_id "" then inr undecodable else inl (fl_task_req round_id proplet_id)

  -- With the test of the content type.
  unfoldable decode_fl_update_req : Bool → Option O.FlUpdate → FlDecoded
  decode_fl_update_req false body = inr undecodable
  decode_fl_update_req true none = inr undecodable
  decode_fl_update_req true (some u) = inl (fl_update_req u)

  unfoldable decode_fl_update_cbor_req : String → Option (List ℕ) → FlDecoded
  decode_fl_update_cbor_req content_type none = inr undecodable
  decode_fl_update_cbor_req content_type (some bytes) =
      if str_eq content_type "application/cbor" || str_eq content_type "application/cbor-seq"
      then inl (fl_update_cbor_req bytes)
      else inr undecodable

  unfoldable decode_round_status_req : String → FlDecoded
  decode_round_status_req round_id =
      if str_eq round_id "" then inr undecodable else inl (round_status_req round_id)

  unfoldable decode_experiment_config_req : Bool → Option O.ExperimentConfig → FlDecoded
  decode_experiment_config_req false body = inr undecodable
  decode_experiment_config_req true none = inr undecodable
  decode_experiment_config_req true (some c) = inl (experiment_config_req c)

-- A request for a task or for the status of a round reaches its endpoint with a round id only.
round_id_required :
    (O : Outside) (proplet_id : String)
    → (decode_fl_task_req O "" proplet_id ≡ inr undecodable)
      × (decode_round_status_req O "" ≡ inr undecodable)
      × (encode_error undecodable ≡ 400)
unfolding decode_fl_task_req decode_round_status_req encode_error
round_id_required O proplet_id = (refl, refl, refl)
