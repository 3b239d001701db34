-- ===== src/Api/Decode/Created.antt =====
-- The creation of a task through HTTP (manager/api): from the body of the request to the service.
use propeller.Prelude.{
  ◌≡◌, ◌⊎◌, refl, ℕ, String, Bool, true, false, Option, none, some, inl, inr, Bool-cases,
  Option-cases,
}
use propeller.Value.{Fields}
use propeller.Task.{Task}
use propeller.Errors.{Err}
use propeller.Outcome.{Result, ok, err}
use propeller.Manager.Interface.{Outside, Service}
use propeller.Manager.Start.{elastic_config}
use propeller.Api.{ApiError, validate_task_req}
use propeller.Api.Elastic.{IsSound, validate_task_req-IsSound}
use propeller.Api.Response.{
  Response, Failure, task_response, undecodable, encode_error, invalid, failed,
}
use propeller.Api.Endpoint.{TaskReq, task_req, create_task_endpoint, guarded, as_task, answer}
use propeller.Api.Decode.{HttpRequest, is_json, decode_body, decode_task_req, serve}

module _ (valid_cron valid_uuid : String → Bool) (json_size : Fields → Option ℕ) {O : Outside}
    {S : Type 0} (svc : Service O S) (r : HttpRequest) (s : S) where
  undecoded :
      (f : Failure)
      → decode_task_req r ≡ inr f
      → serve decode_task_req (create_task_endpoint valid_cron valid_uuid json_size svc) r s
        ≡ (inr f, s)
  unfolding serve
  undecoded f e = rw (serve, e) refl

  refused :
      (q : TaskReq) (e : ApiError)
      → decode_task_req r ≡ inl (task_req q)
      → validate_task_req valid_cron valid_uuid json_size q.task ≡ some e
      → serve decode_task_req (create_task_endpoint valid_cron valid_uuid json_size svc) r s
        ≡ (inr (invalid e), s)
  unfolding serve create_task_endpoint guarded as_task
  refused q e d v = rw (serve, d, v) refl

  created :
      (q : TaskReq) (t : Task) (u : S)
      → decode_task_req r ≡ inl (task_req q)
      → validate_task_req valid_cron valid_uuid json_size q.task ≡ none
      → svc.create_task q.task s ≡ (ok t, u)
      → serve decode_task_req (create_task_endpoint valid_cron valid_uuid json_size svc) r s
        ≡ (inl (task_response true t), u)
  unfolding serve create_task_endpoint guarded as_task answer
  created q t u d v c = rw (serve, d, v, c) refl

  uncreated :
      (q : TaskReq) (e : Err) (u : S)
      → decode_task_req r ≡ inl (task_req q)
      → validate_task_req valid_cron valid_uuid json_size q.task ≡ none
      → svc.create_task q.task s ≡ (err e, u)
      → serve decode_task_req (create_task_endpoint valid_cron valid_uuid json_size svc) r s
        ≡ (inr (failed e), u)
  unfolding serve create_task_endpoint guarded as_task answer
  uncreated q e u d v c = rw (serve, d, v, c) refl

  -- What is answered: the task, with the state that the service leaves, or the service's error.
  abbrev pub Answered : TaskReq → (Response O ⊎ Failure) × S → Type 0
  Answered q out =
      ((t : Task) × (u : S) × (svc.create_task q.task s ≡ (ok t, u))
        × (out ≡ (inl (task_response true t), u)))
      ⊎ ((e : Err) × (u : S) × (svc.create_task q.task s ≡ (err e, u))
          × (out ≡ (inr (failed e), u)))

  answered :
      (q : TaskReq)
      → decode_task_req r ≡ inl (task_req q)
      → validate_task_req valid_cron valid_uuid json_size q.task ≡ none
      → Answered q
          (serve decode_task_req (create_task_endpoint valid_cron valid_uuid json_size svc) r s)
  answered q d v = by_result (svc.create_task q.task s) refl
    where
      by_result :
          (out : Result Task × S)
          → svc.create_task q.task s ≡ out
          → Answered q
              (serve decode_task_req (create_task_endpoint valid_cron valid_uuid json_size svc) r s)
      by_result (ok t, u) c = inl (t, u, c, created q t u d v c)
      by_result (err e, u) c = inr (e, u, c, uncreated q e u d v c)

  -- The creation of a task through HTTP. Either the answer is a failure with status 400 and the
  -- state is as it was, and the request is not JSON, or its body is no task, or the check of the
  -- task fails. Or the body is a task that passes the check, the sandbox configuration in its metadata, if
  -- there is one, is sound, and the answer and the state are those of the service's CreateTask on it.
  pub create_task_served :
      ((f : Failure) × (serve decode_task_req
            (create_task_endpoint valid_cron valid_uuid json_size svc)
            r
            s
          ≡ (inr f, s))
        × (encode_error f ≡ 400)
        × ((is_json r ≡ false)
            ⊎ ((r.task_body ≡ none)
                ⊎ ((q : TaskReq) × (e : ApiError) × (r.task_body ≡ some q)
                    × (validate_task_req valid_cron valid_uuid json_size q.task ≡ some e)))))
      ⊎ ((q : TaskReq) × (is_json r ≡ true)
          × (r.task_body ≡ some q)
          × (validate_task_req valid_cron valid_uuid json_size q.task ≡ none)
          × ((cfg : Fields) → elastic_config q.task ≡ some cfg → IsSound cfg)
          × Answered q (
              serve decode_task_req (create_task_endpoint valid_cron valid_uuid json_size svc) r s))
  unfolding decode_task_req decode_body encode_error
  create_task_served = elim (Bool-cases (is_json r)) [
    | inr n ↦ inl (
      undecodable,
      undecoded undecodable (rw (decode_task_req, decode_body, n) refl),
      refl,
      inl n,
    )
    | inl y ↦ elim (Option-cases r.task_body) [
      | inl b ↦ inl (
        undecodable,
        undecoded undecodable (rw (decode_task_req, decode_body, y, b) refl),
        refl,
        inr (inl b),
      )
      | inr (q, b) ↦
          let d : decode_task_req r ≡ inl (task_req q) =
            rw (decode_task_req, decode_body, y, b) refl in
          elim (Option-cases (validate_task_req valid_cron valid_uuid json_size q.task)) [
            | inr (e, v) ↦ inl (invalid e, refused q e d v, refl, inr (inr (q, e, b, v)))
            | inl v ↦ inr (
              q,
              y,
              b,
              v,
              λ cfg c. validate_task_req-IsSound valid_cron valid_uuid json_size q.task cfg v c,
              answered q d v,
            )
          ]
    ]
  ]
