-- ===== src/Api/Decode/Served.antt =====
-- From an HTTP request to the service (manager/api/transport.go and manager/api/endpoint.go).
use propeller.Prelude.{
  ◌≡◌, refl, sym, ℕ, String, Bool, true, Option, ◌⊎◌, inl, inr, Bool-cases, Option-cases,
}
use propeller.Value.{Fields}
use propeller.Manager.Interface.{Outside, Service}
use propeller.Api.Response.{Failure, encode_error}
use propeller.Api.Endpoint.{Request, task_req, TaskReq}
use propeller.Api.Endpoint.Refused.{Route, accepts, endpoint, refused_request}
use propeller.Api.Decode.{
  HttpRequest, Decoded, FormFile, serve, begin, wasm_magic, upload, decode_upload_task_file_req,
}

sum-cases : (d : Decoded) → ((q : Request) × (d ≡ inl q)) ⊎ ((f : Failure) × (d ≡ inr f))
sum-cases (inl q) = inl (q, refl)
sum-cases (inr f) = inr (f, refl)

module _ (valid_cron valid_uuid : String → Bool) (json_size : Fields → Option ℕ) where
  module _ {O : Outside} {S : Type 0} (svc : Service O S) where
    -- For every endpoint behind every decoder: either the answer is the decoder's failure or one with
    -- status 400, and the state is as it was; or the request was decoded to one that the endpoint
    -- takes, without an error of its check where it makes one (that of an update makes none), and the answer and the state are the endpoint's on it.
    pub served_only_checked :
        (decode : HttpRequest → Decoded) (route : Route) (r : HttpRequest) (s : S)
        → ((f : Failure) × (serve decode (endpoint valid_cron valid_uuid json_size svc route) r s
              ≡ (inr f, s))
            × ((decode r ≡ inr f) ⊎ (encode_error f ≡ 400)))
          ⊎ ((q : Request) × (decode r ≡ inl q)
              × (accepts valid_cron valid_uuid json_size route q ≡ true)
              × (serve decode (endpoint valid_cron valid_uuid json_size svc route) r s
                  ≡ endpoint valid_cron valid_uuid json_size svc route q s))
    unfolding serve
    served_only_checked decode route r s = elim (sum-cases (decode r)) [
      | inr (f, e) ↦ inl (f, rw (serve, e) refl, inl e)
      | inl (q, e) ↦ elim (Bool-cases (accepts valid_cron valid_uuid json_size route q)) [
        | inl y ↦ inr (q, e, y, rw (serve, e) refl)
        | inr n ↦
            let (f, same, bad) = refused_request valid_cron valid_uuid json_size svc route q s n in
            inl (f, rw (serve, e) same, inr bad)
      ]
    ]

-- An upload reaches the service only with the magic number of WebAssembly, and for the task of the
-- path.
upload_lem :
    (zero_task : TaskReq) (r : HttpRequest) (q : Request)
    → decode_upload_task_file_req zero_task r ≡ inl q
    → (f : FormFile) × (begin wasm_magic f.bytes ≡ true)
      × (q ≡ task_req (upload zero_task (r.url_param "taskID") f.bytes))
unfolding decode_upload_task_file_req
upload_lem zero_task r q h = elim (Option-cases r.form_file) [
  | inl e ↦ (let g = rw (decode_upload_task_file_req, e) at h in absurd (no g))
  | inr (f, e) ↦ elim (Bool-cases f.has_wasm_suffix) [
    | inr n ↦ (let g = rw (decode_upload_task_file_req, e, n) at h in absurd (no g))
    | inl y ↦ elim (Bool-cases (begin wasm_magic f.bytes)) [
      | inr m ↦ (let g = rw (decode_upload_task_file_req, e, y, m) at h in absurd (no g))
      | inl m ↦ (f, m, sym (same (rw (decode_upload_task_file_req, e, y, m) at h)))
    ]
  ]
]
  where
    no : {f : Failure} → ◌≡◌ {A = Decoded} (inr f) (inl q) → ⊥
    no g = cc

    same : {a : Request} → ◌≡◌ {A = Decoded} (inl a) (inl q) → a ≡ q
    same g = cc
