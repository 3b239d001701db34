-- ===== src/Api/Decode.antt =====
-- The decoders of manager/api/transport.go and the readers of queries in pkg/api/api.go, up to the
-- endpoint that they stand before. An HTTP request has what the libraries find in it: the parameters
-- of its path, its query, its header, and its body decoded as JSON of the type that is asked for, none
-- where that fails.
pub mod Served
pub mod Created
use package.text.Mathlib.Text.{find?}
use propeller.Prelude.{
  ℕ, String, Bool, true, false, Option, none, some, List, [], ◌∷◌, ◌==◌, ◌&&◌, inl, inr, ◌⊎◌,
}
use propeller.Value.{Fields, end}
use propeller.Task.{Task}
use propeller.Outcome.{Result, ok, err}
use propeller.Manager.Interface.{Outside, PageMetadata}
use propeller.Api.{ListEntityStatus}
use propeller.Api.Response.{Response, Failure, undecodable, unreadable}
use propeller.Api.Endpoint.{
  Request, entity_req, list_entity_req, list_tasks_req, task_req, workflow_req, job_req, invoke_req,
  metrics_req, TaskReq, JobReq, Endpoint,
}

-- The file of a form, as ParseMultipartForm, FormFile and ReadAll find it.
pub record FormFile : Type 0 where
  pub has_wasm_suffix : Bool
  pub bytes : List ℕ

pub record HttpRequest : Type 0 where
  pub url_param : String → String
  pub query : String → List String
  pub content_type : String
  pub is_empty : Bool
  pub task_body : Option TaskReq
  pub workflow_body : Option (List Task)
  pub job_body : Option JobReq
  pub invoke_body : Option (List String × List (String × String))
  pub form_file : Option FormFile

abbrev pub Decoded : Type 0
Decoded = Request ⊎ Failure

abbrev content_type_json : String
content_type_json = "application/json"

-- `strings.Contains(r.Header.Get("Content-Type"), api.ContentType)`.
unfoldable pub is_json : HttpRequest → Bool
is_json r = elim (find? r.content_type content_type_json) [ none ↦ false | some n ↦ true ]

-- The decoders of a body in JSON.
unfoldable decode_body : {A : Type 0} → HttpRequest → Option A → (A → Request) → Decoded
unfolding is_json
decode_body r body make = elim (is_json r) [
  | false ↦ inr undecodable
  | true ↦ elim body [ none ↦ inr undecodable | some a ↦ inl (make a) ]
]

unfoldable pub decode_entity_req : String → HttpRequest → Decoded
decode_entity_req key r = inl (entity_req (r.url_param key))

unfoldable pub decode_task_req : HttpRequest → Decoded
unfolding decode_body
decode_task_req r = decode_body r r.task_body task_req

unfoldable decode_workflow_req : HttpRequest → Decoded
unfolding decode_body
decode_workflow_req r = decode_body r r.workflow_body workflow_req

unfoldable decode_job_req : HttpRequest → Decoded
unfolding decode_body
decode_job_req r = decode_body r r.job_body job_req

-- `req.ID = chi.URLParam(r, "taskID")`.
abbrev pub with_id : String → TaskReq → TaskReq
with_id id q = record q { task = record q.task { id = id }; change = record q.change { id = id } }

unfoldable decode_update_task_req : HttpRequest → Decoded
unfolding decode_body
decode_update_task_req r =
    decode_body r r.task_body (λ q. task_req (with_id (r.url_param "taskID") q))

-- The bytes of one list begin the other.
unfoldable pub begin : List ℕ → List ℕ → Bool
begin [] ys = true
begin (x ∷ xs) [] = false
begin (x ∷ xs) (y ∷ ys) = x == y && begin xs ys

-- The magic number of WebAssembly.
abbrev pub wasm_magic : List ℕ
wasm_magic = 0 ∷ 0x61 ∷ 0x73 ∷ 0x6d ∷ []

-- The upload of a task's file: the task is the zero value apart from its id and the file.
module _ (zero_task : TaskReq) where
  abbrev pub upload : String → List ℕ → TaskReq
  upload id bytes = with_id id (record zero_task {
    task = record zero_task.task { program = record zero_task.task.program { file = bytes } };
    change = record zero_task.change { file = some bytes };
  })

  unfoldable pub decode_upload_task_file_req : HttpRequest → Decoded
  unfolding begin
  decode_upload_task_file_req r = elim r.form_file [
    | none ↦ inr unreadable
    | some f ↦ elim f.has_wasm_suffix [
      | false ↦ inr undecodable
      | true ↦ elim (begin wasm_magic f.bytes) [
        | false ↦ inr undecodable
        | true ↦ inl (task_req (upload (r.url_param "taskID") f.bytes))
      ]
    ]
  ]

unfoldable decode_invoke_task_req : HttpRequest → Decoded
unfolding decode_body
decode_invoke_task_req r = elim r.is_empty [
  | true ↦ inl (invoke_req (record { id = r.url_param "taskID"; inputs = []; env = [] }))
  | false ↦ decode_body r r.invoke_body (λ (inputs, env).
      invoke_req (record { id = r.url_param "taskID"; inputs = inputs; env = env }))
]

-- `parse_uint` is strconv.ParseUint of 64 bits, and `parse_metadata` the JSON of a map.
module _ (parse_uint : String → Option ℕ) (parse_metadata : String → Option Fields) where
  unfoldable read_num_query : HttpRequest → String → ℕ → Option ℕ
  read_num_query r key default = elim (r.query key) [
    | [] ↦ some default
    | raw ∷ more ↦ parse_uint raw
  ]

  unfoldable read_metadata_query : HttpRequest → String → Option Fields
  read_metadata_query r key = elim (r.query key) [
    | [] ↦ some end
    | raw ∷ more ↦ elim more [ [] ↦ parse_metadata raw | v ∷ vs ↦ none ]
  ]

  -- Two numbers of the query, and what is made of them.
  unfoldable with_page : HttpRequest → (ℕ → ℕ → Decoded) → Decoded
  unfolding read_num_query
  with_page r make = elim (read_num_query r "offset" 0) [
    | none ↦ inr undecodable
    | some offset ↦ elim (read_num_query r "limit" 100) [
      | none ↦ inr undecodable
      | some limit ↦ make offset limit
    ]
  ]

  unfoldable read_string_query : HttpRequest → String → String → String
  read_string_query r key default = elim (r.query key) [ [] ↦ default | v ∷ vs ↦ v ]

  unfoldable decode_list_entity_req : ListEntityStatus → HttpRequest → Decoded
  unfolding with_page read_string_query
  decode_list_entity_req filter r = with_page r λ offset limit. inl (
      list_entity_req (record {
        offset = offset;
        limit = limit;
        status = read_string_query r "status" "";
        status_filter = filter;
      }))

  unfoldable decode_list_tasks_req : HttpRequest → Decoded
  unfolding with_page read_metadata_query
  decode_list_tasks_req r = with_page r λ offset limit. elim (read_metadata_query r "metadata") [
    | none ↦ inr undecodable
    | some m ↦ inl (list_tasks_req (record { offset = offset; limit = limit; metadata = m }))
  ]

  unfoldable decode_metrics_req : String → HttpRequest → Decoded
  unfolding with_page
  decode_metrics_req key r = with_page r λ offset limit.
      inl (metrics_req (record { id = r.url_param key; offset = offset; limit = limit }))

-- A server of go-kit: the decoder, and where it succeeds the endpoint.
unfoldable pub serve :
    {O : Outside} {S : Type 0}
    → (HttpRequest → Decoded)
    → Endpoint O S
    → HttpRequest
    → S
    → (Response O ⊎ Failure) × S
serve decode endpoint r s = elim (decode r) [ inl q ↦ endpoint q s | inr f ↦ (inr f, s) ]
