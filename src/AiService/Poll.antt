-- ===== src/AiService/Poll.antt =====
-- The answers for the result of a job: get_job and enqueue_and_wait in
-- binary/ai-gateway-service/src/app/handlers.rs, with result_store.rs and util.rs.
pub mod Laws
use spacegate.Common.{
  ℕ, ◌+◌, ◌-◌, not, if◌then◌else◌, Str, codes, str_eq, to_ascii_lowercase, Bool, any, Option, none,
  some, List, [], ◌∷◌, ◌++◌,
}
use spacegate.Common.Assoc.{get, put}
use spacegate.Common.Parse.{decimal}
use spacegate.Common.Result.{Result, ok, err}
use spacegate.AiService.Rules.{
  ServiceError, bad_request, internal, gateway_timeout, payload_too_large,
}
use spacegate.AiService.Metrics.{add}
use spacegate.AiService.Enqueue.{AcceptedJob}
use spacegate.AiService.Dates.{format_completed_at_rfc3339}
use spacegate.AiService.Jobs.Model.{StoredResult, Codecs, Config, World}
use spacegate.AiService.Jobs.Fields.{unwrap_or}

-- What is used of `http`, `axum` and `serde_json`.
pub record Crates : Type 0 where
  pub result_from_str : Str → Option StoredResult
  pub header_name : Str → Option Str
  pub header_value : Str → Option Str
  pub status_from_u16 : ℕ → Option ℕ
  -- The headers of an answer that is made of bytes.
  pub octets_headers : List (Str × Str)

pub data Answer : Type 0 where
  octets : (status : ℕ) (headers : List (Str × Str)) (body : List ℕ) → Answer
  not_completed :
      (job_id status : Str) (http_status : ℕ) (error : Option Str) (completed_at : Str) → Answer
  not_found : Str → Answer
  timed_out : (job_id poll_url : Str) (waited_ms : ℕ) → Answer

unfoldable pub should_return_upstream_header : Str → Bool
should_return_upstream_header name =
    let name = to_ascii_lowercase name in
    not (
      any (str_eq name) (
        codes "host"
        ∷ codes "connection"
        ∷ codes "content-length"
        ∷ codes "transfer-encoding"
        ∷ codes "keep-alive"
        ∷ codes "proxy-connection"
        ∷ codes "upgrade"
        ∷ codes "te"
        ∷ codes "trailer"
        ∷ codes "trailers"
        ∷ []))

-- The two counters of waiting.
pub record Waits : Type 0 where
  pub wait_total : ℕ
  pub wait_timeout_total : ℕ

module _ (k : Crates) (c : Codecs) (cfg : Config) where
  -- `insert`, where the name and the value can be those of a header.
  unfoldable pub insert_header : Option Str → Option Str → List (Str × Str) → List (Str × Str)
  insert_header (some name) (some value) headers = put str_eq name value headers
  insert_header (some name) none headers = headers
  insert_header none value headers = headers

  unfoldable pub returned_headers : List (Str × Str) → List (Str × Str) → List (Str × Str)
  unfolding insert_header should_return_upstream_header
  returned_headers [] headers = headers
  returned_headers ((name, value) ∷ hs) headers = returned_headers hs (
      if should_return_upstream_header name
      then insert_header (k.header_name name) (k.header_value value) headers
      else headers)

  -- `headers.insert(name, header_value(value)?)`
  unfoldable pub insert_checked :
      Str → Str → List (Str × Str) → Result ServiceError (List (Str × Str))
  insert_checked name value headers = elim (k.header_value value) [
    | none ↦ err (internal (codes "invalid response header value"))
    | some value ↦ ok (put str_eq name value headers)
  ]

  -- The status, the headers and the body, which both kinds of answers have.
  unfoldable pub response_of : StoredResult → Result ServiceError (ℕ × List (Str × Str) × List ℕ)
  unfolding returned_headers insert_checked
  response_of result =
      let status = unwrap_or 200 (k.status_from_u16 result.http_status) in
      elim (c.decode_base64 result.body_base64) [
        | err e ↦ err (internal (codes "decode result body"))
        | ok body ↦
            elim (insert_checked (codes "x-job-id") result.job_id
              (returned_headers result.headers k.octets_headers)) [
                | err e ↦ err e
                | ok headers ↦ ok (status, headers, body)
              ]
      ]

  unfoldable pub poll_result_to_response : StoredResult → Result ServiceError Answer
  unfolding response_of
  poll_result_to_response result = elim (response_of result) [
    | err e ↦ err e
    | ok (status, headers, body) ↦ ok (octets status headers body)
  ]

  -- By the time that the job took.
  unfoldable pub result_to_response : StoredResult → ℕ → Result ServiceError Answer
  unfolding response_of insert_checked
  result_to_response result waited_ms = elim (response_of result) [
    | err e ↦ err e
    | ok (status, headers, body) ↦
        elim (insert_checked (codes "x-queue-wait-ms") (decimal waited_ms) headers) [
          | err e ↦ err e
          | ok headers ↦ ok (octets status headers body)
        ]
  ]

  -- `GET`, which fails with an error or works.
  unfoldable pub load_result :
      Result ServiceError (Unit {0}) → World → Str → Result ServiceError (Option StoredResult)
  load_result (err e) w job_id = err e
  load_result (ok done) w job_id = elim (get str_eq (cfg.result_key_prefix ++ job_id) w.results) [
    | none ↦ ok none
    | some text ↦ elim (k.result_from_str text) [
      | none ↦ err (internal (codes "parse result"))
      | some result ↦ ok (some result)
    ]
  ]

  -- Behind the read of the result.
  unfoldable pub job_answer :
      Str → Result ServiceError (Option StoredResult) → Result ServiceError Answer
  unfolding poll_result_to_response format_completed_at_rfc3339
  job_answer job_id (err e) = err e
  job_answer job_id (ok none) = ok (not_found job_id)
  job_answer job_id (ok (some result)) =
      if str_eq result.status (codes "completed")
      then poll_result_to_response result
      else ok (
          not_completed result.job_id result.status result.http_status result.error
            (format_completed_at_rfc3339 result.completed_at_ms))

  unfoldable pub get_job : Result ServiceError (Unit {0}) → World → Str → Result ServiceError Answer
  unfolding load_result job_answer
  get_job redis w job_id = job_answer job_id (load_result redis w job_id)

  -- Behind the wait: the result is read again.
  unfoldable pub waited_answer :
      Result ServiceError (Unit {0})
      → World
      → Str
      → Str
      → ℕ
      → Result ServiceError (Unit {0})
      → Waits
      → Waits × Result ServiceError Answer
  unfolding load_result result_to_response
  waited_answer redis w job_id poll_url waited_ms (ok done) s = (
    s,
    elim (load_result redis w job_id) [
      | err e ↦ err e
      | ok (some result) ↦ result_to_response result waited_ms
      | ok none ↦ err (gateway_timeout (codes "result is missing"))
    ],
  )
  waited_answer redis w job_id poll_url waited_ms (err (gateway_timeout text)) s = (
    record s { wait_timeout_total = add s.wait_timeout_total 1 },
    ok (timed_out job_id poll_url waited_ms),
  )
  waited_answer redis w job_id poll_url waited_ms (err (bad_request text)) s =
      (s, err (bad_request text))
  waited_answer redis w job_id poll_url waited_ms (err (internal text)) s = (s, err (internal text))
  waited_answer redis w job_id poll_url waited_ms (err (payload_too_large text)) s =
      (s, err (payload_too_large text))

  -- A job that was accepted: its result is there already, or is waited for. Redis and the clock are
  -- those before the wait and behind it.
  unfoldable pub await_result :
      Result ServiceError (Unit {0})
      → World
      → World
      → Str
      → Str
      → ℕ
      → ℕ
      → ℕ
      → Result ServiceError (Unit {0})
      → Waits
      → Waits × Result ServiceError Answer
  unfolding load_result result_to_response waited_answer
  await_result redis before behind job_id poll_url created_at_ms now later wait s =
      elim (load_result redis before job_id) [
        | err e ↦ (s, err e)
        | ok (some result) ↦ (s, result_to_response result (now - created_at_ms))
        | ok none ↦ waited_answer redis behind job_id poll_url (later - created_at_ms) wait s
      ]

  -- By what became of the request.
  unfoldable pub enqueue_and_wait :
      Result ServiceError (Unit {0})
      → World
      → World
      → Result ServiceError AcceptedJob
      → ℕ
      → ℕ
      → Result ServiceError (Unit {0})
      → Waits
      → Waits × Result ServiceError Answer
  unfolding await_result
  enqueue_and_wait redis before behind accepted now later wait s =
      let s : Waits = record s { wait_total = add s.wait_total 1 } in
      elim accepted [
        | err e ↦ (s, err e)
        | ok a ↦
            await_result redis before behind a.job_id a.poll_url a.created_at_ms now later wait s
      ]
