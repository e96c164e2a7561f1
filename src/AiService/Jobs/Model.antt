-- ===== src/AiService/Jobs/Model.antt =====
-- The data of the queue of jobs: what Redis and the upstream have seen, and what a run meets.
use spacegate.Common.{ℕ, Str, Option, List}
use spacegate.Common.Int.{ℤ}
use spacegate.Common.Result.{Result}
use spacegate.Callback.{Retry}
use spacegate.AiService.Metrics.{Metrics}
use spacegate.AiService.Rules.{ServiceError}

-- The values of `fred`.
pub data Value : Type 0 where
  string : Str → Value
  bytes : List ℕ → Value
  integer : ℤ → Value
  other : Value

abbrev pub Fields : Type 0
Fields = List (Str × Value)

pub record StoredResult : Type 0 where
  pub job_id : Str
  pub status : Str
  pub http_status : ℕ
  pub headers : List (Str × Str)
  pub body_base64 : Str
  pub completed_at_ms : ℕ
  pub error : Option Str

-- A request to the upstream, and its answer.
pub record UpstreamRequest : Type 0 where
  pub method : Str
  pub url : Str
  pub headers : List (Str × Str)
  pub body : List ℕ

-- The headers are those whose value is text.
pub record UpstreamResponse : Type 0 where
  pub status : ℕ
  pub headers : List (Str × Str)
  pub body : List ℕ

-- The crates for texts: UTF-8, base 64, JSON, methods and the debug form of a value. A callback's
-- body is made of the result.
pub record Codecs : Type 0 where
  pub from_utf8 : List ℕ → Option Str
  pub as_bytes : Str → List ℕ
  pub decode_base64 : Str → Result ServiceError (List ℕ)
  pub encode_base64 : List ℕ → Str
  pub headers_from_str : Str → Option (List (Str × Str))
  pub fields_to_string : List (Str × Str) → Result ServiceError Str
  pub result_to_string : StoredResult → Result ServiceError Str
  pub callback_to_string : StoredResult → Result ServiceError Str
  pub parse_method : Str → Option Str
  pub debug : Value → Str

pub record Config : Type 0 where
  pub upstream_base_url : Option Str
  pub consumer_name : Str
  pub job_max_delivery_attempts : ℕ
  pub result_key_prefix : Str
  pub result_channel_prefix : Str
  pub callback_retry_initial_delay_ms : ℕ

pub record DeadJob : Type 0 where
  pub job_id : Str
  pub source_stream : Str
  pub source_entry_id : Str
  pub attempts : ℕ
  pub reason : Str
  pub fields : Str

pub record World : Type 0 where
  pub leases : List (Str × Str)
  pub attempts : List (Str × ℕ)
  pub acked : List (Str × Str)
  pub dead : List DeadJob
  pub results : List (Str × Str)
  pub published : List Str
  pub retries : List Retry
  -- The jobs whose requests were sent, with the requests.
  pub sent : List (Str × UpstreamRequest)
  pub lease_skip_total : ℕ
  pub job_dlq_total : ℕ
  pub worker_completed_total : ℕ
  pub callback_failure_total : ℕ
  pub callback_retry_total : ℕ
  pub metrics : Metrics

-- What a run meets: the clock, which commands work, the object store, the upstream and the receiver
-- of callbacks.
pub record Met : Type 0 where
  pub now_ms : ℕ
  -- The time that the processing takes.
  pub elapsed_ms : ℕ
  pub set_lease : Result ServiceError (Unit {0})
  pub incr : Result ServiceError (Unit {0})
  pub expire : Result ServiceError (Unit {0})
  pub dlq_xadd : Result ServiceError (Unit {0})
  pub dlq_trim : Result ServiceError (Unit {0})
  pub xack : Result ServiceError (Unit {0})
  pub del_lease : Result ServiceError (Unit {0})
  pub del_attempt : Result ServiceError (Unit {0})
  pub set_result : Result ServiceError (Unit {0})
  pub publish : Result ServiceError (Unit {0})
  pub retry_xadd : Result ServiceError (Unit {0})
  pub retry_trim : Result ServiceError (Unit {0})
  pub object : Str → Result ServiceError (List ℕ)
  pub upstream : UpstreamRequest → Result Str UpstreamResponse
  pub post_callback : Str → StoredResult → Result Str (Unit {0})
