-- ===== src/AiService/Enqueue.antt =====
-- How a request becomes an entry of the queue: enqueue_job of binary/ai-gateway-service/src/app/queue.rs.
-- The upload of a body and the append of its entry touch different parts of the state, and are taken
-- one behind the other; both are done, whatever the other one gives.
pub mod Read
pub mod Publish
pub mod Entered
pub mod Laws
use spacegate.Common.{
  ℕ, suc, Str, codes, Bool, true, false, Option, none, some, List, [], ◌∷◌, ◌++◌,
}
use spacegate.Common.Int.{pos}
use spacegate.Common.Result.{Result, ok, err, of_option, and_then}
use spacegate.AiService.Metrics.{
  Metrics, add, observe_enqueue_latency, observe_body_size, body_size_bucket,
}
use spacegate.AiService.Rules.{ServiceError, bad_request}
use spacegate.AiService.Effects.{M, ◌>>=◌, ◌>>◌, pure, fail, lift, change}
use spacegate.AiService.Bodies.{
  Objects, Answers, Body, BodyLocation, BodyStoreOutcome, stored, pending_upload, store_body,
  finish_offload_upload,
}
use spacegate.AiService.Streams.{
  QueuePolicy, queue, wait, QueuePriority, high, normal, low, HeaderMap, optional_header,
  stream_for_request, validate_callback_url,
}
use spacegate.AiService.Jobs.Model.{Value, string, integer, Fields, Codecs}
use spacegate.AiService.Jobs.Fields.{unwrap_or}

pub record Config : Type 0 where
  pub streams : spacegate.AiService.Streams.Config
  pub bodies : spacegate.AiService.Bodies.Config

pub record Request : Type 0 where
  pub path : Str
  pub headers : HeaderMap
  pub body : Body

-- What a call meets: the permit for bodies, a fresh id, the clock, the object store and Redis.
pub record Call : Type 0 where
  pub permit : Result ServiceError (Unit {0})
  pub job_id : Str
  pub now_ms : ℕ
  -- The time that the call takes.
  pub elapsed_ms : ℕ
  pub answers : Answers
  pub xadd : Result ServiceError Str
  pub trim : Result ServiceError (Unit {0})

pub record Queue : Type 0 where
  pub objects : Objects
  pub entries : List (Str × Fields)
  pub enqueue_total : ℕ
  pub enqueue_priority_high_total : ℕ
  pub enqueue_priority_normal_total : ℕ
  pub enqueue_priority_low_total : ℕ
  pub enqueue_queue_total : ℕ
  pub enqueue_wait_total : ℕ
  pub metrics : Metrics

pub record AcceptedJob : Type 0 where
  pub job_id : Str
  pub stream_id : Str
  pub stream_key : Str
  pub status : Str
  pub poll_url : Str
  pub status_url : Str
  pub created_at_ms : ℕ

unfoldable pub required_header : HeaderMap → Str → Result ServiceError Str
required_header headers name =
    of_option (bad_request (codes "missing required header")) (optional_header headers name)

-- The values that are text.
abbrev pub header_texts : HeaderMap → List (Str × Str)
header_texts [] = []
header_texts ((name, some value) ∷ headers) = (name, value) ∷ header_texts headers
header_texts ((name, none) ∷ headers) = header_texts headers

abbrev pub policy_text : QueuePolicy → Str
policy_text queue = codes "queue"
policy_text wait = codes "wait"

abbrev pub priority_text : QueuePriority → Str
priority_text high = codes "high"
priority_text normal = codes "normal"
priority_text low = codes "low"

abbrev pub count_priority : QueuePriority → Queue → Queue
count_priority high q = record q {
  enqueue_priority_high_total = add q.enqueue_priority_high_total 1;
}
count_priority normal q = record q {
  enqueue_priority_normal_total = add q.enqueue_priority_normal_total 1;
}
count_priority low q = record q { enqueue_priority_low_total = add q.enqueue_priority_low_total 1 }

abbrev pub count_policy : QueuePolicy → Queue → Queue
count_policy queue q = record q { enqueue_queue_total = add q.enqueue_queue_total 1 }
count_policy wait q = record q { enqueue_wait_total = add q.enqueue_wait_total 1 }

abbrev pub location_of : BodyStoreOutcome → BodyLocation
location_of (stored location) = location
location_of (pending_upload location upload_id pending stream total_size) = location

-- What the headers ask for, with the defaults.
pub record Asked : Type 0 where
  pub tenant_id : Str
  pub model : Str
  pub callback_url : Str
  pub original_method : Str
  pub original_path : Str
  pub request_headers : Str

module _ (c : Codecs) (cfg : Config) (met : Call) where
  abbrev pub fields_of : QueuePolicy → Asked → QueuePriority → BodyLocation → Fields
  fields_of policy asked priority body_ref =
      (codes "job_id", string met.job_id)
      ∷ (codes "tenant_id", string asked.tenant_id)
      ∷ (codes "policy", string (policy_text policy))
      ∷ (codes "model", string asked.model)
      ∷ (codes "priority", string (priority_text priority))
      ∷ (codes "method", string asked.original_method)
      ∷ (codes "path", string asked.original_path)
      ∷ (codes "headers", string asked.request_headers)
      ∷ (codes "body", string body_ref.body_base64)
      ∷ (codes "ref", string body_ref.object_ref)
      ∷ (codes "size", integer (pos body_ref.size))
      ∷ (codes "storage", string body_ref.storage)
      ∷ (codes "callback_url", string asked.callback_url)
      ∷ (codes "created_at", integer (pos met.now_ms))
      ∷ []

  unfoldable pub ask : QueuePolicy → Request → Result ServiceError Asked
  ask policy request =
      let callback_url = unwrap_or [] (optional_header request.headers (codes "x-callback-url")) in
      and_then (required_header request.headers (codes "x-tenant-id")) λ tenant_id.
        and_then (validate_callback_url cfg.streams policy callback_url) λ valid.
          and_then (c.fields_to_string (header_texts request.headers)) λ request_headers.
            ok (record {
              tenant_id = tenant_id;
              model =
                  unwrap_or (codes "default") (optional_header request.headers (codes "x-model"));
              callback_url = callback_url;
              original_method =
                  unwrap_or (codes "POST")
                    (optional_header request.headers (codes "x-original-method"));
              original_path =
                  unwrap_or request.path
                    (optional_header request.headers (codes "x-original-path"));
              request_headers = request_headers;
            })

  unfoldable pub append_entry : Str → Fields → M Queue Str
  append_entry stream_key fields q = elim met.xadd [
    | err e ↦ (q, err e)
    | ok stream_id ↦ (
      record q { entries = (stream_key, fields) ∷ q.entries },
      and_then met.trim (λ done. ok stream_id),
    )
  ]

  -- The entry, beside an upload that is under way.
  unfoldable pub publish : BodyStoreOutcome → Str → Fields → M Queue Str
  publish (stored location) stream_key fields q = append_entry stream_key fields q
  publish (pending_upload location upload_id pending stream total_size) stream_key fields q =
      let (objects, uploaded) =
        finish_offload_upload cfg.bodies met.answers location.object_ref pending stream total_size
          q.objects in
      let (q', appended) = append_entry stream_key fields (record q { objects = objects }) in
      (q', and_then uploaded (λ done. appended))

  unfoldable pub observe_enqueued : QueuePolicy → BodyLocation → Queue → Queue
  observe_enqueued policy body_ref q = record q {
    metrics = observe_body_size body_ref.size (
        observe_enqueue_latency met.elapsed_ms (policy_text policy)
          (body_size_bucket body_ref.size body_ref.storage) q.metrics);
  }

  -- Behind the storing of the body.
  unfoldable pub accept : QueuePolicy → Request → Asked → BodyStoreOutcome → M Queue AcceptedJob
  accept policy request asked body_outcome = do
    let (stream_key, priority) =
        stream_for_request cfg.streams request.headers asked.tenant_id asked.model
    stream_id ←
        publish body_outcome stream_key (fields_of policy asked priority (location_of body_outcome))
    change λ q. record q { enqueue_total = add q.enqueue_total 1 }
    change (observe_enqueued policy (location_of body_outcome))
    change (count_priority priority)
    change (count_policy policy)
    pure (record {
      job_id = met.job_id;
      stream_id = stream_id;
      stream_key = stream_key;
      status = codes "queued";
      poll_url = codes "/jobs/" ++ met.job_id ++ codes "/status";
      status_url = codes "/v1/jobs/" ++ met.job_id;
      created_at_ms = met.now_ms;
    })

  unfoldable pub store_asked : Body → M Queue BodyStoreOutcome
  store_asked body q =
      let (objects, outcome) =
        store_body cfg.bodies met.answers c.encode_base64 met.job_id body q.objects in
      (record q { objects = objects }, outcome)

  -- Behind the permit.
  unfoldable pub enqueue_permitted : QueuePolicy → Request → M Queue AcceptedJob
  enqueue_permitted policy request = do
    asked ← lift (ask policy request)
    outcome ← store_asked request.body
    accept policy request asked outcome

  unfoldable pub with_permit :
      Result ServiceError (Unit {0}) → M Queue AcceptedJob → M Queue AcceptedJob
  with_permit (ok done) run = run
  with_permit (err e) run = fail e

  unfoldable pub enqueue_job : QueuePolicy → Request → M Queue AcceptedJob
  enqueue_job policy request = with_permit met.permit (enqueue_permitted policy request)
