-- ===== src/AiService/Jobs/Process.antt =====
-- The processing of an entry, in binary/ai-gateway-service/src/app/queue.rs.
use spacegate.Common.{
  ℕ, ltb, str_eq, if◌then◌else◌, Str, codes, is_empty, trim_end_matches, Bool, true, false, Option,
  none, some, List, [], ◌∷◌, ◌++◌,
}
use spacegate.Common.Parse.{decimal}
use spacegate.Common.Unique.{put_all}
use spacegate.Common.Result.{Result, ok, err}
use spacegate.AiService.Rules.{ServiceError, bad_request, internal}
use spacegate.AiService.Metrics.{add, observe_worker_processing}
use spacegate.AiService.Effects.{M, ◌>>=◌, ◌>>◌, pure, fail, lift, change}
use spacegate.AiService.Jobs.Model.{
  Fields, StoredResult, UpstreamRequest, UpstreamResponse, Codecs, Config, World, Met,
}
use spacegate.AiService.Jobs.Fields.{
  unwrap_or, should_forward_header, kept_headers, field_string, load_body,
}
use spacegate.AiService.Jobs.Commands.{
  acquire_job_lease, release_job_lease, increment_job_delivery_attempt, clear_job_delivery_attempt,
  ack_stream_entry, enqueue_job_dlq, store_result, enqueue_callback_retry,
}

module _ (c : Codecs) (cfg : Config) (met : Met) where
  -- The request that a job asks for.
  unfoldable pub upstream_request : Str → Fields → List ℕ → UpstreamRequest
  unfolding should_forward_header
  upstream_request base fields body =
      let method = unwrap_or (codes "POST") (field_string c fields (codes "method")) in
      let headers_json = unwrap_or (codes "{}") (field_string c fields (codes "headers")) in
      record {
        method = unwrap_or (codes "POST") (c.parse_method method);
        url =
            trim_end_matches b'/' base
            ++ unwrap_or (codes "/") (field_string c fields (codes "path"));
        headers = kept_headers (unwrap_or [] (c.headers_from_str headers_json));
        body = body;
      }

  -- The response's headers are collected into a map: of several of one name the last one stays.
  unfoldable pub result_of : Str → Result Str UpstreamResponse → StoredResult
  unfolding put_all
  result_of job_id (ok response) = record {
    job_id = job_id;
    status = codes "completed";
    http_status = response.status;
    headers = put_all str_eq response.headers [];
    body_base64 = c.encode_base64 response.body;
    completed_at_ms = met.now_ms;
    error = none;
  }
  result_of job_id (err e) = record {
    job_id = job_id;
    status = codes "failed";
    http_status = 502;
    headers = [];
    body_base64 = [];
    completed_at_ms = met.now_ms;
    error = some e;
  }

  -- The callback of a job that has one.
  unfoldable pub call_back : Str → StoredResult → M World (Unit {0})
  call_back callback_url result =
      if is_empty callback_url then pure tt else elim (met.post_callback callback_url result) [
        | ok done ↦ pure tt
        | err message ↦ do
          change λ w. record w { callback_failure_total = add w.callback_failure_total 1 }
          enqueue_callback_retry c cfg met callback_url result message
      ]

  -- Behind the body: the request, its result and the callback.
  unfoldable pub send_job : Str → Fields → Str → List ℕ → M World (Unit {0})
  send_job base fields job_id body = do
    let request = upstream_request base fields body
    change λ w. record w { sent = (job_id, request) ∷ w.sent }
    let result = result_of job_id (met.upstream request)
    store_result c cfg met result
    call_back (unwrap_or [] (field_string c fields (codes "callback_url"))) result
    change λ w. record w { worker_completed_total = add w.worker_completed_total 1 }

  -- By the upstream's address and the id of the job.
  unfoldable pub process_with : Option Str → Option Str → Fields → M World (Unit {0})
  process_with none job_id fields = fail (internal (codes "upstream base URL is not configured"))
  process_with (some base) none fields = fail (bad_request (codes "job missing job_id"))
  process_with (some base) (some job_id) fields = do
    body ← lift (load_body c met fields)
    send_job base fields job_id body

  unfoldable pub process_job : Fields → M World (Unit {0})
  unfolding process_with
  process_job fields =
      process_with cfg.upstream_base_url (field_string c fields (codes "job_id")) fields

  -- Behind a job that was processed, or failed.
  unfoldable pub finish_job :
      Str → Str → Str → World × Result ServiceError (Unit {0}) → World × Result ServiceError Bool
  finish_job stream entry_id job_id (w, ok done) =
      (do
        ack_stream_entry c cfg met stream entry_id
        clear_job_delivery_attempt c cfg met job_id
        release_job_lease c cfg met job_id
        pure true)
        w
  finish_job stream entry_id job_id (w, err e) = (do release_job_lease c cfg met job_id; fail e) w

  -- The time that a job took is told, whatever became of it.
  unfoldable pub timed :
      Str → World × Result ServiceError (Unit {0}) → World × Result ServiceError (Unit {0})
  timed model (w, r) =
      (record w { metrics = observe_worker_processing met.elapsed_ms model w.metrics }, r)

  -- Behind the lease and the count.
  unfoldable pub deliver_job : Str → Str → Fields → Str → ℕ → M World Bool
  unfolding timed
  deliver_job stream entry_id fields job_id attempt w =
      if ltb cfg.job_max_delivery_attempts attempt
      then (do
        enqueue_job_dlq c cfg met stream entry_id fields attempt
            (codes "max_delivery_attempts_exceeded")
        ack_stream_entry c cfg met stream entry_id
        release_job_lease c cfg met job_id
        change λ w. record w { job_dlq_total = add w.job_dlq_total 1 }
        pure true)
          w
      else (let model = unwrap_or (codes "default") (field_string c fields (codes "model")) in
          finish_job stream entry_id job_id (timed model (process_job fields w)))

  -- Behind the request for a lease.
  unfoldable pub take_job : Str → Str → Fields → Str → Bool → M World Bool
  take_job stream entry_id fields job_id true = do
    attempt ← increment_job_delivery_attempt c cfg met job_id
    deliver_job stream entry_id fields job_id attempt
  take_job stream entry_id fields job_id false = do
    change λ w. record w { lease_skip_total = add w.lease_skip_total 1 }
    pure false

  unfoldable pub process_stream_entry : Str → Str → Fields → M World Bool
  process_stream_entry stream entry_id fields = elim (field_string c fields (codes "job_id")) [
    | none ↦ fail (bad_request (codes "job missing job_id"))
    | some job_id ↦ do
      acquired ←
          acquire_job_lease c cfg met job_id
            (cfg.consumer_name ++ b':' ∷ stream ++ b':' ∷ entry_id ++ b':' ∷ decimal met.now_ms)
      take_job stream entry_id fields job_id acquired
  ]
