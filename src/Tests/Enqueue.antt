-- ===== src/Tests/Enqueue.antt =====
-- Requests that become entries of the queue.
use spacegate.Common.{
  ◌≡◌, ◌≢◌, refl, arith, Str, codes, str_eq, str_eq_iff, Option, true, false, none, some, List, [],
  ◌∷◌,
}
use spacegate.Common.Assoc.{get}
use spacegate.Common.Result.{ok, err, of_option}
use spacegate.AiService.Metrics.Laws.{no_metrics}
use spacegate.AiService.Rules.{internal}
use spacegate.AiService.Bodies.{Objects, Answers}
use spacegate.AiService.Jobs.Model.{Codecs}
use spacegate.AiService.Streams.{queue, high, stream_for_request, worker_stream_order}
use spacegate.AiService.Streams
use spacegate.AiService.Bodies
use spacegate.AiService.Jobs.Model
use spacegate.AiService.Streams.Laws.{turns, weight_of, stream_for_request-turns}
use spacegate.AiService.Enqueue.{Config, Request, Call, Queue, header_texts, enqueue_job}
use spacegate.AiService.Enqueue.Laws.{Enqueued, enqueue_job-Enqueued}

abbrev streams : spacegate.AiService.Streams.Config
streams = record {
  stream_key = codes "s";
  high_priority_stream_key = codes "s:high";
  low_priority_stream_key = codes "s:low";
  enable_priority_streams = true;
  queue_default_priority = codes "normal";
  queue_high_models = [];
  queue_low_models = [];
  queue_high_tenants = codes "a, b";
  queue_low_tenants = [];
  queue_high_weight = 3;
  queue_normal_weight = 2;
  queue_low_weight = 1;
  require_https_callback = false;
}

first_differs : (s t : Str) → str_eq s t ≡ false → s ≢ t
first_differs s t e h = let k = (str_eq_iff s t).1 h in cc

stream_for_request-turns_example :
    turns ((stream_for_request streams [] (codes "b") []).0) (worker_stream_order streams)
    ≡ weight_of streams ((stream_for_request streams [] (codes "b") []).1)
stream_for_request-turns_example =
    stream_for_request-turns streams [] (codes "b") [] refl (omega arith) (
      first_differs (codes "s:high") (codes "s") refl,
      first_differs (codes "s:high") (codes "s:low") refl,
      first_differs (codes "s") (codes "s:low") refl,
    )

abbrev bodies : spacegate.AiService.Bodies.Config
bodies = record {
  object_store_endpoint = none;
  object_store_prefix = [];
  object_multipart_part_size = 0;
  max_body_bytes = 10;
  inline_threshold = 5;
}

abbrev asked_headers : List (Str × Option Str)
asked_headers =
    (codes "x-tenant-id", some (codes "b")) ∷ (codes "x-callback-url", some (codes "http://c")) ∷ []

abbrev crates : Codecs
crates = record {
  from_utf8 = λ b. some b;
  as_bytes = λ s. s;
  decode_base64 = λ s. ok s;
  encode_base64 = λ b. b;
  headers_from_str = λ s. some (header_texts asked_headers);
  fields_to_string = λ fs. ok (codes "headers");
  result_to_string = λ r. ok r.status;
  callback_to_string = λ r. ok r.status;
  parse_method = λ m. some m;
  debug = λ v. [];
}

abbrev service : Config
service = record { streams = streams; bodies = bodies }

abbrev met : Call
met = record {
  permit = ok tt;
  job_id = codes "j";
  now_ms = 7;
  elapsed_ms = 20;
  answers = record {
    initiate = err (internal []);
    upload_part = λ n. err (internal []);
    complete = err (internal []);
    abort = err (internal []);
  };
  xadd = ok (codes "1-0");
  trim = ok tt;
}

abbrev request : Request
request = record {
  path = codes "/v1";
  headers = asked_headers;
  body = ok (1 ∷ 2 ∷ []) ∷ ok (3 ∷ []) ∷ [];
}

abbrev no_entries : Queue
no_entries = record {
  objects = record {
    parts = [];
    objects = [];
    object_offload_total = 0;
    object_multipart_abort_total = 0;
  };
  entries = [];
  enqueue_total = 0;
  enqueue_priority_high_total = 0;
  enqueue_priority_normal_total = 0;
  enqueue_priority_low_total = 0;
  enqueue_queue_total = 0;
  enqueue_wait_total = 0;
  metrics = no_metrics;
}

abbrev jobs : spacegate.AiService.Jobs.Model.Config
jobs = record {
  upstream_base_url = some (codes "http://u/");
  consumer_name = codes "c";
  job_max_delivery_attempts = 1;
  result_key_prefix = codes "r:";
  result_channel_prefix = codes "d:";
  callback_retry_initial_delay_ms = 1000;
}

-- A worker with the object store of the service.
abbrev worker_of : Objects → spacegate.AiService.Jobs.Model.Met
worker_of w = record {
  now_ms = 5;
  elapsed_ms = 20;
  set_lease = ok tt;
  incr = ok tt;
  expire = ok tt;
  dlq_xadd = ok tt;
  dlq_trim = ok tt;
  xack = ok tt;
  del_lease = ok tt;
  del_attempt = ok tt;
  set_result = ok tt;
  publish = ok tt;
  retry_xadd = ok tt;
  retry_trim = ok tt;
  object = λ r. of_option (internal []) (get str_eq r w.objects);
  upstream = λ r. err [];
  post_callback = λ u r. ok tt;
}

abbrev worker : spacegate.AiService.Jobs.Model.Met
worker = worker_of ((enqueue_job crates service met queue request no_entries).0.objects)

enqueue_job-Enqueued_example :
    Enqueued crates service met request jobs worker
      (codes "http://u/")
      no_entries
      ((enqueue_job crates service met queue request no_entries).0)
      ((enqueue_job crates service met queue request no_entries).1)
enqueue_job-Enqueued_example =
    enqueue_job-Enqueued crates service met queue request jobs worker (codes "http://u/") no_entries
      (omega arith) (λ b. refl) (λ text e. refl) (λ r b e. rw (e) refl)
