-- ===== src/Tests/Jobs.antt =====
-- Jobs of the queue.
use spacegate.Common.{◌+◌, ◌-◌, ◌*◌, ◌≡◌, ◌≤◌, refl, arith, length, codes, some, List, [], ◌∷◌}
use spacegate.Common.Result.{Result, ok, err}
use spacegate.AiService.Metrics.Laws.{no_metrics}
use spacegate.AiService.Rules.{ServiceError, bad_request, sanitize_key, sanitize_code}
use spacegate.Common.Assoc.{get, put, remove}
use spacegate.Common.Parse.{decimal}
use spacegate.AiService.Jobs.Model.{string, Fields, Codecs, Config, World, Met}
use spacegate.AiService.Jobs.Fields.{
  field_string, field_bytes, load_body, stream_fields_to_json, should_forward_header, job_lease_key,
  job_attempt_key,
}
use spacegate.AiService.Jobs.Process.{
  process_stream_entry, take_job, deliver_job, finish_job, process_job, process_with, send_job,
  call_back, result_of, upstream_request,
}
use spacegate.AiService.Jobs.Commands.{
  acquire_job_lease, release_job_lease, increment_job_delivery_attempt, clear_job_delivery_attempt,
  ack_stream_entry, enqueue_job_dlq, store_result,
}
use spacegate.AiService.Jobs.Outcomes.{seen, Outcome, tries}
use spacegate.AiService.Jobs.Ran.{answer}
use spacegate.AiService.Jobs.Laws.{process_stream_entry-Outcome}
use spacegate.AiService.Jobs.Runs.{
  Event, delivered, lease_expired, attempts_expired, expiries, step, runs, runs-sent,
}
use spacegate.AiService.Jobs.Exhaust.{Buried, exhausted}

abbrev pub crates : Codecs
crates = record {
  from_utf8 = λ b. some b;
  as_bytes = λ s. s;
  decode_base64 = λ s. ok s;
  encode_base64 = λ b. b;
  headers_from_str = λ s. some [];
  fields_to_string = λ fs. ok (codes "fields");
  result_to_string = λ r. ok r.status;
  callback_to_string = λ r. ok r.status;
  parse_method = λ m. some m;
  debug = λ v. [];
}

abbrev pub service : Config
service = record {
  upstream_base_url = some (codes "http://u/");
  consumer_name = codes "c";
  job_max_delivery_attempts = 1;
  result_key_prefix = codes "r:";
  result_channel_prefix = codes "d:";
  callback_retry_initial_delay_ms = 1000;
}

abbrev pub no_jobs : World
no_jobs = record {
  leases = [];
  attempts = [];
  acked = [];
  dead = [];
  results = [];
  published = [];
  retries = [];
  sent = [];
  lease_skip_total = 0;
  job_dlq_total = 0;
  worker_completed_total = 0;
  callback_failure_total = 0;
  callback_retry_total = 0;
  metrics = no_metrics;
}

-- By what happens to the write of a result.
abbrev met_by : Result ServiceError (Unit {0}) → Met
met_by set = record {
  now_ms = 5;
  elapsed_ms = 20;
  set_lease = ok tt;
  incr = ok tt;
  expire = ok tt;
  dlq_xadd = ok tt;
  dlq_trim = ok tt;
  xack = ok tt;
  del_lease = ok tt;
  del_attempt = ok tt;
  set_result = set;
  publish = ok tt;
  retry_xadd = ok tt;
  retry_trim = ok tt;
  object = λ r. ok [];
  upstream = λ r. ok (record { status = 200; headers = []; body = [] });
  post_callback = λ u r. ok tt;
}

abbrev pub works : Met
works = met_by (ok tt)

abbrev fails : Met
fails = met_by (err (bad_request (codes "no memory")))

abbrev pub a_job : Fields
a_job = (codes "job_id", string (codes "j")) ∷ (codes "path", string (codes "/v1")) ∷ []

process_stream_entry-Outcome_example :
    Outcome
      (codes "j")
      (codes "s")
      (codes "1-0")
      1
      (codes "r:j")
      (answer crates service works (codes "j"))
      (seen no_jobs)
      (seen ((process_stream_entry crates service works (codes "s") (codes "1-0") a_job no_jobs).0))
unfolding field_string get
process_stream_entry-Outcome_example =
    process_stream_entry-Outcome crates service works (codes "j") (codes "s") (codes "1-0") a_job
      no_jobs refl

abbrev deliveries : List Event
deliveries =
    delivered fails (codes "s") (codes "1-0") a_job
    ∷ lease_expired (codes "j")
    ∷ delivered fails (codes "s") (codes "1-0") a_job
    ∷ []

-- Between the two deliveries the lease ends, and so does the count: the request is sent twice.
abbrev forgotten_deliveries : List Event
forgotten_deliveries =
    delivered fails (codes "s") (codes "1-0") a_job
    ∷ lease_expired (codes "j")
    ∷ attempts_expired (codes "j")
    ∷ delivered fails (codes "s") (codes "1-0") a_job
    ∷ []

runs-sent_example :
    length ((runs crates service forgotten_deliveries no_jobs).sent)
    ≤ 0 + (1 - tries (codes "j") (seen no_jobs)) + expiries crates service forgotten_deliveries * 1
unfolding field_string get runs process_stream_entry acquire_job_lease take_job
    increment_job_delivery_attempt deliver_job finish_job process_job load_body send_job remove
    store_result release_job_lease put job_lease_key sanitize_key job_attempt_key
runs-sent_example =
    runs-sent crates service (codes "j") forgotten_deliveries no_jobs (refl, (tt, (tt, (refl, tt))))
      (omega arith) refl

sent_twice : length ((runs crates service forgotten_deliveries no_jobs).sent) ≡ 2
unfolding runs step process_stream_entry take_job deliver_job finish_job process_job process_with
    send_job call_back result_of upstream_request acquire_job_lease release_job_lease
    increment_job_delivery_attempt clear_job_delivery_attempt ack_stream_entry enqueue_job_dlq
    store_result field_string field_bytes load_body stream_fields_to_json should_forward_header
    job_lease_key job_attempt_key sanitize_key sanitize_code get put remove decimal
sent_twice = refl

-- A job whose body is in the object store, without a reference.
abbrev no_ref : Fields
no_ref = (codes "job_id", string (codes "j")) ∷ (codes "storage", string (codes "object")) ∷ []

exhausted_example :
    Buried crates service fails
      (codes "j")
      (codes "s")
      (codes "1-0")
      no_ref
      (codes "fields")
      no_jobs
      (runs crates service
        (spacegate.AiService.Jobs.Exhaust.deliveries crates service fails
          (codes "j")
          (codes "s")
          (codes "1-0")
          no_ref
          2)
        no_jobs)
unfolding field_string get load_body stream_fields_to_json
exhausted_example =
    exhausted crates service fails (codes "j") (codes "s") (codes "1-0") no_ref 1 no_jobs
      (bad_request (codes "job body is missing object ref")) (codes "fields") refl refl refl
      (omega arith) refl refl

-- The second delivery is above the bound: the request was sent once, and the entry is done with.
buried_then :
    let w = runs crates service deliveries no_jobs in
    (length w.sent ≡ 1) × (w.acked ≡ (codes "s", codes "1-0") ∷ [])
unfolding runs step process_stream_entry take_job deliver_job finish_job process_job process_with
    send_job call_back result_of upstream_request acquire_job_lease release_job_lease
    increment_job_delivery_attempt clear_job_delivery_attempt ack_stream_entry enqueue_job_dlq
    store_result field_string field_bytes load_body stream_fields_to_json should_forward_header
    job_lease_key job_attempt_key sanitize_key sanitize_code get put remove decimal
buried_then = (refl, refl)

-- A worker whose lease has ended deletes the lease of the next one.
abbrev leased_again : World
leased_again = record no_jobs { leases = (codes "ai:job:lease:j", codes "second") ∷ [] }

other_lease_deleted :
    (release_job_lease crates service works (codes "j") leased_again).0.leases ≡ []
unfolding release_job_lease remove job_lease_key sanitize_key
other_lease_deleted = refl
