-- ===== src/Tests/Poll.antt =====
-- Answers for the results of jobs, and their dates.
use spacegate.Common.{◌≡◌, refl, codes, some, [], ◌∷◌}
use spacegate.Common.Assoc.{get, put, remove}
use spacegate.Common.Parse.{decimal}
use spacegate.Common.Int.{pos, negsuc}
use spacegate.Common.Result.{ok, err}
use spacegate.AiService.Rules.{gateway_timeout}
use spacegate.AiService.Dates.{
  civil_from_days, format_completed_at_rfc3339, era_of, year_of_era, day_of_year, month_day, padded,
}
use spacegate.AiService.Dates.Calendar.{days_after}
use spacegate.AiService.Dates.Laws.{as_civil, civil_from_days-days_after}
use spacegate.AiService.Jobs.Model.{Met, Codecs, UpstreamRequest, UpstreamResponse}
use spacegate.AiService.Jobs.Fields.{
  field_string, field_bytes, load_body, should_forward_header, job_lease_key, job_attempt_key,
}
use spacegate.AiService.Jobs.Process.{
  process_stream_entry, take_job, deliver_job, finish_job, process_job, process_with, send_job,
  call_back, result_of, upstream_request,
}
use spacegate.AiService.Jobs.Commands.{
  acquire_job_lease, release_job_lease, increment_job_delivery_attempt, clear_job_delivery_attempt,
  ack_stream_entry, store_result,
}
use spacegate.AiService.Poll.{
  Crates, Answer, not_found, timed_out, get_job, load_result, job_answer, await_result,
  waited_answer,
}
use spacegate.AiService.Poll.Laws.{Polled, ReadsBack, get_job-Polled}
use spacegate.Tests.StoredText.{text_of, read_text, read-text_of}
use spacegate.Tests.Jobs.{crates, service, no_jobs, works, a_job}

civil_from_days-days_after_example : civil_from_days (pos 20000) ≡ as_civil (days_after 20000)
civil_from_days-days_after_example = civil_from_days-days_after 20000

new_year_2000 : format_completed_at_rfc3339 946684800123 ≡ codes "2000-01-01T00:00:00.123Z"
unfolding format_completed_at_rfc3339 civil_from_days era_of year_of_era day_of_year month_day
    padded decimal
new_year_2000 = refl

-- The day before the epoch, and one of the year 0.
before_1970 :
    (civil_from_days (negsuc 0) ≡ (pos 1969, 12, 31))
    × (civil_from_days (negsuc 719527) ≡ (pos 0, 1, 1))
    × (civil_from_days (negsuc 719528) ≡ (negsuc 0, 12, 31))
unfolding civil_from_days era_of year_of_era day_of_year month_day
before_1970 = (refl, refl, refl)

abbrev texts : Codecs
texts = record crates { result_to_string = λ r. ok (text_of r) }

abbrev http : Crates
http = record {
  result_from_str = read_text;
  header_name = λ s. some s;
  header_value = λ s. some s;
  status_from_u16 = λ n. some n;
  octets_headers = (codes "content-type", codes "application/octet-stream") ∷ [];
}

reads_back : ReadsBack http texts
reads_back = record {
  result_back = λ r text e. let same : text ≡ text_of r = cc in rw (same) (read-text_of r);
  base64_back = λ b. refl;
}

-- Of the two cookies the second one is left.
abbrev cookies : UpstreamResponse
cookies = record {
  status = 201;
  headers =
      (codes "set-cookie", codes "a=1")
      ∷ (codes "connection", codes "close")
      ∷ (codes "set-cookie", codes "b=2")
      ∷ [];
  body = 7 ∷ [];
}

abbrev answered : Met
answered = record works { upstream = λ r. ok cookies }

abbrev sent_request : UpstreamRequest
sent_request = upstream_request texts service answered (codes "http://u/") a_job []

get_job-Polled_example :
    (a : Answer) × (get_job http texts service
        (ok tt)
        ((process_stream_entry texts service answered (codes "s") (codes "1-0") a_job no_jobs).0)
        (codes "j")
      ≡ ok a)
    × Polled http texts service answered (codes "j") (ok cookies) a
unfolding process_stream_entry take_job deliver_job finish_job process_job process_with send_job
    call_back result_of upstream_request acquire_job_lease release_job_lease
    increment_job_delivery_attempt clear_job_delivery_attempt ack_stream_entry store_result
    field_string field_bytes load_body should_forward_header job_lease_key job_attempt_key get put
    remove
get_job-Polled_example =
    get_job-Polled http texts service answered (codes "j") (codes "s") (codes "1-0") a_job no_jobs
      sent_request reads_back refl refl (refl, ((refl, refl, (refl, refl, (refl, refl, tt))))) refl
      refl

-- A job without a result, and a wait for it that takes too long.
no_result :
    (get_job http texts service (ok tt) no_jobs (codes "j") ≡ ok (not_found (codes "j")))
    × ((await_result http texts service
          (ok tt)
          no_jobs
          no_jobs
          (codes "j")
          (codes "/v1/jobs/j")
          5
          6
          65
          (err (gateway_timeout []))
          (record { wait_total = 1; wait_timeout_total = 0 })).1
        ≡ ok (timed_out (codes "j") (codes "/v1/jobs/j") 60))
unfolding get_job load_result job_answer await_result waited_answer get
no_result = (refl, refl)
