-- ===== src/Tests/Callback.antt =====
-- Callback retries at concrete entries.
use spacegate.Common.{Str, codes, true, false, none, some, [], arith}
use spacegate.Callback.Exhaust.{exhaust, IsExhausted, exhaust-dead}
use spacegate.Callback.{Retry, Fields, World, Config, Outcomes, process_callback_retry_entry}
use spacegate.Callback.Laws.{Kept, process_callback_retry_entry-Kept}

abbrev usual : Config
usual = record { initial_delay_ms = 1000; max_delay_ms = 60000; max_retry_attempts = 5 }

abbrev ack_fails : Outcomes
ack_fails = record { xadd = true; trim = true; xack = false }

abbrev empty_world : World
empty_world = record {
  retries = [];
  dead = [];
  acked = [];
  retry_total = 0;
  success_total = 0;
  dlq_total = 0;
}

abbrev third : Fields
third = record {
  job_id = some (codes "job");
  callback_url = some (codes "https://example.com");
  body = none;
  attempt = some 3;
  next_attempt_at_ms = some 10;
  last_error = none;
}

abbrev same : Str → Str
same s = s

process_callback_retry_entry-Kept_example :
    Kept (some (codes "timeout")) (codes "job") (codes "1-0") empty_world (
      process_callback_retry_entry same same usual ack_fails 20
        (some (codes "timeout"))
        (codes "1-0")
        third
        empty_world)
process_callback_retry_entry-Kept_example =
    process_callback_retry_entry-Kept same same usual ack_fails 20 (some (codes "timeout"))
      (codes "1-0") third empty_world

abbrev first_retry : Retry
first_retry = record {
  job_id = codes "job";
  callback_url = codes "https://example.com";
  body = codes "{}";
  attempt = 1;
  next_attempt_at_ms = 10;
  last_error = [];
}

exhaust-dead_example :
    IsExhausted same same usual
      (codes "timeout")
      (codes "1-0")
      first_retry
      empty_world
      (exhaust same same usual (codes "timeout") (codes "1-0") 5 first_retry empty_world)
exhaust-dead_example =
    exhaust-dead same same usual (codes "timeout") (codes "1-0") 5 first_retry empty_world
      (omega arith) (omega arith)
