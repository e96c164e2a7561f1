-- ===== src/AiService/Jobs/Commands.antt =====
-- The commands that a run sends to Redis, in binary/ai-gateway-service/src/app/queue.rs, callback.rs
-- and result_store.rs.
use spacegate.Common.{
  ℕ, ◌+◌, ◌%◌, ◌^◌, Str, codes, str_eq, Bool, true, false, none, some, [], ◌∷◌, ◌++◌,
}
use spacegate.Common.Assoc.{get, put, remove}
use spacegate.Callback.{Retry}
use spacegate.AiService.Metrics.{add}
use spacegate.AiService.Effects.{M, ◌>>=◌, ◌>>◌, pure, lift, command, change, ignoring}
use spacegate.AiService.Jobs.Model.{Fields, StoredResult, Codecs, Config, World, Met}
use spacegate.AiService.Jobs.Fields.{
  unwrap_or, job_lease_key, job_attempt_key, field_string, stream_fields_to_json,
}

module _ (c : Codecs) (cfg : Config) (met : Met) where
  -- `SET NX`: whether the key was free.
  unfoldable pub acquire_job_lease : Str → Str → M World Bool
  acquire_job_lease job_id owner = command met.set_lease λ w.
      elim (get str_eq (job_lease_key job_id) w.leases) [
        | some holder ↦ (w, false)
        | none ↦ (record w { leases = put str_eq (job_lease_key job_id) owner w.leases }, true)
      ]

  unfoldable pub release_job_lease : Str → M World (Unit {0})
  release_job_lease job_id = ignoring (
      command met.del_lease
        λ w. (record w { leases = remove str_eq (job_lease_key job_id) w.leases }, tt))

  -- The count as an `i64`, cast to a `u32`.
  unfoldable pub increment_job_delivery_attempt : Str → M World ℕ
  increment_job_delivery_attempt job_id = do
    attempt ← command met.incr λ w.
        (let n = unwrap_or 0 (get str_eq (job_attempt_key job_id) w.attempts) + 1 in
          (record w { attempts = put str_eq (job_attempt_key job_id) n w.attempts }, n))
    lift met.expire
    pure (attempt % 2 ^ 32)

  unfoldable pub clear_job_delivery_attempt : Str → M World (Unit {0})
  clear_job_delivery_attempt job_id = ignoring (
      command met.del_attempt
        λ w. (record w { attempts = remove str_eq (job_attempt_key job_id) w.attempts }, tt))

  unfoldable pub ack_stream_entry : Str → Str → M World (Unit {0})
  ack_stream_entry stream entry_id =
      command met.xack λ w. (record w { acked = (stream, entry_id) ∷ w.acked }, tt)

  unfoldable pub enqueue_job_dlq : Str → Str → Fields → ℕ → Str → M World (Unit {0})
  enqueue_job_dlq stream entry_id fields attempts reason = do
    text ← lift (stream_fields_to_json c fields)
    command met.dlq_xadd λ w. (
      record w {
        dead =
            record {
              job_id = unwrap_or [] (field_string c fields (codes "job_id"));
              source_stream = stream;
              source_entry_id = entry_id;
              attempts = attempts;
              reason = reason;
              fields = text;
            }
            ∷ w.dead;
      },
      tt,
    )
    lift met.dlq_trim

  unfoldable pub store_result : StoredResult → M World (Unit {0})
  store_result result = do
    json ← lift (c.result_to_string result)
    command met.set_result λ w. (
      record w { results = put str_eq (cfg.result_key_prefix ++ result.job_id) json w.results },
      tt,
    )
    command met.publish λ w.
        (record w { published = (cfg.result_channel_prefix ++ result.job_id) ∷ w.published }, tt)

  unfoldable pub enqueue_callback_retry : Str → StoredResult → Str → M World (Unit {0})
  enqueue_callback_retry callback_url result last_error = do
    body ← lift (c.callback_to_string result)
    command met.retry_xadd λ w. (
      record w {
        retries =
            record {
              job_id = result.job_id;
              callback_url = callback_url;
              body = body;
              attempt = 1;
              next_attempt_at_ms =
                  spacegate.Callback.saturating_add spacegate.Callback.u64_max met.now_ms
                    cfg.callback_retry_initial_delay_ms;
              last_error = last_error;
            }
            ∷ w.retries;
      },
      tt,
    )
    lift met.retry_trim
    change λ w. record w { callback_retry_total = add w.callback_retry_total 1 }
