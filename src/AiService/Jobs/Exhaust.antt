-- ===== src/AiService/Jobs/Exhaust.antt =====
-- A job that cannot be processed, with Redis at work.
use mathlib.Core.Path.{subst}
use spacegate.Common.{
  ℕ, zero, suc, replicate, ◌+◌, ◌%◌, ◌^◌, ◌<◌, ltb, ◌≡◌, refl, sym, ap, ◌∙◌, Str, codes, str_eq,
  str_eq_iff, str_eq_refl, false, true, some, none, Option, List, ◌∷◌, ◌++◌, arith,
}
use spacegate.Common.Assoc.{get, put, remove, get-put, get-remove}
use spacegate.Common.Parse.{decimal}
use spacegate.Common.Result.{ok, err}
use spacegate.AiService.Rules.{ServiceError, internal}
use spacegate.AiService.Effects.{◌>>=◌, ◌>>◌, lift, command}
use spacegate.AiService.Metrics.{observe_worker_processing}
use spacegate.AiService.Jobs.Model.{Fields, Codecs, Config, World, Met, DeadJob}
use spacegate.AiService.Jobs.Fields.{
  unwrap_or, field_string, job_lease_key, job_attempt_key, load_body, stream_fields_to_json,
}
use spacegate.AiService.Jobs.Commands.{
  acquire_job_lease, release_job_lease, increment_job_delivery_attempt, ack_stream_entry,
  enqueue_job_dlq,
}
use spacegate.AiService.Jobs.Process.{
  process_with, process_job, timed, finish_job, deliver_job, take_job, process_stream_entry,
}
use spacegate.AiService.Jobs.Outcomes.{seen, tries}
use spacegate.AiService.Jobs.Runs.{Event, delivered, step, runs}

-- Every command works.
abbrev pub working : Met → Met
working met = record met {
  set_lease = ok tt;
  incr = ok tt;
  expire = ok tt;
  dlq_xadd = ok tt;
  dlq_trim = ok tt;
  xack = ok tt;
  del_lease = ok tt;
}

module _ (c : Codecs) (cfg : Config) (met : Met) (job stream entry : Str) (fields : Fields) where
  process_with-fails :
      (base : Option Str) (e : ServiceError) (w : World)
      → load_body c (working met) fields ≡ err e
      → (x : ServiceError) × (process_with c cfg (working met) base (some job) fields w
          ≡ (w, err x))
  unfolding process_with
  process_with-fails none e w l = (internal (codes "upstream base URL is not configured"), refl)
  process_with-fails (some base) e w l = (e, rw (process_with, ◌>>=◌, lift, l) refl)

  process_job-fails :
      (e : ServiceError) (w : World)
      → field_string c fields (codes "job_id") ≡ some job
      → load_body c (working met) fields ≡ err e
      → (x : ServiceError) × (process_job c cfg (working met) fields w ≡ (w, err x))
  unfolding process_job
  process_job-fails e w j l =
      let (x, p) = process_with-fails cfg.upstream_base_url e w l in (x, rw (process_job, j) p)

  abbrev owner : Str
  owner = cfg.consumer_name ++ b':' ∷ stream ++ b':' ∷ entry ++ b':' ∷ decimal met.now_ms

  -- Behind the lease and the count.
  abbrev taken : World → World
  taken w = record w {
    leases = put str_eq (job_lease_key job) owner w.leases;
    attempts = put str_eq (job_attempt_key job) (tries job (seen w) + 1) w.attempts;
  }

  -- Behind a run that fails.
  abbrev failed : World → World
  failed w = record (taken w) {
    leases = remove str_eq (job_lease_key job) (taken w).leases;
    metrics =
        observe_worker_processing met.elapsed_ms
          (unwrap_or (codes "default") (field_string c fields (codes "model"))) w.metrics;
  }

  process_stream_entry-taken :
      (w : World)
      → field_string c fields (codes "job_id") ≡ some job
      → get str_eq (job_lease_key job) w.leases ≡ none
      → process_stream_entry c cfg (working met) stream entry fields w
        ≡ deliver_job c cfg
            (working met)
            stream
            entry
            fields
            job
            ((tries job (seen w) + 1) % 2 ^ 32)
            (taken w)
  unfolding process_stream_entry take_job acquire_job_lease increment_job_delivery_attempt
  process_stream_entry-taken w j free =
      rw (process_stream_entry, j, acquire_job_lease, ◌>>=◌, command, free) refl

  finish_job-failed :
      (model : Str) (w : World) (x : ServiceError)
      → (finish_job c cfg
          (working met)
          stream
          entry
          job
          (timed c cfg (working met) model (w, err x))).0
        ≡ record w {
          leases = remove str_eq (job_lease_key job) w.leases;
          metrics = observe_worker_processing met.elapsed_ms model w.metrics;
        }
  unfolding finish_job timed release_job_lease
  finish_job-failed model w x = refl

  deliver_job-failed :
      (w : World) (n : ℕ) (e : ServiceError)
      → field_string c fields (codes "job_id") ≡ some job
      → load_body c (working met) fields ≡ err e
      → ltb cfg.job_max_delivery_attempts n ≡ false
      → (deliver_job c cfg (working met) stream entry fields job n (taken w)).0 ≡ failed w
  unfolding deliver_job
  deliver_job-failed w n e j l few =
      let model = unwrap_or (codes "default") (field_string c fields (codes "model")) in
      let (x, p) = process_job-fails e (taken w) j l in
      rw (deliver_job, few)
        (ap
            (λ q.
              (finish_job c cfg (working met) stream entry job
                (timed c cfg (working met) model q)).0)
            p
          ∙ finish_job-failed model (taken w) x)

  abbrev letter : ℕ → Str → DeadJob
  letter n text = record {
    job_id = job;
    source_stream = stream;
    source_entry_id = entry;
    attempts = n;
    reason = codes "max_delivery_attempts_exceeded";
    fields = text;
  }

  enqueue_job_dlq-letter :
      (w : World) (n : ℕ) (text : Str)
      → field_string c fields (codes "job_id") ≡ some job
      → stream_fields_to_json c fields ≡ ok text
      → enqueue_job_dlq c cfg
          (working met)
          stream
          entry
          fields
          n
          (codes "max_delivery_attempts_exceeded")
          w
        ≡ (record w { dead = letter n text ∷ w.dead }, ok tt)
  unfolding enqueue_job_dlq
  enqueue_job_dlq-letter w n text j t = rw (enqueue_job_dlq, t, j) refl

  deliver_job-buried :
      (w : World) (n : ℕ) (text : Str)
      → field_string c fields (codes "job_id") ≡ some job
      → stream_fields_to_json c fields ≡ ok text
      → ltb cfg.job_max_delivery_attempts n ≡ true
      → (((deliver_job c cfg (working met) stream entry fields job n w).0).acked
          ≡ (stream, entry) ∷ w.acked)
        × (((deliver_job c cfg (working met) stream entry fields job n w).0).sent ≡ w.sent)
        × (((deliver_job c cfg (working met) stream entry fields job n w).0).dead
            ≡ letter n text ∷ w.dead)
  unfolding deliver_job ack_stream_entry release_job_lease
  deliver_job-buried w n text j t many =
      let e = enqueue_job_dlq-letter w n text j t in
      rw (deliver_job, many, ◌>>◌, ◌>>=◌, ap (λ q. q.1) e, ap (λ q. q.0) e) (refl, refl, refl)

  abbrev Free : World → Type 0
  Free w = get str_eq (job_lease_key job) w.leases ≡ none

  -- The entry, read so often.
  abbrev pub deliveries : ℕ → List Event
  deliveries n = replicate n (delivered (working met) stream entry fields)

  failed-Free : (w : World) → Free (failed w)
  failed-Free w =
      get-remove str_eq str_eq_iff (job_lease_key job) (job_lease_key job)
        (put str_eq (job_lease_key job) owner w.leases)
      ∙ rw (str_eq_refl (job_lease_key job)) refl

  failed-tries : (w : World) → tries job (seen (failed w)) ≡ tries job (seen w) + 1
  failed-tries w =
      rw
        (
          get-put str_eq str_eq_iff (job_attempt_key job) (job_attempt_key job)
              (tries job (seen w) + 1) w.attempts,
          str_eq_refl (job_attempt_key job),
        )
        refl

  -- The job's end: no request was sent, and the letter has one attempt more than the bound.
  abbrev pub Buried : Str → World → World → Type 0
  Buried text w w' =
      (w'.acked ≡ (stream, entry) ∷ w.acked)
      × (w'.sent ≡ w.sent)
      × (w'.dead ≡ letter (cfg.job_max_delivery_attempts + 1) text ∷ w.dead)

  -- Where every command on leases, counts, acknowledgements and dead letters works, the body of a
  -- job's entry cannot be loaded, its fields can be written as JSON, nobody holds the job's lease,
  -- the bound of attempts is below 2^32 - 1 and n is what the job's attempts lack of it: after n +
  -- 1 deliveries of the entry one behind the other, it is acknowledged once, no request was sent,
  -- and there is one more dead letter, with the job, the entry, the reason, the JSON and one
  -- attempt more than the bound.
  pub exhausted :
      (n : ℕ) (w : World) (e : ServiceError) (text : Str)
      → field_string c fields (codes "job_id") ≡ some job
      → load_body c (working met) fields ≡ err e
      → stream_fields_to_json c fields ≡ ok text
      → cfg.job_max_delivery_attempts + 1 < 2 ^ 32
      → Free w
      → tries job (seen w) + n ≡ cfg.job_max_delivery_attempts
      → Buried text w (runs c cfg (deliveries (suc n)) w)
  unfolding runs step
  exhausted zero w e text j l t few free sum =
      let n = (tries job (seen w) + 1) % 2 ^ 32 in
      let last : n ≡ cfg.job_max_delivery_attempts + 1 = ground arith in
      let (a, s, d) = deliver_job-buried (taken w) n text j t (ground arith) in
      let taken_lem = process_stream_entry-taken w j free in
      (
        ap (λ q. q.0.acked) taken_lem ∙ a,
        ap (λ q. q.0.sent) taken_lem ∙ s,
        ap (λ q. q.0.dead) taken_lem ∙ d ∙ ap (λ k. letter k text ∷ w.dead) last,
      )
  exhausted (suc n) w e text j l t few free sum =
      let count = (tries job (seen w) + 1) % 2 ^ 32 in
      let once : (process_stream_entry c cfg (working met) stream entry fields w).0 ≡ failed w =
        ap (λ q. q.0) (process_stream_entry-taken w j free)
        ∙ deliver_job-failed w count e j l (ground arith) in
      subst (λ z. Buried text w (runs c cfg (deliveries (suc n)) z)) (sym once)
        (exhausted n (failed w) e text j l t few (failed-Free w) (rw (failed-tries w) omega arith))
