-- ===== src/AiService/Jobs/Laws.antt =====
-- What a run of an entry leaves behind.
use mathlib.Core.Path.{subst}
use spacegate.Common.{
  ℕ, ◌+◌, ◌%◌, ◌^◌, ltb, ◌≡◌, sym, ap, ◌∙◌, Str, codes, str_eq, str_eq_iff, str_eq_refl, Bool, true,
  false, some, List, ◌∷◌, ◌++◌, Bool-cases, inl, inr,
}
use spacegate.Common.Parse.{decimal}
use spacegate.Common.Assoc.{get, put, get-put}
use spacegate.Common.Result.{Result, ok, err, Result-cases}
use spacegate.AiService.Rules.{ServiceError}
use spacegate.AiService.Effects.{◌>>=◌, ◌>>◌}
use spacegate.AiService.Jobs.Model.{Fields, DeadJob, Codecs, Config, World, Met}
use spacegate.AiService.Jobs.Fields.{unwrap_or, job_attempt_key, field_string}
use spacegate.AiService.Jobs.Commands.{
  acquire_job_lease, increment_job_delivery_attempt, clear_job_delivery_attempt, ack_stream_entry,
  enqueue_job_dlq,
}
use spacegate.AiService.Jobs.Process.{
  process_job, timed, finish_job, deliver_job, take_job, process_stream_entry,
}
use spacegate.AiService.Jobs.Outcomes.{
  Seen, seen, tries, Outcome, idle, IsLetter, IsStored, counted, lettered, tried, completed, buried,
}
use spacegate.AiService.Jobs.Ran.{Ran, answer, process_job-Ran}
use spacegate.AiService.Jobs.Steps.{
  Lettered, release_lem, clear_lem, ack_lem, acquire_lem, counted_up, increment_lem, dlq_lem,
}

module _ (c : Codecs) (cfg : Config) (met : Met) (job stream entry : Str) where
  abbrev Leads : Seen → Seen → Type 0
  Leads s s' =
      Outcome job stream entry cfg.job_max_delivery_attempts (cfg.result_key_prefix ++ job)
        (answer c cfg met job) s s'

  -- Behind the count.
  record IsCounted (s : Seen) (w : World) : Type 0 where
    acked : w.acked ≡ s.acked
    sent : w.sent ≡ s.sent
    results : w.results ≡ s.results
    dead : w.dead ≡ s.dead
    tries_one_more : tries job (seen w) ≡ tries job s + 1

  tries_ap :
      (l m : List (Str × ℕ))
      → l ≡ m
      → unwrap_or 0 (get str_eq (job_attempt_key job) l)
        ≡ unwrap_or 0 (get str_eq (job_attempt_key job) m)
  tries_ap l m e = ap (λ l. unwrap_or 0 (get str_eq (job_attempt_key job) l)) e

  IsStored-before :
      (key : Str) (a : Result ServiceError Str) (before before' after : List (Str × Str))
      → before ≡ before'
      → IsStored key a before after
      → IsStored key a before' after
  IsStored-before key a before before' after e (json, text, results) =
      (json, text, results ∙ ap (put str_eq key json) e)

  finish_job-Outcome :
      (s : Seen) (w w' : World) (r : Result ServiceError (Unit {0}))
      → IsCounted s w
      → ltb cfg.job_max_delivery_attempts ((tries job s + 1) % 2 ^ 32) ≡ false
      → Ran c cfg met job (seen w) w' r
      → Leads s (seen ((finish_job c cfg met stream entry job (w', r)).0))
  unfolding finish_job
  finish_job-Outcome s w w' (err e) k few ((acked, attempts, dead), sent) =
      let (released, same) = release_lem c cfg met job w' in
      let more : tries job (seen w') ≡ tries job s + 1 =
        tries_ap w'.attempts w.attempts attempts ∙ k.tries_one_more in
      rw (finish_job, ◌>>◌, ◌>>=◌, released)
        (subst (Leads s) (sym same) (elim sent [
          | inl (none_sent, results) ↦
              counted (acked ∙ k.acked) (none_sent ∙ k.sent) (results ∙ k.results) (dead ∙ k.dead)
                more
          | inr (r, e', results) ↦
              tried r (acked ∙ k.acked) (e' ∙ ap (λ l. (job, r) ∷ l) k.sent)
                (elim results [
                  | inl kept ↦ inl (kept ∙ k.results)
                  | inr stored ↦ inr (IsStored-before _ _ _ _ _ k.results stored)
                ])
                (dead ∙ k.dead) more few
        ]))
  finish_job-Outcome s w w' (ok done) k few ((acked, attempts, dead), (r, sent, stored)) =
      let more : tries job (seen w') ≡ tries job s + 1 =
        tries_ap w'.attempts w.attempts attempts ∙ k.tries_one_more in
      let sent' = sent ∙ ap (λ l. (job, r) ∷ l) k.sent in
      let (json, text, results) = IsStored-before _ _ _ _ _ k.results stored in
      let w₁ = (ack_stream_entry c cfg met stream entry w').0 in
      let w₂ = (clear_job_delivery_attempt c cfg met job w₁).0 in
      let was_acked = ack_lem c cfg met stream entry w' in
      let (cleared, a, t, f, d) = clear_lem c cfg met job w₁ in
      let (released, same) = release_lem c cfg met job w₂ in
      elim (Result-cases ((ack_stream_entry c cfg met stream entry w').1)) [
        | inr (_, x) ↦
            let same₁ = rw x at was_acked in
            rw (finish_job, ◌>>◌, ◌>>=◌, x)
              (subst (Leads s) (sym same₁) (
                tried r (acked ∙ k.acked) sent' (inr (json, text, results)) (dead ∙ k.dead) more
                  few))
        | inl (_, x) ↦
            let same₁ = rw x at was_acked in
            rw (finish_job, ◌>>◌, ◌>>=◌, x, cleared, released)
              (subst (Leads s) (sym same) (
                completed r
                  (a ∙ ap (λ z. z.acked) same₁ ∙ ap (λ l. (stream, entry) ∷ l) (acked ∙ k.acked))
                  (t ∙ ap (λ z. z.sent) same₁ ∙ sent')
                  (json, text, f ∙ ap (λ z. z.results) same₁ ∙ results)
                  (d ∙ ap (λ z. z.dead) same₁ ∙ dead ∙ k.dead) few))
      ]

  Ran-timed :
      (s : Seen) (model : Str) (p : World × Result ServiceError (Unit {0}))
      → Ran c cfg met job s (p.0) (p.1)
      → Ran c cfg met job s ((timed c cfg met model p).0) ((timed c cfg met model p).1)
  unfolding timed
  Ran-timed s model (w, ok done) h = h
  Ran-timed s model (w, err e) h = h

  Lettered-IsLetter :
      (before n : ℕ)
      → n ≡ (before + 1) % 2 ^ 32
      → ltb cfg.job_max_delivery_attempts n ≡ true
      → (d : DeadJob)
      → (d.job_id ≡ job)
        × (d.source_stream ≡ stream)
        × (d.source_entry_id ≡ entry)
        × (d.attempts ≡ n)
      → IsLetter job stream entry cfg.job_max_delivery_attempts before d
  Lettered-IsLetter before n e many d (i, f, g, q) =
      (i, f, g, q ∙ e, ap (ltb cfg.job_max_delivery_attempts) q ∙ many)

  -- A letter that was written, with the entry left pending.
  Lettered-Leads :
      (s : Seen) (w w' : World) (n : ℕ)
      → IsCounted s w
      → n ≡ (tries job s + 1) % 2 ^ 32
      → ltb cfg.job_max_delivery_attempts n ≡ true
      → Lettered c cfg met job stream entry n w w'
      → Leads s (seen w')
  Lettered-Leads s w w' n k e many (d, b, i, f, g, q) =
      lettered d (ap (λ z. z.acked) b ∙ k.acked) (ap (λ z. z.sent) b ∙ k.sent)
        (ap (λ z. z.results) b ∙ k.results) (ap (λ z. z.dead) b ∙ ap (λ l. d ∷ l) k.dead)
        (ap (tries job) b ∙ k.tries_one_more)
        (Lettered-IsLetter (tries job s) n e many d (i, f, g, q))

  deliver_job-Outcome :
      (fields : Fields) (s : Seen) (w : World) (n : ℕ)
      → field_string c fields (codes "job_id") ≡ some job
      → IsCounted s w
      → n ≡ (tries job s + 1) % 2 ^ 32
      → Leads s (seen ((deliver_job c cfg met stream entry fields job n w).0))
  unfolding deliver_job
  deliver_job-Outcome fields s w n j k e =
      let model = unwrap_or (codes "default") (field_string c fields (codes "model")) in
      let reason = codes "max_delivery_attempts_exceeded" in
      let w₁ = (enqueue_job_dlq c cfg met stream entry fields n reason w).0 in
      let w₂ = (ack_stream_entry c cfg met stream entry w₁).0 in
      let was_buried = dlq_lem c cfg met job stream entry fields n reason w j in
      let was_acked = ack_lem c cfg met stream entry w₁ in
      let (released, same) = release_lem c cfg met job w₂ in
      elim (Bool-cases (ltb cfg.job_max_delivery_attempts n)) [
        | inr few ↦
            rw (deliver_job, few)
              (finish_job-Outcome s w ((timed c cfg met model (process_job c cfg met fields w)).0)
                ((timed c cfg met model (process_job c cfg met fields w)).1) k
                (sym (ap (ltb cfg.job_max_delivery_attempts) e) ∙ few)
                (Ran-timed (seen w) model (process_job c cfg met fields w)
                  (process_job-Ran c cfg met fields job w j)))
        | inl many ↦
            elim (Result-cases ((enqueue_job_dlq c cfg met stream entry fields n reason w).1)) [
              | inr (_, x) ↦ elim (rw x at was_buried) [
                | inl b ↦
                    rw (deliver_job, many, ◌>>◌, ◌>>=◌, x)
                      (counted (ap (λ z. z.acked) b ∙ k.acked) (ap (λ z. z.sent) b ∙ k.sent)
                        (ap (λ z. z.results) b ∙ k.results) (ap (λ z. z.dead) b ∙ k.dead)
                        (ap (tries job) b ∙ k.tries_one_more))
                | inr l ↦
                    rw (deliver_job, many, ◌>>◌, ◌>>=◌, x) (Lettered-Leads s w w₁ n k e many l)
              ]
              | inl (_, x) ↦
                  let l = rw x at was_buried in
                  elim (Result-cases ((ack_stream_entry c cfg met stream entry w₁).1)) [
                    | inr (_, y) ↦
                        let same₁ = rw y at was_acked in
                        rw (deliver_job, many, ◌>>◌, ◌>>=◌, x, y)
                          (subst (Leads s) (sym same₁) (Lettered-Leads s w w₁ n k e many l))
                    | inl (_, y) ↦
                        let same₁ = same ∙ (rw y at was_acked) in
                        let (d, b, i, f, g, q) = l in
                        rw (deliver_job, many, ◌>>◌, ◌>>=◌, x, y, released)
                          (buried d
                            (ap (λ z. z.acked) same₁
                              ∙ ap (λ l. (stream, entry) ∷ l) (ap (λ z. z.acked) b ∙ k.acked))
                            (ap (λ z. z.sent) same₁ ∙ ap (λ z. z.sent) b ∙ k.sent)
                            (ap (λ z. z.results) same₁ ∙ ap (λ z. z.results) b ∙ k.results)
                            (ap (λ z. z.dead) same₁ ∙ ap (λ z. z.dead) b ∙ ap (λ l. d ∷ l) k.dead)
                            (Lettered-IsLetter (tries job s) n e many d (i, f, g, q)))
                  ]
            ]
      ]

  -- Behind the lease.
  take_job-Outcome :
      (fields : Fields) (s : Seen) (w : World) (acquired : Bool)
      → field_string c fields (codes "job_id") ≡ some job
      → seen w ≡ s
      → Leads s (seen ((take_job c cfg met stream entry fields job acquired w).0))
  unfolding take_job
  take_job-Outcome fields s w false j same = idle same
  take_job-Outcome fields s w true j same =
      let w₁ = (increment_job_delivery_attempt c cfg met job w).0 in
      let was_counted = increment_lem c cfg met job w in
      let one_more : tries job (counted_up job (seen w)) ≡ tries job s + 1 =
        rw
          (
            get-put str_eq str_eq_iff (job_attempt_key job) (job_attempt_key job)
                (tries job (seen w) + 1) w.attempts,
            str_eq_refl (job_attempt_key job),
          )
          (ap (λ z. tries job z + 1) same) in
      elim (Result-cases ((increment_job_delivery_attempt c cfg met job w).1)) [
        | inr (_, x) ↦
            rw (take_job, ◌>>=◌, x)
              (elim (rw x at was_counted) [
                | inl nothing ↦ idle (nothing ∙ same)
                | inr up ↦
                    counted (ap (λ z. z.acked) (up ∙ ap (counted_up job) same))
                      (ap (λ z. z.sent) (up ∙ ap (counted_up job) same))
                      (ap (λ z. z.results) (up ∙ ap (counted_up job) same))
                      (ap (λ z. z.dead) (up ∙ ap (counted_up job) same))
                      (ap (tries job) up ∙ one_more)
              ])
        | inl (n, x) ↦
            let (count, up) = rw x at was_counted in
            let grown = up ∙ ap (counted_up job) same in
            rw (take_job, ◌>>=◌, x)
              (deliver_job-Outcome fields s w₁ n j
                (record {
                  acked = ap (λ z. z.acked) grown;
                  sent = ap (λ z. z.sent) grown;
                  results = ap (λ z. z.results) grown;
                  dead = ap (λ z. z.dead) grown;
                  tries_one_more = ap (tries job) up ∙ one_more;
                })
                (count ∙ ap (λ z. (tries job z + 1) % 2 ^ 32) same))
      ]

  -- For an entry with a job's id, whatever commands fail, one run does one of these, and nothing
  -- else to what is acknowledged, sent, stored and dead: nothing, not even to the counts; one more
  -- attempt of the job is counted; the attempt is counted, is above the bound, and a dead letter
  -- is written with the entry left pending; the attempt is counted, is within the bound, and the
  -- request is sent once, with the entry left pending and the text of the result for its answer
  -- stored under the job's key or not; within the bound the request is sent once, that text is
  -- stored and the entry is acknowledged; or above the bound a dead letter is written and the
  -- entry is acknowledged. A dead letter has the job, the stream, the entry and the number of the
  -- attempt.
  pub process_stream_entry-Outcome :
      (fields : Fields) (w : World)
      → field_string c fields (codes "job_id") ≡ some job
      → Outcome job stream entry cfg.job_max_delivery_attempts
          (cfg.result_key_prefix ++ job)
          (answer c cfg met job)
          (seen w)
          (seen ((process_stream_entry c cfg met stream entry fields w).0))
  unfolding process_stream_entry
  process_stream_entry-Outcome fields w j =
      let owner = cfg.consumer_name ++ b':' ∷ stream ++ b':' ∷ entry ++ b':' ∷ decimal met.now_ms in
      let w₁ = (acquire_job_lease c cfg met job owner w).0 in
      let same = acquire_lem c cfg met job owner w in
      elim (Result-cases ((acquire_job_lease c cfg met job owner w).1)) [
        | inr (_, x) ↦ rw (process_stream_entry, j, ◌>>=◌, x) (idle same)
        | inl (acquired, x) ↦
            rw (process_stream_entry, j, ◌>>=◌, x)
              (take_job-Outcome fields (seen w) w₁ acquired j same)
      ]
