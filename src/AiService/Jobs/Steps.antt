-- ===== src/AiService/Jobs/Steps.antt =====
-- What the commands of a run leave behind, each with its answers.
use spacegate.Common.{
  ℕ, ◌+◌, ◌%◌, ◌^◌, ◌≡◌, refl, Str, codes, str_eq, some, ◌∷◌, Option-cases, inl, inr, ◌⊎◌,
}
use spacegate.Common.Assoc.{get, put}
use spacegate.Common.Result.{Result, ok, err, Result-cases}
use spacegate.AiService.Rules.{ServiceError}
use spacegate.AiService.Effects.{command}
use spacegate.AiService.Jobs.Model.{Fields, Codecs, Config, DeadJob, World, Met}
use spacegate.AiService.Jobs.Fields.{
  job_attempt_key, job_lease_key, field_string, stream_fields_to_json,
}
use spacegate.AiService.Jobs.Commands.{
  acquire_job_lease, release_job_lease, increment_job_delivery_attempt, clear_job_delivery_attempt,
  ack_stream_entry, enqueue_job_dlq,
}
use spacegate.AiService.Jobs.Outcomes.{Seen, seen, tries}

-- One more attempt.
abbrev pub counted_up : Str → Seen → Seen
counted_up job s = record s {
  attempts = put str_eq (job_attempt_key job) (tries job s + 1) s.attempts;
}

module _ (c : Codecs) (cfg : Config) (met : Met) where
  pub release_lem :
      (job : Str) (w : World)
      → ((release_job_lease c cfg met job w).1 ≡ ok tt)
        × (seen ((release_job_lease c cfg met job w).0) ≡ seen w)
  unfolding release_job_lease
  release_lem job w = elim (Result-cases met.del_lease) [
    | inl (_, e) ↦ rw (release_job_lease, e) (refl, refl)
    | inr (_, e) ↦ rw (release_job_lease, e) (refl, refl)
  ]

  pub clear_lem :
      (job : Str) (w : World)
      → ((clear_job_delivery_attempt c cfg met job w).1 ≡ ok tt)
        × (((clear_job_delivery_attempt c cfg met job w).0).acked ≡ w.acked)
        × (((clear_job_delivery_attempt c cfg met job w).0).sent ≡ w.sent)
        × (((clear_job_delivery_attempt c cfg met job w).0).results ≡ w.results)
        × (((clear_job_delivery_attempt c cfg met job w).0).dead ≡ w.dead)
  unfolding clear_job_delivery_attempt
  clear_lem job w = elim (Result-cases met.del_attempt) [
    | inl (_, e) ↦ rw (clear_job_delivery_attempt, e) (refl, refl, refl, refl, refl)
    | inr (_, e) ↦ rw (clear_job_delivery_attempt, e) (refl, refl, refl, refl, refl)
  ]

  abbrev pub Acked : Str → Str → World → World → Result ServiceError (Unit {0}) → Type 0
  Acked stream entry w w' (ok done) =
      seen w' ≡ record (seen w) { acked = (stream, entry) ∷ w.acked }
  Acked stream entry w w' (err e) = seen w' ≡ seen w

  pub ack_lem :
      (stream entry : Str) (w : World)
      → Acked stream entry w
          ((ack_stream_entry c cfg met stream entry w).0)
          ((ack_stream_entry c cfg met stream entry w).1)
  unfolding ack_stream_entry
  ack_lem stream entry w = elim (Result-cases met.xack) [
    | inl (_, e) ↦ rw (ack_stream_entry, e) refl
    | inr (_, e) ↦ rw (ack_stream_entry, e) refl
  ]

  -- The lease is had, or not; nothing else changes.
  pub acquire_lem :
      (job owner : Str) (w : World) → seen ((acquire_job_lease c cfg met job owner w).0) ≡ seen w
  unfolding acquire_job_lease
  acquire_lem job owner w = elim (Result-cases met.set_lease) [
    | inr (_, e) ↦ rw (acquire_job_lease, e) refl
    | inl (_, e) ↦ elim (Option-cases (get str_eq (job_lease_key job) w.leases)) [
      | inl g ↦ rw (acquire_job_lease, command, e, g) refl
      | inr (_, g) ↦ rw (acquire_job_lease, command, e, g) refl
    ]
  ]

  abbrev pub CountedUp : Str → World → World → Result ServiceError ℕ → Type 0
  CountedUp job w w' (ok n) =
      (n ≡ (tries job (seen w) + 1) % 2 ^ 32) × (seen w' ≡ counted_up job (seen w))
  CountedUp job w w' (err e) = (seen w' ≡ seen w) ⊎ (seen w' ≡ counted_up job (seen w))

  pub increment_lem :
      (job : Str) (w : World)
      → CountedUp job w
          ((increment_job_delivery_attempt c cfg met job w).0)
          ((increment_job_delivery_attempt c cfg met job w).1)
  unfolding increment_job_delivery_attempt
  increment_lem job w = elim (Result-cases met.incr) [
    | inr (_, e) ↦ rw (increment_job_delivery_attempt, e) (inl refl)
    | inl (_, e) ↦ elim (Result-cases met.expire) [
      | inr (_, t) ↦ rw (increment_job_delivery_attempt, e, t) (inr refl)
      | inl (_, t) ↦ rw (increment_job_delivery_attempt, e, t) (refl, refl)
    ]
  ]

  -- A dead letter of the entry.
  abbrev pub Lettered : Str → Str → Str → ℕ → World → World → Type 0
  Lettered job stream entry n w w' =
      (d : DeadJob) × (seen w' ≡ record (seen w) { dead = d ∷ w.dead })
      × (d.job_id ≡ job)
      × (d.source_stream ≡ stream)
      × (d.source_entry_id ≡ entry)
      × (d.attempts ≡ n)

  -- The dead letters grow where it works, and may where it fails.
  abbrev pub Buried : Str → Str → Str → ℕ → World → World → Result ServiceError (Unit {0}) → Type 0
  Buried job stream entry n w w' (ok done) = Lettered job stream entry n w w'
  Buried job stream entry n w w' (err e) = (seen w' ≡ seen w) ⊎ Lettered job stream entry n w w'

  pub dlq_lem :
      (job stream entry : Str) (fields : Fields) (n : ℕ) (reason : Str) (w : World)
      → field_string c fields (codes "job_id") ≡ some job
      → Buried job stream entry n w
          ((enqueue_job_dlq c cfg met stream entry fields n reason w).0)
          ((enqueue_job_dlq c cfg met stream entry fields n reason w).1)
  unfolding enqueue_job_dlq
  dlq_lem job stream entry fields n reason w j =
      let dead_job : Str → DeadJob = λ text. record {
        job_id = job;
        source_stream = stream;
        source_entry_id = entry;
        attempts = n;
        reason = reason;
        fields = text;
      } in
      elim (Result-cases (stream_fields_to_json c fields)) [
        | inr (_, t) ↦ rw (enqueue_job_dlq, t) (inl refl)
        | inl (text, t) ↦ elim (Result-cases met.dlq_xadd) [
          | inr (_, e) ↦ rw (enqueue_job_dlq, t, e) (inl refl)
          | inl (_, e) ↦ elim (Result-cases met.dlq_trim) [
            | inr (_, k) ↦
                rw (enqueue_job_dlq, t, e, j, k) (inr (dead_job text, refl, refl, refl, refl, refl))
            | inl (_, k) ↦
                rw (enqueue_job_dlq, t, e, j, k) (dead_job text, refl, refl, refl, refl, refl)
          ]
        ]
      ]
