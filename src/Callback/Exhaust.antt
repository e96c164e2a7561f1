-- ===== src/Callback/Exhaust.antt =====
-- Retries of a callback that fails each time, with Redis at work.
use spacegate.Common.{
  ℕ, zero, suc, ◌+◌, ◌-◌, ◌%◌, ◌^◌, ◌≤◌, ◌<◌, ltb, leb, min, max, if◌then◌else◌, ◌≡◌, refl, arith,
  Str, true, false, some, List, [], ◌∷◌, length, inl, inr, Bool-cases, ap, ◌∙◌,
}
use spacegate.Callback.{
  u32_max, saturating_add, u64_max, callback_retry_delay_ms, Fields, Retry, Dead, World, Config,
  Outcomes, enqueue_callback_retry_raw, enqueue_callback_dlq, ack_callback_retry,
  process_callback_retry_entry,
}

abbrev pub all_good : Outcomes
all_good = record { xadd = true; trim = true; xack = true }

-- The entry as the next read of the stream finds it.
abbrev pub fields_of : Retry → Fields
fields_of r = record {
  job_id = some r.job_id;
  callback_url = some r.callback_url;
  body = some r.body;
  attempt = some r.attempt;
  next_attempt_at_ms = some r.next_attempt_at_ms;
  last_error = some r.last_error;
}

-- The newest entry of the retry stream.
abbrev pub newest : Retry → List Retry → Retry
newest r [] = r
newest r (r' ∷ rs) = r'

ltb_irrefl : (n : ℕ) → ltb n n ≡ false
ltb_irrefl n = ground arith

not_capped : (m a top : ℕ) → leb m a ≡ false → m ≤ top → min (a + 1) top ≡ suc a
not_capped m a top h k = ground arith

module _ {J : Type 0} (parse : Str → J) (print : J → Str) (cfg : Config) (e entry_id : Str) where
  -- One attempt, made when it is due, that fails.
  abbrev pub failing : Retry → World → World
  failing r w =
      (process_callback_retry_entry parse print cfg all_good r.next_attempt_at_ms (some e) entry_id
        (fields_of r) w).0

  -- The job's attempts: each run that adds an entry to the retry stream is followed by the run of
  -- that entry, as many times as there is fuel.
  unfoldable pub exhaust : ℕ → Retry → World → World
  unfolding process_callback_retry_entry
  exhaust zero r w = w
  exhaust (suc fuel) r w =
      let rest = exhaust fuel (newest r (failing r w).retries) (failing r w) in
      if ltb (length w.retries) (length (failing r w).retries) then rest else failing r w

  abbrev letter_of : Retry → Dead
  letter_of r = record {
    job_id = r.job_id;
    callback_url = r.callback_url;
    body = print (parse r.body);
    attempts = r.attempt;
    final_error = e;
  }

  abbrev after : Retry → Retry
  after r =
      let attempt = saturating_add u32_max r.attempt 1 in
      record {
        job_id = r.job_id;
        callback_url = r.callback_url;
        body = print (parse r.body);
        attempt = attempt;
        next_attempt_at_ms =
            saturating_add u64_max r.next_attempt_at_ms
              (callback_retry_delay_ms cfg.initial_delay_ms cfg.max_delay_ms attempt);
        last_error = e;
      }

  failing-last :
      (r : Retry) (w : World)
      → leb cfg.max_retry_attempts r.attempt ≡ true
      → failing r w ≡ record w {
        dead = letter_of r ∷ w.dead;
        dlq_total = (w.dlq_total + 1) % 2 ^ 64;
        acked = entry_id ∷ w.acked;
      }
  unfolding process_callback_retry_entry enqueue_callback_dlq ack_callback_retry
  failing-last r w h = rw (failing, ltb_irrefl r.next_attempt_at_ms, h) refl

  failing-next :
      (r : Retry) (w : World)
      → leb cfg.max_retry_attempts r.attempt ≡ false
      → failing r w ≡ record w {
        retries = after r ∷ w.retries;
        retry_total = (w.retry_total + 1) % 2 ^ 64;
        acked = entry_id ∷ w.acked;
      }
  unfolding process_callback_retry_entry enqueue_callback_retry_raw ack_callback_retry
  failing-next r w h = rw (failing, ltb_irrefl r.next_attempt_at_ms, h) refl

  -- What the attempts leave behind: one dead letter, and one entry for each attempt but the last.
  pub record IsExhausted (r : Retry) (w w' : World) : Type 0 where
    pub letter : Dead
    pub dead : w'.dead ≡ letter ∷ w.dead
    pub job_id : letter.job_id ≡ r.job_id
    pub callback_url : letter.callback_url ≡ r.callback_url
    pub attempts : letter.attempts ≡ max r.attempt cfg.max_retry_attempts
    pub final_error : letter.final_error ≡ e
    pub retries : length w'.retries ≡ length w.retries + (cfg.max_retry_attempts - r.attempt)
    pub acked : length w'.acked ≡ length w.acked + (cfg.max_retry_attempts - r.attempt) + 1

  -- A callback that fails at each attempt, with every Redis command successful, each attempt made
  -- when it is due and a limit that fits a u32: where each entry that a run adds to the retry
  -- stream is run in turn, and there is fuel for more runs than the limit leaves above the
  -- attempts made, exactly one dead letter is added, with the job, its address, the error and the
  -- number of the last attempt, which is the limit or was above it; the retry stream gets as many
  -- entries as the limit leaves, and one entry more than that is acknowledged.
  pub exhaust-dead :
      (fuel : ℕ) (r : Retry) (w : World)
      → cfg.max_retry_attempts ≤ u32_max
      → cfg.max_retry_attempts - r.attempt < fuel
      → IsExhausted r w (exhaust fuel r w)
  unfolding exhaust
  exhaust-dead zero r w k h = absurd (omega arith)
  exhaust-dead (suc fuel) r w k h = elim (Bool-cases (leb cfg.max_retry_attempts r.attempt)) [
    | inl last ↦
        let run = failing-last r w last in
        let stops : ltb (length w.retries) (length (failing r w).retries) ≡ false =
          rw (ap (λ z. z.retries) run) (ltb_irrefl (length w.retries)) in
        rw (exhaust, stops)
          (record {
            letter = letter_of r;
            dead = ap (λ z. z.dead) run;
            job_id = refl;
            callback_url = refl;
            attempts = ground arith;
            final_error = refl;
            retries = ap (λ z. length z.retries) run ∙ ground arith;
            acked = ap (λ z. length z.acked) run ∙ ground arith;
          })
    | inr more ↦
        let run = failing-next r w more in
        let goes_on : ltb (length w.retries) (length (failing r w).retries) ≡ true =
          rw (ap (λ z. z.retries) run) (ground arith) in
        let next : newest r (failing r w).retries ≡ after r = ap (λ z. newest r z.retries) run in
        let up : (after r).attempt ≡ suc r.attempt =
          not_capped cfg.max_retry_attempts r.attempt u32_max more k in
        let rest : IsExhausted (after r) (failing r w) (exhaust fuel (after r) (failing r w)) =
          exhaust-dead fuel (after r) (failing r w) k (rw (up) (ground arith)) in
        let grown = ap (λ z. length z.retries) run in
        let acks = ap (λ z. length z.acked) run in
        let left : ℕ → ℕ → ℕ = λ n a. n + (cfg.max_retry_attempts - a) in
        rw (exhaust, goes_on, next)
          (record {
            letter = rest.letter;
            dead = rest.dead ∙ ap (λ z. rest.letter ∷ z.dead) run;
            job_id = rest.job_id;
            callback_url = rest.callback_url;
            attempts = rest.attempts ∙ rw (up) (ground arith);
            final_error = rest.final_error;
            retries = rest.retries ∙ ap (left (length (failing r w).retries)) up ∙ ground arith;
            acked =
                rest.acked ∙ ap (λ a. left (length (failing r w).acked) a + 1) up ∙ ground arith;
          })
  ]
