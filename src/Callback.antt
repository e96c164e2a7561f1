-- ===== src/Callback.antt =====
-- The retries of callbacks: binary/ai-gateway-service/src/app/callback.rs.
-- The state is what was sent to Redis: the entries added to the retry stream and to the dead letter
-- stream, the entries acknowledged, and the metrics. JSON is a parameter: `parse` reads a body, with
-- the code's `unwrap_or_else` for a text that is none, and `print` writes it.
pub mod Laws
pub mod Exhaust
use spacegate.Common.{
  ℕ, suc, ◌+◌, ◌-◌, ◌*◌, ◌%◌, ◌^◌, min, ltb, leb, if◌then◌else◌, Str, codes, Bool, true, false,
  Option, none, some, List, [], ◌∷◌,
}

-- The largest `u64` and `u32`.
abbrev pub u64_max : ℕ
u64_max = 18446744073709551615

abbrev pub u32_max : ℕ
u32_max = 4294967295

-- `checked_shl` by an exponent below 64 gives a value.
unfoldable pub callback_retry_delay_ms : (initial_delay_ms max_delay_ms attempt : ℕ) → ℕ
callback_retry_delay_ms initial_delay_ms max_delay_ms attempt =
    let exponent = min (attempt - 1) 16 in
    min (min (initial_delay_ms * 2 ^ exponent) u64_max) max_delay_ms

-- What `field_string`, `field_u32` and `field_u64` find in an entry.
pub record Fields : Type 0 where
  pub job_id : Option Str
  pub callback_url : Option Str
  pub body : Option Str
  pub attempt : Option ℕ
  pub next_attempt_at_ms : Option ℕ
  pub last_error : Option Str

pub record Retry : Type 0 where
  pub job_id : Str
  pub callback_url : Str
  pub body : Str
  pub attempt : ℕ
  pub next_attempt_at_ms : ℕ
  pub last_error : Str

pub record Dead : Type 0 where
  pub job_id : Str
  pub callback_url : Str
  pub body : Str
  pub attempts : ℕ
  pub final_error : Str

pub record World : Type 0 where
  pub retries : List Retry
  pub dead : List Dead
  pub acked : List Str
  pub retry_total : ℕ
  pub success_total : ℕ
  pub dlq_total : ℕ

pub record Config : Type 0 where
  pub initial_delay_ms : ℕ
  pub max_delay_ms : ℕ
  pub max_retry_attempts : ℕ

-- Which of the Redis commands of a run succeed: each branch has one of each kind at most.
pub record Outcomes : Type 0 where
  pub xadd : Bool
  pub trim : Bool
  pub xack : Bool

-- A result is the state with whether the function returned `Ok`.
abbrev pub unwrap_or {ℓ} : {A : Type ℓ} → Option A → A → A
unwrap_or none d = d
unwrap_or (some a) d = a

abbrev pub saturating_add : ℕ → ℕ → ℕ → ℕ
saturating_add top a b = min (a + b) top

unfoldable pub enqueue_callback_retry_raw : Outcomes → Retry → World → World × Bool
enqueue_callback_retry_raw o r w =
    if o.xadd
    then if o.trim
      then (record w { retries = r ∷ w.retries; retry_total = (w.retry_total + 1) % 2 ^ 64 }, true)
      else (record w { retries = r ∷ w.retries }, false)
    else (w, false)

unfoldable pub enqueue_callback_dlq : Outcomes → Dead → World → World × Bool
enqueue_callback_dlq o d w =
    if o.xadd
    then if o.trim
      then (record w { dead = d ∷ w.dead; dlq_total = (w.dlq_total + 1) % 2 ^ 64 }, true)
      else (record w { dead = d ∷ w.dead }, false)
    else (w, false)

unfoldable pub ack_callback_retry : Outcomes → Str → World → World × Bool
ack_callback_retry o entry_id w =
    if o.xack then (record w { acked = entry_id ∷ w.acked }, true) else (w, false)

-- `enqueue(..).await?; ack(..).await?`
abbrev pub then_ack : Outcomes → Str → World × Bool → World × Bool
then_ack o entry_id (w, true) = ack_callback_retry o entry_id w
then_ack o entry_id (w, false) = (w, false)

abbrev pub count_success : World × Bool → World × Bool
count_success (w, true) = (record w { success_total = (w.success_total + 1) % 2 ^ 64 }, true)
count_success (w, false) = (w, false)

module _ {J : Type 0} (parse : Str → J) (print : J → Str) where
  -- `post` is the answer to the request: none where it succeeded, else the error.
  unfoldable pub process_callback_retry_entry :
      Config → Outcomes → (now : ℕ) (post : Option Str) → Str → Fields → World → World × Bool
  unfolding enqueue_callback_retry_raw enqueue_callback_dlq ack_callback_retry
      callback_retry_delay_ms
  process_callback_retry_entry cfg o now post entry_id fields w =
      let job_id = unwrap_or fields.job_id (codes "") in
      let callback_url = unwrap_or fields.callback_url (codes "") in
      let body = unwrap_or fields.body (codes "{}") in
      let attempt = unwrap_or fields.attempt 1 in
      let next_attempt_at_ms = unwrap_or fields.next_attempt_at_ms 0 in
      if ltb now next_attempt_at_ms
      then then_ack o entry_id (
          enqueue_callback_retry_raw o
            (record {
              job_id = job_id;
              callback_url = callback_url;
              body = body;
              attempt = attempt;
              next_attempt_at_ms = next_attempt_at_ms;
              last_error = unwrap_or fields.last_error (codes "");
            })
            w)
      else elim post [
        | none ↦ count_success (ack_callback_retry o entry_id w)
        | some e ↦
            if leb cfg.max_retry_attempts attempt
            then then_ack o entry_id (
                enqueue_callback_dlq o
                  (record {
                    job_id = job_id;
                    callback_url = callback_url;
                    body = print (parse body);
                    attempts = attempt;
                    final_error = e;
                  })
                  w)
            else let next_attempt = saturating_add u32_max attempt 1 in
              let delay_ms =
                callback_retry_delay_ms cfg.initial_delay_ms cfg.max_delay_ms next_attempt in
              then_ack o entry_id (
                enqueue_callback_retry_raw o
                  (record {
                    job_id = job_id;
                    callback_url = callback_url;
                    body = print (parse body);
                    attempt = next_attempt;
                    next_attempt_at_ms = saturating_add u64_max now delay_ms;
                    last_error = e;
                  })
                  w)
      ]
