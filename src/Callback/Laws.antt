-- ===== src/Callback/Laws.antt =====
-- The delay of a retry, and what becomes of an entry.
use spacegate.Common.{
  ℕ, suc, ◌-◌, ◌*◌, ◌^◌, ◌≤◌, ◌<◌, min, ltb, leb, ◌≡◌, refl, ap, ◌∙◌, codes, if◌then◌else◌, arith,
  Str, Bool, true, false, Option, none, some, ◌∷◌, ◌⊎◌, inl, inr, Bool-cases,
}
use spacegate.Callback.{
  u64_max, callback_retry_delay_ms, Fields, Retry, Dead, World, Config, Outcomes, unwrap_or,
  enqueue_callback_retry_raw, enqueue_callback_dlq, ack_callback_retry, then_ack, count_success,
  process_callback_retry_entry,
}

min_cap : (x top m : ℕ) → m ≤ top → min (min x top) m ≡ min x m
min_cap x top m h = omega arith

exponent_capped : (attempt : ℕ) → attempt < 17 → min (suc attempt - 1) 16 ≡ attempt
exponent_capped attempt h = omega arith

-- For a largest delay that fits a u64 and at most 16 retries before it, the delay of a retry
-- doubles from the initial delay with each attempt up to the largest, without overflow.
callback_retry_delay_ms_lem :
    (initial most attempt : ℕ)
    → most ≤ u64_max
    → attempt < 17
    → callback_retry_delay_ms initial most (suc attempt) ≡ min (initial * 2 ^ attempt) most
unfolding callback_retry_delay_ms
callback_retry_delay_ms_lem initial most attempt h k =
    ap (λ e. min (min (initial * 2 ^ e) u64_max) most) (exponent_capped attempt k)
    ∙ min_cap (initial * 2 ^ attempt) u64_max most h

-- An entry is acknowledged only when its job was delivered, or is in one of the two streams.
abbrev pub Kept : Option Str → Str → Str → World → World × Bool → Type 0
Kept post job_id entry_id w (w', done) =
    ((w'.acked ≡ w.acked) × (done ≡ false))
    ⊎ ((w'.acked ≡ entry_id ∷ w.acked)
        × ((post ≡ none)
            ⊎ (((r : Retry) × ((w'.retries ≡ r ∷ w.retries) × (r.job_id ≡ job_id)))
                ⊎ ((d : Dead) × ((w'.dead ≡ d ∷ w.dead) × (d.job_id ≡ job_id))))))

enqueue_callback_retry_raw-Kept :
    (post : Option Str) (entry_id : Str) (o : Outcomes) (r : Retry) (w : World)
    → Kept post r.job_id entry_id w (then_ack o entry_id (enqueue_callback_retry_raw o r w))
unfolding enqueue_callback_retry_raw ack_callback_retry
enqueue_callback_retry_raw-Kept post entry_id o r w = elim (Bool-cases o.xadd) [
  | inr x ↦ rw (x, Kept) (inl (refl, refl))
  | inl x ↦ elim (Bool-cases o.trim) [
    | inr t ↦ rw (x, t, Kept) (inl (refl, refl))
    | inl t ↦ elim (Bool-cases o.xack) [
      | inr a ↦ rw (x, t, a, Kept) (inl (refl, refl))
      | inl a ↦ rw (x, t, a, Kept) (inr (refl, inr (inl (r, (refl, refl)))))
    ]
  ]
]

enqueue_callback_dlq-Kept :
    (post : Option Str) (entry_id : Str) (o : Outcomes) (d : Dead) (w : World)
    → Kept post d.job_id entry_id w (then_ack o entry_id (enqueue_callback_dlq o d w))
unfolding enqueue_callback_dlq ack_callback_retry
enqueue_callback_dlq-Kept post entry_id o d w = elim (Bool-cases o.xadd) [
  | inr x ↦ rw (x, Kept) (inl (refl, refl))
  | inl x ↦ elim (Bool-cases o.trim) [
    | inr t ↦ rw (x, t, Kept) (inl (refl, refl))
    | inl t ↦ elim (Bool-cases o.xack) [
      | inr a ↦ rw (x, t, a, Kept) (inl (refl, refl))
      | inl a ↦ rw (x, t, a, Kept) (inr (refl, inr (inr (d, (refl, refl)))))
    ]
  ]
]

ack_callback_retry-Kept :
    (job_id entry_id : Str) (o : Outcomes) (w : World)
    → Kept none job_id entry_id w (count_success (ack_callback_retry o entry_id w))
unfolding ack_callback_retry
ack_callback_retry-Kept job_id entry_id o w = elim (Bool-cases o.xack) [
  | inr a ↦ rw (a, Kept) (inl (refl, refl))
  | inl a ↦ rw (a, Kept) (inr (refl, inl refl))
]

choose {ℓ κ} :
    {A : Type ℓ} (P : A → Type κ) (b : Bool) {x y : A} → P x → P y → P (if b then x else y)
choose P true p q = p
choose P false p q = q

module _ {J : Type 0} (parse : Str → J) (print : J → Str) where
  -- Whichever of the Redis commands fail and whatever the answer of the callback, an entry of the
  -- retry stream is acknowledged only when its callback was delivered or its job was added to the
  -- retry stream or the dead letter stream; where it is not acknowledged the run returns an error.
  pub process_callback_retry_entry-Kept :
      (cfg : Config) (o : Outcomes) (now : ℕ) (post : Option Str) (entry_id : Str) (fields : Fields)
      (w : World)
      → Kept post
          (unwrap_or fields.job_id (codes ""))
          entry_id
          w
          (process_callback_retry_entry parse print cfg o now post entry_id fields w)
  unfolding process_callback_retry_entry
  process_callback_retry_entry-Kept cfg o now none entry_id fields w =
      choose (Kept none (unwrap_or fields.job_id (codes "")) entry_id w)
        (ltb now (unwrap_or fields.next_attempt_at_ms 0))
        (enqueue_callback_retry_raw-Kept none entry_id o _ w)
        (ack_callback_retry-Kept (unwrap_or fields.job_id (codes "")) entry_id o w)
  process_callback_retry_entry-Kept cfg o now (some e) entry_id fields w =
      choose (Kept (some e) (unwrap_or fields.job_id (codes "")) entry_id w)
        (ltb now (unwrap_or fields.next_attempt_at_ms 0))
        (enqueue_callback_retry_raw-Kept (some e) entry_id o _ w)
        (choose (Kept (some e) (unwrap_or fields.job_id (codes "")) entry_id w)
          (leb cfg.max_retry_attempts (unwrap_or fields.attempt 1))
          (enqueue_callback_dlq-Kept (some e) entry_id o _ w)
          (enqueue_callback_retry_raw-Kept (some e) entry_id o _ w))
