-- ===== src/AiService/Jobs/Ran.antt =====
-- What the processing of a job leaves behind.
use mathlib.Core.Path.{subst}
use spacegate.Common.{
  ℕ, ◌≡◌, refl, ap, ◌∙◌, Str, codes, is_empty, Option, none, some, List, [], ◌∷◌, ◌++◌, Bool-cases,
  inl, inr, ◌⊎◌,
}
use spacegate.Common.Result.{Result, ok, err, Result-cases}
use spacegate.AiService.Rules.{ServiceError}
use spacegate.AiService.Effects.{◌>>=◌, ◌>>◌, lift, change}
use spacegate.AiService.Jobs.Model.{
  Fields, StoredResult, UpstreamRequest, UpstreamResponse, Codecs, Config, World, Met,
}
use spacegate.AiService.Jobs.Fields.{unwrap_or, field_string, load_body}
use spacegate.AiService.Jobs.Commands.{release_job_lease, store_result, enqueue_callback_retry}
use spacegate.AiService.Jobs.Process.{
  upstream_request, result_of, call_back, send_job, process_with, process_job,
}
use spacegate.AiService.Jobs.Outcomes.{Seen, seen, IsStored}

module _ (c : Codecs) (cfg : Config) (met : Met) where
  pub release-seen : (job : Str) (w : World) → seen ((release_job_lease c cfg met job w).0) ≡ seen w
  unfolding release_job_lease
  release-seen job w = elim (Result-cases met.del_lease) [
    | inl (_, e) ↦ rw (release_job_lease, e) refl
    | inr (_, e) ↦ rw (release_job_lease, e) refl
  ]

  retry-seen :
      (url : Str) (r : StoredResult) (m : Str) (w : World)
      → seen ((enqueue_callback_retry c cfg met url r m w).0) ≡ seen w
  unfolding enqueue_callback_retry
  retry-seen url r m w = elim (Result-cases (c.callback_to_string r)) [
    | inr (_, e) ↦ rw (enqueue_callback_retry, e) refl
    | inl (_, e) ↦ elim (Result-cases met.retry_xadd) [
      | inr (_, x) ↦ rw (enqueue_callback_retry, e, x) refl
      | inl (_, x) ↦ elim (Result-cases met.retry_trim) [
        | inr (_, t) ↦ rw (enqueue_callback_retry, e, x, t) refl
        | inl (_, t) ↦ rw (enqueue_callback_retry, e, x, t) refl
      ]
    ]
  ]

  call_back-seen :
      (url : Str) (r : StoredResult) (w : World) → seen ((call_back c cfg met url r w).0) ≡ seen w
  unfolding call_back
  call_back-seen url r w = elim (Bool-cases (is_empty url)) [
    | inl e ↦ rw (call_back, e) refl
    | inr e ↦ elim (Result-cases (met.post_callback url r)) [
      | inl (_, p) ↦ rw (call_back, e, p) refl
      | inr (m, p) ↦ rw (call_back, e, p) (retry-seen url r m _)
    ]
  ]

  -- The text of the result for the upstream's answer to a request.
  abbrev pub answer : Str → UpstreamRequest → Result ServiceError Str
  answer job r = c.result_to_string (result_of c cfg met job (met.upstream r))

  -- The text of the result for a request is stored.
  abbrev StoredFor : Str → UpstreamRequest → Seen → World → Type 0
  StoredFor job r s w' = IsStored (cfg.result_key_prefix ++ job) (answer job r) s.results w'.results

  -- What was acknowledged, counted and dead stays.
  abbrev Stays : Seen → World → Type 0
  Stays s w' = (w'.acked ≡ s.acked) × (w'.attempts ≡ s.attempts) × (w'.dead ≡ s.dead)

  abbrev pub Ran : Str → Seen → World → Result ServiceError (Unit {0}) → Type 0
  Ran job s w' (ok done) =
      Stays s w' × ((r : UpstreamRequest) × (w'.sent ≡ (job, r) ∷ s.sent) × StoredFor job r s w')
  Ran job s w' (err e) =
      Stays s w'
      × (((w'.sent ≡ s.sent) × (w'.results ≡ s.results))
          ⊎ ((r : UpstreamRequest) × (w'.sent ≡ (job, r) ∷ s.sent)
              × ((w'.results ≡ s.results) ⊎ StoredFor job r s w')))

  result_of-job_id :
      (job : Str) (a : Result Str UpstreamResponse) → (result_of c cfg met job a).job_id ≡ job
  unfolding result_of
  result_of-job_id job (ok a) = refl
  result_of-job_id job (err e) = refl

  -- A result that was stored, or not.
  abbrev Stored : StoredResult → Str → World → World → Result ServiceError (Unit {0}) → Type 0
  Stored r job w w' (ok done) =
      Stays (seen w) w'
      × (w'.sent ≡ w.sent)
      × IsStored (cfg.result_key_prefix ++ job) (c.result_to_string r) w.results w'.results
  Stored r job w w' (err e) =
      Stays (seen w) w'
      × (w'.sent ≡ w.sent)
      × ((w'.results ≡ w.results)
          ⊎ IsStored (cfg.result_key_prefix ++ job) (c.result_to_string r) w.results w'.results)

  store_result-Stored :
      (r : StoredResult) (w : World)
      → Stored r r.job_id w ((store_result c cfg met r w).0) ((store_result c cfg met r w).1)
  unfolding store_result
  store_result-Stored r w = elim (Result-cases (c.result_to_string r)) [
    | inr (_, t) ↦ rw (store_result, t) ((refl, refl, refl), refl, inl refl)
    | inl (json, t) ↦ elim (Result-cases met.set_result) [
      | inr (_, e) ↦ rw (store_result, t, e) ((refl, refl, refl), refl, inl refl)
      | inl (_, e) ↦ elim (Result-cases met.publish) [
        | inr (_, p) ↦ rw (store_result, t, e, p) ((refl, refl, refl), refl, inr (json, t, refl))
        | inl (_, p) ↦ rw (store_result, t, e, p) ((refl, refl, refl), refl, (json, t, refl))
      ]
    ]
  ]

  Stays-seen : (s : Seen) (w w' : World) → seen w' ≡ seen w → Stays s w → Stays s w'
  Stays-seen s w w' same (acked, attempts, dead) = (
    ap (λ z. z.acked) same ∙ acked,
    ap (λ z. z.attempts) same ∙ attempts,
    ap (λ z. z.dead) same ∙ dead,
  )

  StoredFor-seen :
      (job : Str) (r : UpstreamRequest) (s : Seen) (w w' : World)
      → seen w' ≡ seen w
      → StoredFor job r s w
      → StoredFor job r s w'
  StoredFor-seen job r s w w' same (json, text, results) =
      (json, text, ap (λ z. z.results) same ∙ results)

  send_job-Ran :
      (base : Str) (fields : Fields) (job : Str) (body : List ℕ) (w : World)
      → Ran job
          (seen w)
          ((send_job c cfg met base fields job body w).0)
          ((send_job c cfg met base fields job body w).1)
  unfolding send_job
  send_job-Ran base fields job body w =
      let request = upstream_request c cfg met base fields body in
      let result = result_of c cfg met job (met.upstream request) in
      let url = unwrap_or [] (field_string c fields (codes "callback_url")) in
      let w₁ : World = record w { sent = (job, request) ∷ w.sent } in
      let w₂ = (store_result c cfg met result w₁).0 in
      let w₃ = (call_back c cfg met url result w₂).0 in
      let same = call_back-seen url result w₂ in
      let stored =
        subst (λ j. Stored result j w₁ w₂ ((store_result c cfg met result w₁).1))
          (result_of-job_id job (met.upstream request)) (store_result-Stored result w₁) in
      elim (Result-cases ((store_result c cfg met result w₁).1)) [
        | inr (_, e) ↦
            let (stays, sent, results) = rw e at stored in
            rw (send_job, ◌>>◌, ◌>>=◌, change, e) (stays, inr (request, sent, results))
        | inl (_, e) ↦
            let (stays, sent, results) = rw e at stored in
            let stays' = Stays-seen (seen w) w₂ w₃ same stays in
            let sent' = ap (λ s. s.sent) same ∙ sent in
            let results' = StoredFor-seen job request (seen w) w₂ w₃ same results in
            elim (Result-cases ((call_back c cfg met url result w₂).1)) [
              | inr (_, k) ↦
                  rw (send_job, ◌>>◌, ◌>>=◌, change, e, k)
                    (stays', inr (request, sent', inr results'))
              | inl (_, k) ↦
                  rw (send_job, ◌>>◌, ◌>>=◌, change, e, k) (stays', (request, sent', results'))
            ]
      ]

  process_with-Ran :
      (base : Option Str) (fields : Fields) (job : Str) (w : World)
      → Ran job
          (seen w)
          ((process_with c cfg met base (some job) fields w).0)
          ((process_with c cfg met base (some job) fields w).1)
  unfolding process_with
  process_with-Ran none fields job w = ((refl, refl, refl), inl (refl, refl))
  process_with-Ran (some base) fields job w = elim (Result-cases (load_body c met fields)) [
    | inr (_, l) ↦ rw (process_with, ◌>>=◌, lift, l) ((refl, refl, refl), inl (refl, refl))
    | inl (body, l) ↦ rw (process_with, ◌>>=◌, lift, l) (send_job-Ran base fields job body w)
  ]

  pub process_job-Ran :
      (fields : Fields) (job : Str) (w : World)
      → field_string c fields (codes "job_id") ≡ some job
      → Ran job (seen w) ((process_job c cfg met fields w).0) ((process_job c cfg met fields w).1)
  unfolding process_job
  process_job-Ran fields job w j =
      rw (process_job, j) (process_with-Ran cfg.upstream_base_url fields job w)
