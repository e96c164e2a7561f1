-- ===== src/AiService/Bucket/Retry.antt =====
-- The time to wait that a refused call is told.
use spacegate.Common.{
  ℕ, ◌+◌, ◌-◌, ◌*◌, ◌≤◌, ◌<◌, leb, ◌==◌, ◌||◌, ◌≡◌, ◌↔◌, refl, sym, ap, ◌∙◌, arith, true, false,
  Option, some, Bool-cases, inl, inr, leb→le, le→leb,
}
use spacegate.AiService.Bucket.{TenantRateLimit, Bucket, ceil_div, alive, refilled, token_bucket}
use spacegate.AiService.Bucket.Laws.{ceil_div-le_iff, refilled-alive, token_bucket-paid}

module _ (limit : TenantRateLimit) (ahead : ℕ) (h : 0 < limit.rps) (i : 0 < limit.burst)
    (j : 0 < limit.cost) where
  tests : (limit.rps == 0 || limit.burst == 0 || limit.cost == 0) ≡ false
  tests = ground arith

  allowed_lem :
      (b : Option Bucket) (clock now : ℕ)
      → (token_bucket limit clock now b).1.allowed
        ≡ leb (limit.cost * 1000) (refilled limit now (alive clock b))
  unfolding token_bucket
  allowed_lem b clock now =
      elim (Bool-cases (leb (limit.cost * 1000) (refilled limit now (alive clock b)))) [
        | inl e ↦ rw (tests, e) refl
        | inr e ↦ rw (tests, e) refl
      ]

  retry_after_ms_lem :
      (b : Option Bucket) (clock now : ℕ)
      → (token_bucket limit clock now b).1.allowed ≡ false
      → (token_bucket limit clock now b).1.retry_after_ms
        ≡ ceil_div (limit.cost * 1000 - refilled limit now (alive clock b)) limit.rps
  unfolding token_bucket
  retry_after_ms_lem b clock now e = rw (tests, sym (allowed_lem b clock now) ∙ e) refl

  -- After a call that is refused under a limit whose cost is not above its burst, the next call
  -- with that limit is admitted exactly when the time that the refused call was told has gone by.
  pub token_bucket-retry_after_ms :
      (b : Option Bucket) (now later : ℕ)
      → limit.cost ≤ limit.burst
      → now ≤ later
      → (token_bucket limit (now + ahead) now b).1.allowed ≡ false
      → ((token_bucket limit
            (later + ahead)
            later
            ((token_bucket limit (now + ahead) now b).0)).1.allowed
          ≡ true)
        ↔ (now + (token_bucket limit (now + ahead) now b).1.retry_after_ms ≤ later)
  token_bucket-retry_after_ms b now later c l e =
      let (y, at, ts, from, pay) = token_bucket-paid limit ahead b now h i j in
      let found = refilled-alive limit ahead y later h from (rw ts l) in
      let enough =
        ceil_div-le_iff (limit.cost * 1000 - refilled limit now (alive (now + ahead) b)) limit.rps
          (later - now) h in
      let wait = retry_after_ms_lem b (now + ahead) now e in
      let kept : y.tokens ≡ refilled limit now (alive (now + ahead) b) =
        omega (arith, rw e at pay) in
      let since : (later - y.ts) * limit.rps ≡ (later - now) * limit.rps =
        ap (λ (t : ℕ). (later - t) * limit.rps) ts in
      let allowed = allowed_lem (some y) (later + ahead) later in
      rw (at, allowed)
        (
          λ k. omega (arith, wait, enough.1 (omega (arith, leb→le _ _ k, found, kept, since))),
          λ k. le→leb _ _ (omega (arith, found, kept, since, enough.0 (omega (arith, wait)))),
        )
