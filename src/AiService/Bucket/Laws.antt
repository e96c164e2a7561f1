-- ===== src/AiService/Bucket/Laws.antt =====
-- What a tenant gets of its bucket, over any calls whose times do not go back.
use native.Mathlib.Nat.{div-lt_iff_lt-mul, add-mul, suc-mul, zero-mul}
use spacegate.Common.{
  ℕ, suc, ◌+◌, ◌-◌, ◌*◌, ◌/◌, ◌≤◌, ◌<◌, min, max, leb, ◌==◌, ◌||◌, if◌then◌else◌, ◌≡◌, ◌↔◌, refl,
  sym, ap, ◌∙◌, arith, Bool, true, false, Option, none, some, List, [], ◌∷◌, Bool-cases, inl, inr,
}
use spacegate.AiService.Bucket.{
  TenantRateLimit, Bucket, Answer, ceil_div, ttl_of, alive, refilled, token_bucket, calls,
}

pub ceil_div-le_iff : (a r d : ℕ) → 0 < r → (ceil_div a r ≤ d) ↔ (a ≤ d * r)
unfolding ceil_div
ceil_div-le_iff a r d h =
    let e : ((a + r - 1) / r < suc d) ↔ (a + r - 1 < suc d * r) = div-lt_iff_lt-mul h in
    let m : suc d * r ≡ d * r + r = grind arith in
    (λ k. omega (arith, e.0 (omega arith), m), λ k. omega (arith, e.1 (omega (arith, m))))

span_mul : (m n r : ℕ) → n ≤ m → (m - n) * r + n * r ≡ m * r
span_mul m n r h = sym (add-mul (m - n) n r) ∙ ap (λ (t : ℕ). t * r) (omega arith)

abbrev pub admitted : List Answer → ℕ
admitted [] = 0
admitted (a ∷ rest) = if a.allowed then suc (admitted rest) else admitted rest

-- Times that do not go back, the first of them not before `t`.
abbrev pub Ordered : ℕ → List ℕ → Type 0
Ordered t [] = Unit
Ordered t (u ∷ us) = (t ≤ u) × Ordered u us

abbrev pub last_of : ℕ → List ℕ → ℕ
last_of t [] = t
last_of t (u ∷ us) = last_of u us

last_of-Ordered : (t : ℕ) (us : List ℕ) → Ordered t us → t ≤ last_of t us
last_of-Ordered t [] h = omega arith
last_of-Ordered t (u ∷ us) (h, k) = omega (arith, last_of-Ordered u us k)

module _ (limit : TenantRateLimit) (ahead : ℕ) where
  -- A bucket that a call has left behind.
  abbrev pub IsFrom : Option Bucket → Type 0
  IsFrom none = Unit
  IsFrom (some b) = b.expires_at ≡ b.ts + ahead + ttl_of limit

  -- A bucket is full before its keys expire.
  full-ttl_of : (d : ℕ) → 0 < limit.rps → ttl_of limit ≤ d → limit.burst * 1000 ≤ d * limit.rps
  unfolding ttl_of
  full-ttl_of d h k =
      let e : limit.burst * 1000 * 10 ≤ d * limit.rps =
        (ceil_div-le_iff (limit.burst * 1000 * 10) limit.rps d h).0 (omega arith) in
      omega arith

  pub refilled-alive :
      (b : Bucket) (now : ℕ)
      → 0 < limit.rps
      → IsFrom (some b)
      → b.ts ≤ now
      → refilled limit now (alive (now + ahead) (some b))
        ≡ min (limit.burst * 1000) (b.tokens + (now - b.ts) * limit.rps)
  unfolding refilled alive
  refilled-alive b now h e t =
      let since : max 0 (now - b.ts) ≡ now - b.ts = omega arith in
      elim (Bool-cases (leb (now + ahead) b.expires_at)) [
        | inl live ↦ rw (live, since) refl
        | inr gone ↦
            let full : limit.burst * 1000 ≤ (now - b.ts) * limit.rps =
              full-ttl_of (now - b.ts) h (ground arith) in
            rw gone (omega arith)
      ]

  refilled-le :
      (b : Bucket) (now : ℕ)
      → 0 < limit.rps
      → IsFrom (some b)
      → b.ts ≤ now
      → refilled limit now (alive (now + ahead) (some b)) + b.ts * limit.rps
        ≤ b.tokens + now * limit.rps
  refilled-le b now h e t = omega (arith, refilled-alive b now h e t, span_mul now b.ts limit.rps t)

  abbrev pub paid : Bool → ℕ
  paid true = limit.cost * 1000
  paid false = 0

  suc-paid :
      (b : Bool) (n : ℕ)
      → (if b then suc n else n) * (limit.cost * 1000) ≡ n * (limit.cost * 1000) + paid b
  suc-paid true n = suc-mul n (limit.cost * 1000)
  suc-paid false n = omega arith

  refilled-none : (now : ℕ) → refilled limit now (alive (now + ahead) none) ≡ limit.burst * 1000
  unfolding refilled alive
  refilled-none now = omega (arith, zero-mul limit.rps)

  -- One call with the tokens that it finds.
  pub token_bucket-paid :
      (b : Option Bucket) (now : ℕ)
      → 0 < limit.rps
      → 0 < limit.burst
      → 0 < limit.cost
      → (y : Bucket) × (((token_bucket limit (now + ahead) now b).0) ≡ some y)
        × (y.ts ≡ now)
        × IsFrom (some y)
        × (y.tokens + paid ((token_bucket limit (now + ahead) now b).1.allowed)
            ≡ refilled limit now (alive (now + ahead) b))
  unfolding token_bucket
  token_bucket-paid b now h i j =
      let tests : (limit.rps == 0 || limit.burst == 0 || limit.cost == 0) ≡ false = ground arith in
      let tokens = refilled limit now (alive (now + ahead) b) in
      elim (Bool-cases (leb (limit.cost * 1000) tokens)) [
        | inl e ↦
            rw (tests, e)
              (
                record {
                  tokens = tokens - limit.cost * 1000;
                  ts = now;
                  expires_at = now + ahead + ttl_of limit;
                },
                refl,
                refl,
                refl,
                ground arith,
              )
        | inr e ↦
            rw (tests, e)
              (
                record { tokens = tokens; ts = now; expires_at = now + ahead + ttl_of limit },
                refl,
                refl,
                refl,
                omega arith,
              )
      ]

  module _ (h : 0 < limit.rps) (i : 0 < limit.burst) (j : 0 < limit.cost) where
    -- What was paid for comes out of the tokens at the start and those that came since.
    calls-paid :
        (b : Bucket) (nows : List ℕ)
        → IsFrom (some b)
        → Ordered b.ts nows
        → admitted ((calls limit ahead nows (some b)).1) * (limit.cost * 1000) + b.ts * limit.rps
          ≤ b.tokens + last_of b.ts nows * limit.rps
    unfolding calls
    calls-paid b [] e o = omega arith
    calls-paid b (now ∷ nows) e (t, o) =
        let (y, at, ts, from, pay) = token_bucket-paid (some b) now h i j in
        let rest = calls-paid y nows from (rw (← ts) at o) in
        let more =
          suc-paid ((token_bucket limit (now + ahead) now (some b)).1.allowed)
            (admitted ((calls limit ahead nows (some y)).1)) in
        rw at (omega (arith, more, pay, rw ts at rest, refilled-le b now h e t))

    -- Of calls under one limit with a rate, a burst and a cost, from a bucket without keys, at
    -- times that do not go back, by a service and a server whose clocks keep their distance: what
    -- the admitted calls cost is at most the burst and what the rate gave from the first call to
    -- the last, whether or not keys expire in between.
    pub calls-admitted :
        (now : ℕ) (nows : List ℕ)
        → Ordered now nows
        → admitted ((calls limit ahead (now ∷ nows) none).1) * (limit.cost * 1000)
          ≤ limit.burst * 1000 + (last_of now nows - now) * limit.rps
    unfolding calls
    calls-admitted now nows o =
        let (y, at, ts, from, pay) = token_bucket-paid none now h i j in
        let rest = calls-paid y nows from (rw (← ts) at o) in
        let more =
          suc-paid ((token_bucket limit (now + ahead) now none).1.allowed)
            (admitted ((calls limit ahead nows (some y)).1)) in
        rw at (
          omega (
            arith,
            more,
            pay,
            rw ts at rest,
            refilled-none now,
            span_mul (last_of now nows) now limit.rps (last_of-Ordered now nows o),
          ))
