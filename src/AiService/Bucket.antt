-- ===== src/AiService/Bucket.antt =====
-- The script TOKEN_BUCKET_LUA of binary/ai-gateway-service/src/app/types.rs. Lua's numbers are taken
-- as exact, and a division that is rounded up as one of whole numbers.
pub mod Laws
pub mod Retry
use spacegate.Common.{
  ℕ, ◌+◌, ◌-◌, ◌*◌, ◌/◌, min, max, leb, ◌==◌, ◌||◌, if◌then◌else◌, Bool, true, false, Option, none,
  some, List, [], ◌∷◌,
}

-- `TenantRateLimit`
pub record TenantRateLimit : Type 0 where
  pub rps : ℕ
  pub burst : ℕ
  pub cost : ℕ

-- What the keys of a tenant hold. Both are set together, and go when the server's clock is past
-- `expires_at`.
pub record Bucket : Type 0 where
  pub tokens : ℕ
  pub ts : ℕ
  pub expires_at : ℕ

pub record Answer : Type 0 where
  pub allowed : Bool
  pub remaining_tokens_milli : ℕ
  pub retry_after_ms : ℕ

-- `math.ceil(a / b)`
unfoldable pub ceil_div : ℕ → ℕ → ℕ
ceil_div a b = (a + b - 1) / b

unfoldable pub ttl_of : TenantRateLimit → ℕ
unfolding ceil_div
ttl_of limit = max 300000 (ceil_div (limit.burst * 1000 * 10) limit.rps)

-- What the two reads give, on the server's clock.
unfoldable pub alive : ℕ → Option Bucket → Option Bucket
alive clock none = none
alive clock (some b) = if leb clock b.expires_at then some b else none

-- The tokens before the call is paid.
unfoldable pub refilled : TenantRateLimit → ℕ → Option Bucket → ℕ
refilled limit now none = min (limit.burst * 1000) (limit.burst * 1000 + 0 * limit.rps)
refilled limit now (some b) = min (limit.burst * 1000) (b.tokens + max 0 (now - b.ts) * limit.rps)

-- `now` is the service's clock, `clock` the server's.
unfoldable pub token_bucket : TenantRateLimit → ℕ → ℕ → Option Bucket → Option Bucket × Answer
unfolding ttl_of alive refilled ceil_div
token_bucket limit clock now b =
    if limit.rps == 0 || limit.burst == 0 || limit.cost == 0
    then (b, record { allowed = false; remaining_tokens_milli = 0; retry_after_ms = 1000 })
    else (let tokens = refilled limit now (alive clock b) in
        let cost_milli = limit.cost * 1000 in
        let expires_at = clock + ttl_of limit in
        if leb cost_milli tokens
        then (
          some (record { tokens = tokens - cost_milli; ts = now; expires_at = expires_at }),
          record {
            allowed = true;
            remaining_tokens_milli = tokens - cost_milli;
            retry_after_ms = 0;
          },
        )
        else (
          some (record { tokens = tokens; ts = now; expires_at = expires_at }),
          record {
            allowed = false;
            remaining_tokens_milli = tokens;
            retry_after_ms = ceil_div (cost_milli - tokens) limit.rps;
          },
        ))

-- One call after another under one limit, with a server that is `ahead` of the service.
unfoldable pub calls : TenantRateLimit → ℕ → List ℕ → Option Bucket → Option Bucket × List Answer
unfolding token_bucket
calls limit ahead [] b = (b, [])
calls limit ahead (now ∷ nows) b =
    let (b', answer) = token_bucket limit (now + ahead) now b in
    let (b'', answers) = calls limit ahead nows b' in (b'', answer ∷ answers)
