-- ===== src/Tests/AiService.antt =====
-- Buckets and rules of the AI gateway service.
use spacegate.Common.{
  ℕ, ◌+◌, ◌*◌, ◌-◌, ◌≤◌, ◌≡◌, ◌↔◌, refl, arith, Str, codes, true, false, Option, none, some, List,
  [], ◌∷◌, ◌++◌, is_empty,
}
use spacegate.Common.Assoc.{get, put, remove}
use spacegate.Common.Parse.{trim}
use spacegate.Common.Result.{Result, ok}
use spacegate.AiService.Bucket.{TenantRateLimit, Bucket, token_bucket, calls}
use spacegate.AiService.Bucket.Laws.{admitted, last_of, calls-admitted}
use spacegate.AiService.Bucket.Retry.{token_bucket-retry_after_ms}
use spacegate.AiService.Rules.{
  ServiceError, Config, TenantRateLimitRule, StoredTenantRateLimit, Json,
  validate_tenant_rule_dimensions, validate_tenant_rate_limit_rule, sanitize_key, global_rate_limit,
  tenant_rate_limit_rule_key, tenant_rate_limit_rule_from_key,
}
use spacegate.AiService.Rules.Keys.{rule_of, dimensions_of}
use spacegate.AiService.Rules.Valid.{rule_from_key-rule_key}
use spacegate.AiService.Rules.Choice.{MostSpecific}
use spacegate.AiService.Store.{
  list_tenant_rate_limit_rules, resolve_rate_limit, upsert_tenant_rate_limit_rule,
  delete_tenant_rate_limit_rule,
}
use spacegate.AiService.Store.Events.{Event, upserted, deleted, IsJson, all_happen, all_change}
use spacegate.AiService.Store.Resolve.{reads, resolve_rate_limit-MostSpecific}

abbrev slow : TenantRateLimit
slow = record { rps = 1; burst = 2; cost = 1 }

calls-admitted_example :
    admitted ((calls slow 5 (1000 ∷ 1000 ∷ 1500 ∷ 2000 ∷ []) none).1) * (slow.cost * 1000)
    ≤ slow.burst * 1000 + (last_of 1000 (1000 ∷ 1500 ∷ 2000 ∷ []) - 1000) * slow.rps
calls-admitted_example =
    calls-admitted slow 5 (omega arith) (omega arith) (omega arith) 1000 (1000 ∷ 1500 ∷ 2000 ∷ [])
      (omega arith)

-- The bound is met.
three_of_four : admitted ((calls slow 5 (1000 ∷ 1000 ∷ 1500 ∷ 2000 ∷ []) none).1) ≡ 3
unfolding calls
three_of_four = refl

abbrev single : TenantRateLimit
single = record { rps = 1; burst = 1; cost = 1 }

-- A clock that goes back and forth refills the bucket.
refilled_twice : admitted ((calls single 0 (5000 ∷ 4000 ∷ 5000 ∷ []) none).1) ≡ 2
unfolding calls
refilled_twice = refl

abbrev spent : Option Bucket
spent = some (record { tokens = 300; ts = 1000; expires_at = 301005 })

spent_refused : (token_bucket single (1100 + 5) 1100 spent).1.allowed ≡ false
unfolding token_bucket
spent_refused = refl

token_bucket-retry_after_ms_example :
    ((token_bucket single (1800 + 5) 1800 ((token_bucket single (1100 + 5) 1100 spent).0)).1.allowed
      ≡ true)
    ↔ (1100 + (token_bucket single (1100 + 5) 1100 spent).1.retry_after_ms ≤ 1800)
token_bucket-retry_after_ms_example =
    token_bucket-retry_after_ms single 5 (omega arith) (omega arith) (omega arith) spent 1100 1800
      (omega arith) (omega arith) spent_refused

abbrev config : Config
config = record {
  tenant_rate_limit_prefix = codes "ai:tenant:ratelimit:";
  rate_limit_rps = 100;
  rate_limit_burst = 200;
  rate_limit_cost = 1;
}

abbrev on_path : Str → TenantRateLimitRule
on_path path = record {
  tenant = codes " acme ";
  model = none;
  path = some path;
  policy = some (codes "queue");
  rps = 10;
  burst = 20;
  cost = 2;
  ttl_secs = none;
}

on_path_valid : validate_tenant_rule_dimensions (on_path (codes "/v1")) ≡ ok tt
unfolding validate_tenant_rule_dimensions trim
on_path_valid = refl

rule_from_key-rule_key_example :
    tenant_rate_limit_rule_from_key config
      (tenant_rate_limit_rule_key config (on_path (codes "/v1")))
      slow
      none
    ≡ some (rule_of (dimensions_of (on_path (codes "/v1"))) slow none)
rule_from_key-rule_key_example =
    rule_from_key-rule_key config (on_path (codes "/v1")) slow none on_path_valid

abbrev number_or_none : Option ℕ → Str
number_or_none none = []
number_or_none (some n) = n ∷ []

abbrev option_of : Str → Option ℕ
option_of [] = none
option_of (c ∷ []) = none
option_of (c ∷ d ∷ s) = some c

-- A text in braces has the numbers as its code points.
abbrev read_back : Str → Option StoredTenantRateLimit
read_back [] = none
read_back (a ∷ []) = none
read_back (a ∷ b ∷ []) = none
read_back (a ∷ b ∷ c ∷ []) = none
read_back (a ∷ b ∷ c ∷ d ∷ s) =
    some (record { rps = b; burst = c; cost = d; ttl_secs = option_of s })

abbrev write : StoredTenantRateLimit → Str
write s = b'{' ∷ s.rps ∷ s.burst ∷ s.cost ∷ (number_or_none s.ttl_secs ++ b'}' ∷ [])

abbrev braces : Json
braces = record {
  stored_from_str = read_back;
  limit_from_str = λ s. none;
  to_string = λ s. some (write s);
}

write_given :
    (r b c : ℕ) (t : Option ℕ)
    → is_empty (trim (write (record { rps = r; burst = b; cost = c; ttl_secs = t }))) ≡ false
unfolding trim
write_given r b c none = refl
write_given r b c (some n) = refl

read_write :
    (r b c : ℕ) (t : Option ℕ)
    → read_back (trim (write (record { rps = r; burst = b; cost = c; ttl_secs = t })))
      ≡ some (record { rps = r; burst = b; cost = c; ttl_secs = t })
unfolding trim
read_write r b c none = refl
read_write r b c (some n) = refl

braces-IsJson : IsJson braces config
braces-IsJson = record {
  written = write;
  to_string_lem = λ s. refl;
  given = λ s. write_given s.rps s.burst s.cost s.ttl_secs;
  stored_from_str_lem = λ s. read_write s.rps s.burst s.cost s.ttl_secs;
}

abbrev no_ttl : Str → Result ServiceError ℕ
no_ttl key = ok 0

abbrev changed : List Event
changed =
    upserted no_ttl none (on_path (codes "/v1"))
    ∷ upserted no_ttl none (record (on_path (codes "/v1")) { policy = none; rps = 30 })
    ∷ deleted none (record (on_path (codes "/v1")) { policy = none })
    ∷ []

resolve_rate_limit-MostSpecific_example :
    (limit : TenantRateLimit) × (resolve_rate_limit braces config
        (reads (all_happen braces config changed []))
        (codes "acme")
        (codes "gpt")
        (codes "/v1")
        (codes "queue")
      ≡ ok limit)
    × MostSpecific
        (all_change changed [])
        (global_rate_limit config)
        (sanitize_key (codes "acme"))
        (sanitize_key (codes "gpt"))
        (sanitize_key (codes "/v1"))
        (sanitize_key (codes "queue"))
        limit
resolve_rate_limit-MostSpecific_example =
    resolve_rate_limit-MostSpecific braces config braces-IsJson changed (codes "acme") (codes "gpt")
      (codes "/v1") (codes "queue") refl refl refl refl refl

-- A tenant with colons, which a request may name, is answered by the rule for a tenant's path.
borrowed :
    resolve_rate_limit braces config
      (reads (all_happen braces config changed []))
      (codes "acme:path:_v1:policy:queue")
      (codes "gpt")
      (codes "/")
      (codes "wait")
    ≡ ok (record { rps = 10; burst = 20; cost = 2 })
unfolding resolve_rate_limit all_happen upsert_tenant_rate_limit_rule delete_tenant_rate_limit_rule
    validate_tenant_rate_limit_rule validate_tenant_rule_dimensions tenant_rate_limit_rule_key put
    remove get trim
borrowed = refl

-- A rule for a path `rps` is stored, and not listed.
unlisted :
    list_tenant_rate_limit_rules braces config no_ttl
      (λ key. ok (some (write (record { rps = 1; burst = 1; cost = 1; ttl_secs = none }))))
      []
      (tenant_rate_limit_rule_key config (record (on_path (codes "rps")) { policy = none }) ∷ [])
    ≡ ok []
unfolding list_tenant_rate_limit_rules tenant_rate_limit_rule_key trim
unlisted = refl

-- The rule for the path `/v1` is listed, but a filter by that path finds nothing.
filtered :
    list_tenant_rate_limit_rules braces config no_ttl
      (λ key. ok (some (write (record { rps = 1; burst = 1; cost = 1; ttl_secs = none }))))
      ((codes "path", codes "/v1") ∷ [])
      (tenant_rate_limit_rule_key config (on_path (codes "/v1")) ∷ [])
    ≡ ok []
unfolding list_tenant_rate_limit_rules tenant_rate_limit_rule_key trim
filtered = refl
