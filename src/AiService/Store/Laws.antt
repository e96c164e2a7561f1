-- ===== src/AiService/Store/Laws.antt =====
-- The stored texts are the rules in force, and a request gets the most specific of them.
use spacegate.Common.{
  ℕ, max, ◌<◌, ◌≡◌, refl, sym, ap, arith, Str, str_eq, str_eq_iff, Bool, true, false, Option, none,
  some, List, [], ◌∷◌, Bool-cases, Option-cases, inl, inr,
}
use spacegate.Common.Assoc.{get, put, remove, get-put, get-remove}
use spacegate.Common.Result.{ok, Result-cases}
use spacegate.AiService.Bucket.{TenantRateLimit}
use spacegate.AiService.Rules.{
  Config, TenantRateLimitRule, StoredTenantRateLimit, Json, Dimensions,
  validate_tenant_rule_dimensions, validate_tenant_rate_limit_rule,
}
use spacegate.AiService.Rules.Keys.{IsDimensions, key_of, dimensions_of, rule_key-key_of}
use spacegate.AiService.Rules.Valid.{validated-IsDimensions, key_of-injective}
use spacegate.AiService.Rules.Choice.{Rules, dimensions_eq, dimensions_eq_iff}
use spacegate.AiService.Store.{
  ParsedStoredTenantRateLimit, parse_stored_tenant_rate_limit, parsed, Store,
  upsert_tenant_rate_limit_rule, delete_tenant_rate_limit_rule,
}
use spacegate.AiService.Store.Events.{
  Event, upserted, deleted, expired, IsJson, happens, all_happen, changes, all_change,
}

same_tests : (a b : Bool) → (a ≡ true → b ≡ true) → (b ≡ true → a ≡ true) → a ≡ b
same_tests true b h k = sym (h refl)
same_tests false true h k = k refl
same_tests false false h k = refl

unfoldable pub limit_of : Option ParsedStoredTenantRateLimit → Option TenantRateLimit
limit_of none = none
limit_of (some p) = some p.limit

module _ (json : Json) (cfg : Config) where
  unfoldable pub limit_at : Store → Dimensions → Option TenantRateLimit
  limit_at store d = limit_of (parsed json (get str_eq (key_of cfg d) store))

  -- Each dimensions without colons have the limit under their key.
  pub record Refines (store : Store) (rules : Rules) : Type 0 where
    pub agrees : (d : Dimensions) → IsDimensions d → limit_at store d ≡ get dimensions_eq d rules

  key_of-eq :
      (d e : Dimensions)
      → IsDimensions d
      → IsDimensions e
      → str_eq (key_of cfg d) (key_of cfg e) ≡ dimensions_eq d e
  key_of-eq d e i j =
      same_tests (str_eq (key_of cfg d) (key_of cfg e)) (dimensions_eq d e)
        (λ h.
          (dimensions_eq_iff d e).1
            (key_of-injective cfg d e i j ((str_eq_iff (key_of cfg d) (key_of cfg e)).0 h)))
        (λ h.
          (str_eq_iff (key_of cfg d) (key_of cfg e)).1
            (ap (key_of cfg) ((dimensions_eq_iff d e).0 h)))

  put-Refines :
      (d : Dimensions) (raw : Str) (stored : ParsedStoredTenantRateLimit) (store : Store)
      (rules : Rules)
      → IsDimensions d
      → parse_stored_tenant_rate_limit json raw ≡ some stored
      → Refines store rules
      → Refines (put str_eq (key_of cfg d) raw store) (put dimensions_eq d stored.limit rules)
  unfolding limit_at limit_of parsed
  put-Refines d raw stored store rules i p r = record {
    agrees = λ e j. elim (Bool-cases (dimensions_eq e d)) [
      | inl same ↦
          rw
            (
              limit_at,
              get-put str_eq str_eq_iff (key_of cfg d) (key_of cfg e) raw store,
              get-put dimensions_eq dimensions_eq_iff d e stored.limit rules,
              key_of-eq e d j i,
              same,
              p,
            )
            refl
      | inr other ↦
          rw
            (
              limit_at,
              get-put str_eq str_eq_iff (key_of cfg d) (key_of cfg e) raw store,
              get-put dimensions_eq dimensions_eq_iff d e stored.limit rules,
              key_of-eq e d j i,
              other,
            )
            (r.agrees e j)
    ];
  }

  remove-Refines :
      (d : Dimensions) (store : Store) (rules : Rules)
      → IsDimensions d
      → Refines store rules
      → Refines (remove str_eq (key_of cfg d) store) (remove dimensions_eq d rules)
  unfolding limit_at limit_of parsed
  remove-Refines d store rules i r = record {
    agrees = λ e j. elim (Bool-cases (dimensions_eq e d)) [
      | inl same ↦
          rw
            (
              limit_at,
              get-remove str_eq str_eq_iff (key_of cfg d) (key_of cfg e) store,
              get-remove dimensions_eq dimensions_eq_iff d e rules,
              key_of-eq e d j i,
              same,
            )
            refl
      | inr other ↦
          rw
            (
              limit_at,
              get-remove str_eq str_eq_iff (key_of cfg d) (key_of cfg e) store,
              get-remove dimensions_eq dimensions_eq_iff d e rules,
              key_of-eq e d j i,
              other,
            )
            (r.agrees e j)
    ];
  }

  module _ (j : IsJson json cfg) where
    stored_limit : StoredTenantRateLimit → TenantRateLimit
    stored_limit s = record { rps = s.rps; burst = s.burst; cost = max s.cost 1 }

    parse-written :
        (s : StoredTenantRateLimit)
        → parse_stored_tenant_rate_limit json (j.written s)
          ≡ some (record { limit = stored_limit s; ttl_secs = s.ttl_secs })
    unfolding parse_stored_tenant_rate_limit stored_limit
    parse-written s = rw (parse_stored_tenant_rate_limit, j.given s, j.stored_from_str_lem s) refl

    validated_cost :
        (rule : TenantRateLimitRule) → validate_tenant_rate_limit_rule rule ≡ ok tt → 0 < rule.cost
    unfolding validate_tenant_rate_limit_rule
    validated_cost rule h = elim (Result-cases (validate_tenant_rule_dimensions rule)) [
      | inl (_, e) ↦ let k = rw e at h in ground arith
      | inr (_, e) ↦ cc (rw e at h)
    ]

    validated_dimensions :
        (rule : TenantRateLimitRule)
        → validate_tenant_rate_limit_rule rule ≡ ok tt
        → validate_tenant_rule_dimensions rule ≡ ok tt
    unfolding validate_tenant_rate_limit_rule
    validated_dimensions rule h = elim (Result-cases (validate_tenant_rule_dimensions rule)) [
      | inl (_, e) ↦ e
      | inr (_, e) ↦ cc (rw e at h)
    ]

    same_dimensions :
        (rule : TenantRateLimitRule) (c : ℕ)
        → dimensions_of (record rule { cost = c }) ≡ dimensions_of rule
    unfolding dimensions_of
    same_dimensions rule c = refl

    raised_limit :
        (rule : TenantRateLimitRule) (s : StoredTenantRateLimit)
        → s.rps ≡ rule.rps
        → s.burst ≡ rule.burst
        → max s.cost 1 ≡ rule.cost
        → stored_limit s ≡ record { rps = rule.rps; burst = rule.burst; cost = rule.cost }
    unfolding stored_limit
    raised_limit rule s a b c i = record { rps = a i; burst = b i; cost = c i }

    happens-Refines :
        (e : Event) (store : Store) (rules : Rules)
        → Refines store rules
        → Refines (happens json cfg e store) (changes e rules)
    unfolding happens changes upsert_tenant_rate_limit_rule delete_tenant_rate_limit_rule
    happens-Refines (upserted ttl failed rule) store rules r =
        elim (Result-cases (validate_tenant_rate_limit_rule rule)) [
          | inr (e, v) ↦ rw (happens, changes, upsert_tenant_rate_limit_rule, v) r
          | inl (_, v) ↦ elim (Option-cases failed) [
            | inr (e, f) ↦
                rw (happens, changes, upsert_tenant_rate_limit_rule, v, j.to_string_lem, f) r
            | inl f ↦
                let raised : TenantRateLimitRule = record rule { cost = max rule.cost 1 } in
                let stored : StoredTenantRateLimit = record {
                  rps = raised.rps;
                  burst = raised.burst;
                  cost = raised.cost;
                  ttl_secs = raised.ttl_secs;
                } in
                let cost : max (max rule.cost 1) 1 ≡ rule.cost =
                  omega (arith, validated_cost rule v) in
                let kept =
                  put-Refines (dimensions_of rule) (j.written stored)
                    (record { limit = stored_limit stored; ttl_secs = stored.ttl_secs }) store rules
                    (validated-IsDimensions rule (validated_dimensions rule v))
                    (parse-written stored) r in
                rw
                  (
                    happens,
                    changes,
                    upsert_tenant_rate_limit_rule,
                    v,
                    j.to_string_lem stored,
                    f,
                    rule_key-key_of cfg raised,
                    same_dimensions rule (max rule.cost 1),
                  )
                  (rw (raised_limit rule stored refl refl cost) at kept)
          ]
        ]
    happens-Refines (deleted failed rule) store rules r =
        elim (Result-cases (validate_tenant_rule_dimensions rule)) [
          | inr (e, v) ↦ rw (happens, changes, delete_tenant_rate_limit_rule, v) r
          | inl (_, v) ↦ elim (Option-cases failed) [
            | inr (e, f) ↦ rw (happens, changes, delete_tenant_rate_limit_rule, v, f) r
            | inl f ↦
                rw (happens, changes, delete_tenant_rate_limit_rule, v, f, rule_key-key_of cfg rule)
                  (remove-Refines (dimensions_of rule) store rules (validated-IsDimensions rule v)
                    r)
          ]
        ]
    happens-Refines (expired d i) store rules r = remove-Refines d store rules i r

    pub all_happen-Refines :
        (es : List Event) (store : Store) (rules : Rules)
        → Refines store rules
        → Refines (all_happen json cfg es store) (all_change es rules)
    unfolding all_happen all_change
    all_happen-Refines [] store rules r = r
    all_happen-Refines (e ∷ es) store rules r =
        all_happen-Refines es (happens json cfg e store) (changes e rules)
          (happens-Refines e store rules r)
