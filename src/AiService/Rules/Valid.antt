-- ===== src/AiService/Rules/Valid.antt =====
-- Rules that pass the checks, and the rules that their keys give back.
use mathlib.Core.Path.{subst}
use mathlib.Core.Option.{some-injective}
use spacegate.Common.{
  ◌==◌, ◌||◌, ◌≡◌, refl, sym, ap, ◌∙◌, arith, Str, codes, str_eq, str_eq_sound, Bool, is_empty, any,
  false, Option, none, some, [], ◌∷◌, Bool-cases, inl, inr, ℕ,
}
use spacegate.Common.Parse.{trim}
use spacegate.Common.Result.{ok, >>=-eq-ok}
use spacegate.AiService.Bucket.{TenantRateLimit}
use spacegate.AiService.Rules.{
  Config, TenantRateLimitRule, Dimensions, sanitize_code, sanitize_key, non_empty_opt,
  validate_tenant_rule_dimensions, validate_admin_rule_dimension, validate_policy_dimension,
  check_some, is_ascii_alphanumeric, tenant_rate_limit_rule_key, tenant_rate_limit_rule_from_key,
}
use spacegate.AiService.Rules.Keys.{
  NoColon, IsDimensions, SomeNoColon, key_of, rule_of, dimensions_of, dimension_of, from_key-key_of,
  rule_key-key_of,
}

sanitize_code-colon : (c : ℕ) → (c == b':') ≡ false → (sanitize_code c == b':') ≡ false
unfolding sanitize_code
sanitize_code-colon c h =
    elim (Bool-cases
      (is_ascii_alphanumeric c || c == b':' || c == b'_' || c == b'-' || c == b'.')) [
        | inl e ↦ rw e h
        | inr e ↦ rw e refl
      ]

or_false : (a b : Bool) → (a || b) ≡ false → (a ≡ false) × (b ≡ false)
or_false a b h = ground arith

pub sanitize_key-NoColon : (s : Str) → NoColon s → NoColon (sanitize_key s)
unfolding sanitize_key
sanitize_key-NoColon [] h = refl
sanitize_key-NoColon (c ∷ s) h =
    let (first, rest) = or_false (c == b':') (any (λ c. c == b':') s) h in
    rw (sanitize_code-colon c first, sanitize_key-NoColon s rest) refl

pub sanitize_key-is_empty : (s : Str) → is_empty (sanitize_key s) ≡ is_empty s
unfolding sanitize_key
sanitize_key-is_empty [] = refl
sanitize_key-is_empty (c ∷ s) = refl

admin-NoColon : (name v : Str) → validate_admin_rule_dimension name v ≡ ok tt → NoColon v
unfolding validate_admin_rule_dimension
admin-NoColon name v h = elim (Bool-cases (any (λ c. c == b':') v)) [
  | inl e ↦ cc (rw e at h)
  | inr e ↦ e
]

policy-NoColon : (v : Str) → validate_policy_dimension v ≡ ok tt → NoColon v
unfolding validate_policy_dimension
policy-NoColon v h = elim (Bool-cases (str_eq v (codes "abandon"))) [
  | inl e ↦ subst NoColon (sym (str_eq_sound v (codes "abandon") e)) refl
  | inr a ↦ elim (Bool-cases (str_eq v (codes "queue"))) [
    | inl e ↦ subst NoColon (sym (str_eq_sound v (codes "queue") e)) refl
    | inr q ↦ elim (Bool-cases (str_eq v (codes "wait"))) [
      | inl e ↦ subst NoColon (sym (str_eq_sound v (codes "wait") e)) refl
      | inr w ↦ cc (rw (a, q, w) at h)
    ]
  ]
]

some-NoColon :
    (name : Str) (o : Option Str)
    → check_some (validate_admin_rule_dimension name) o ≡ ok tt
    → SomeNoColon (dimension_of o)
some-NoColon name none h = tt
some-NoColon name (some v) h = sanitize_key-NoColon v (admin-NoColon name v h)

some_policy-NoColon :
    (o : Option Str) → check_some validate_policy_dimension o ≡ ok tt → SomeNoColon (dimension_of o)
some_policy-NoColon none h = tt
some_policy-NoColon (some v) h = sanitize_key-NoColon v (policy-NoColon v h)

pub validated-IsDimensions :
    (rule : TenantRateLimitRule)
    → validate_tenant_rule_dimensions rule ≡ ok tt
    → IsDimensions (dimensions_of rule)
unfolding validate_tenant_rule_dimensions dimensions_of
validated-IsDimensions rule h = elim (Bool-cases (is_empty (trim rule.tenant))) [
  | inl e ↦ cc (rw e at h)
  | inr given ↦
      let (_, tenant, h₁) = >>=-eq-ok _ _ tt (rw given at h) in
      let (_, model, h₂) = >>=-eq-ok _ _ tt h₁ in
      let (_, path, policy) = >>=-eq-ok _ _ tt h₂ in
      record {
        tenant_given = sanitize_key-is_empty (trim rule.tenant) ∙ given;
        tenant =
            sanitize_key-NoColon (trim rule.tenant)
              (admin-NoColon (codes "tenant") (trim rule.tenant) tenant);
        model = some-NoColon (codes "model") (non_empty_opt rule.model) model;
        path = some-NoColon (codes "path") (non_empty_opt rule.path) path;
        policy = some_policy-NoColon (non_empty_opt rule.policy) policy;
      }
]

-- From the key of a rule whose dimensions pass the checks, the rule is read back: tenant and
-- dimensions without blanks at their ends and with an underscore for each other character than
-- letters, digits, underscores, dashes and dots, empty dimensions left out, with the limit and the
-- time that are given and a cost of at least one.
pub rule_from_key-rule_key :
    (cfg : Config) (rule : TenantRateLimitRule) (limit : TenantRateLimit) (ttl_secs : Option ℕ)
    → validate_tenant_rule_dimensions rule ≡ ok tt
    → tenant_rate_limit_rule_from_key cfg (tenant_rate_limit_rule_key cfg rule) limit ttl_secs
      ≡ some (rule_of (dimensions_of rule) limit ttl_secs)
rule_from_key-rule_key cfg rule limit ttl_secs h =
    rw (rule_key-key_of cfg rule)
      (from_key-key_of cfg (dimensions_of rule) limit ttl_secs (validated-IsDimensions rule h))

dimensions_in : TenantRateLimitRule → Dimensions
dimensions_in rule = record {
  tenant = rule.tenant;
  model = rule.model;
  path = rule.path;
  policy = rule.policy;
}

-- Different dimensions have different keys.
pub key_of-injective :
    (cfg : Config) (d e : Dimensions)
    → IsDimensions d
    → IsDimensions e
    → key_of cfg d ≡ key_of cfg e
    → d ≡ e
unfolding dimensions_in
key_of-injective cfg d e i j h =
    let none_left : TenantRateLimit = record { rps = 0; burst = 0; cost = 0 } in
    let same =
      sym (from_key-key_of cfg d none_left none i)
      ∙ ap (λ k. tenant_rate_limit_rule_from_key cfg k none_left none) h
      ∙ from_key-key_of cfg e none_left none j in
    ap dimensions_in (some-injective _ _ same)
