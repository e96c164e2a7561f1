-- ===== src/AiService/Rules/Keys.antt =====
-- The keys under which rules are stored, and the rules that are read back from them.
use mathlib.Core.List.{append_assoc, append-nil}
use spacegate.Common.{
  ℕ, max, ◌==◌, ◌≡◌, refl, sym, ap, ◌∙◌, Str, codes, is_empty, split, any, false, Option, none,
  some, List, [], ◌∷◌, ◌++◌, map,
}
use spacegate.Common.Parse.{trim}
use spacegate.Common.Parse.Laws.{strip_prefix-append, split-behind, split-whole}
use spacegate.AiService.Bucket.{TenantRateLimit}
use spacegate.AiService.Rules.{
  Config, TenantRateLimitRule, Dimensions, sanitize_key, non_empty_opt, push_dimension, found,
  read_pairs, tenant_rate_limit_candidate_keys, tenant_rate_limit_rule_key,
  tenant_rate_limit_rule_from_key,
}

abbrev pub NoColon : Str → Type 0
NoColon s = any (λ c. c == b':') s ≡ false

abbrev field : Str → Option Str → List (Str × Str) → List (Str × Str)
field name none fs = fs
field name (some v) fs = (name, v) ∷ fs

abbrev fields : Option Str → Option Str → Option Str → List (Str × Str)
fields model path policy =
    field (codes "model") model (field (codes "path") path (field (codes "policy") policy []))

abbrev text_of : List (Str × Str) → Str
text_of [] = []
text_of ((n, v) ∷ fs) = b':' ∷ n ++ b':' ∷ (v ++ text_of fs)

-- The key of a rule for these dimensions.
unfoldable pub key_of : Config → Dimensions → Str
key_of cfg d =
    cfg.tenant_rate_limit_prefix ++ (d.tenant ++ text_of (fields d.model d.path d.policy))

abbrev pub SomeNoColon : Option Str → Type 0
SomeNoColon none = Unit
SomeNoColon (some v) = NoColon v

-- There is a tenant, and no value has a colon.
pub record IsDimensions (d : Dimensions) : Type 0 where
  pub tenant_given : is_empty d.tenant ≡ false
  pub tenant : NoColon d.tenant
  pub model : SomeNoColon d.model
  pub path : SomeNoColon d.path
  pub policy : SomeNoColon d.policy

abbrev AllNoColon : List (Str × Str) → Type 0
AllNoColon [] = Unit
AllNoColon ((n, v) ∷ fs) = NoColon n × NoColon v × AllNoColon fs

abbrev flat : List (Str × Str) → List Str
flat [] = []
flat ((n, v) ∷ fs) = n ∷ v ∷ flat fs

split-text_of :
    (t : Str) (fs : List (Str × Str))
    → NoColon t
    → AllNoColon fs
    → split b':' (t ++ text_of fs) ≡ t ∷ flat fs
split-text_of t [] h k = rw (append-nil t) (split-whole b':' t h)
split-text_of t ((n, v) ∷ fs) h (i, j, k) =
    split-behind b':' t (n ++ b':' ∷ (v ++ text_of fs)) h
    ∙ ap (λ ps. t ∷ ps)
        (split-behind b':' n (v ++ text_of fs) i ∙ ap (λ ps. n ∷ ps) (split-text_of v fs j k))

fields-AllNoColon :
    (model path policy : Option Str)
    → SomeNoColon model
    → SomeNoColon path
    → SomeNoColon policy
    → AllNoColon (fields model path policy)
fields-AllNoColon none none none h i j = tt
fields-AllNoColon none none (some q) h i j = (refl, j, tt)
fields-AllNoColon none (some p) none h i j = (refl, i, tt)
fields-AllNoColon none (some p) (some q) h i j = (refl, i, (refl, j, tt))
fields-AllNoColon (some m) none none h i j = (refl, h, tt)
fields-AllNoColon (some m) none (some q) h i j = (refl, h, (refl, j, tt))
fields-AllNoColon (some m) (some p) none h i j = (refl, h, (refl, i, tt))
fields-AllNoColon (some m) (some p) (some q) h i j = (refl, h, (refl, i, (refl, j, tt)))

read_pairs-fields :
    (t : Str) (model path policy : Option Str)
    → read_pairs
        (flat (fields model path policy))
        (record { tenant = t; model = none; path = none; policy = none })
      ≡ record { tenant = t; model = model; path = path; policy = policy }
unfolding read_pairs found
read_pairs-fields t none none none = refl
read_pairs-fields t none none (some q) = refl
read_pairs-fields t none (some p) none = refl
read_pairs-fields t none (some p) (some q) = refl
read_pairs-fields t (some m) none none = refl
read_pairs-fields t (some m) none (some q) = refl
read_pairs-fields t (some m) (some p) none = refl
read_pairs-fields t (some m) (some p) (some q) = refl

abbrev pub rule_of : Dimensions → TenantRateLimit → Option ℕ → TenantRateLimitRule
rule_of d limit ttl_secs = record {
  tenant = d.tenant;
  model = d.model;
  path = d.path;
  policy = d.policy;
  rps = limit.rps;
  burst = limit.burst;
  cost = max limit.cost 1;
  ttl_secs = ttl_secs;
}

pub from_key-key_of :
    (cfg : Config) (d : Dimensions) (limit : TenantRateLimit) (ttl_secs : Option ℕ)
    → IsDimensions d
    → tenant_rate_limit_rule_from_key cfg (key_of cfg d) limit ttl_secs
      ≡ some (rule_of d limit ttl_secs)
unfolding tenant_rate_limit_rule_from_key key_of
from_key-key_of cfg d limit ttl_secs i =
    let parts =
      split-text_of d.tenant (fields d.model d.path d.policy) i.tenant
        (fields-AllNoColon d.model d.path d.policy i.model i.path i.policy) in
    rw
      (
        tenant_rate_limit_rule_from_key,
        strip_prefix-append cfg.tenant_rate_limit_prefix
            (d.tenant ++ text_of (fields d.model d.path d.policy)),
        parts,
        i.tenant_given,
        read_pairs-fields d.tenant d.model d.path d.policy,
      )
      refl

abbrev pub dimension_of : Option Str → Option Str
dimension_of none = none
dimension_of (some v) = some (sanitize_key v)

-- What a rule is about, as its key has it.
unfoldable pub dimensions_of : TenantRateLimitRule → Dimensions
unfolding non_empty_opt
dimensions_of rule = record {
  tenant = sanitize_key (trim rule.tenant);
  model = dimension_of (non_empty_opt rule.model);
  path = dimension_of (non_empty_opt rule.path);
  policy = dimension_of (non_empty_opt rule.policy);
}

push_dimension-text_of :
    (base : Str) (model path policy : Option Str)
    → push_dimension
        (codes ":policy:")
        policy
        (push_dimension (codes ":path:") path (push_dimension (codes ":model:") model base))
      ≡ base ++ text_of (fields (dimension_of model) (dimension_of path) (dimension_of policy))
unfolding push_dimension
push_dimension-text_of base none none none = sym (append-nil base)
push_dimension-text_of base none none (some q) = simp (append_assoc, append-nil)
push_dimension-text_of base none (some p) none = simp (append_assoc, append-nil)
push_dimension-text_of base none (some p) (some q) = simp (append_assoc, append-nil)
push_dimension-text_of base (some m) none none = simp (append_assoc, append-nil)
push_dimension-text_of base (some m) none (some q) = simp (append_assoc, append-nil)
push_dimension-text_of base (some m) (some p) none = simp (append_assoc, append-nil)
push_dimension-text_of base (some m) (some p) (some q) = simp (append_assoc, append-nil)

pub rule_key-key_of :
    (cfg : Config) (rule : TenantRateLimitRule)
    → tenant_rate_limit_rule_key cfg rule ≡ key_of cfg (dimensions_of rule)
unfolding tenant_rate_limit_rule_key key_of dimensions_of
rule_key-key_of cfg rule =
    push_dimension-text_of (cfg.tenant_rate_limit_prefix ++ sanitize_key (trim rule.tenant))
      (non_empty_opt rule.model) (non_empty_opt rule.path) (non_empty_opt rule.policy)
    ∙ append_assoc cfg.tenant_rate_limit_prefix (sanitize_key (trim rule.tenant)) _

-- From the most specific rule for a request to the least.
unfoldable pub candidates : (tenant model path policy : Str) → List Dimensions
candidates t m p q =
    record { tenant = t; model = some m; path = some p; policy = some q }
    ∷ record { tenant = t; model = some m; path = some p; policy = none }
    ∷ record { tenant = t; model = some m; path = none; policy = some q }
    ∷ record { tenant = t; model = none; path = some p; policy = some q }
    ∷ record { tenant = t; model = some m; path = none; policy = none }
    ∷ record { tenant = t; model = none; path = some p; policy = none }
    ∷ record { tenant = t; model = none; path = none; policy = some q }
    ∷ record { tenant = t; model = none; path = none; policy = none }
    ∷ []

pub candidate_keys-key_of :
    (cfg : Config) (tenant model path policy : Str)
    → tenant_rate_limit_candidate_keys cfg tenant model path policy
      ≡ map (key_of cfg) (
          candidates
            (sanitize_key tenant)
            (sanitize_key model)
            (sanitize_key path)
            (sanitize_key policy))
unfolding tenant_rate_limit_candidate_keys key_of candidates
candidate_keys-key_of cfg tenant model path policy = simp (append_assoc, append-nil)
