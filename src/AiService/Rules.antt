-- ===== src/AiService/Rules.antt =====
-- The rate limits of tenants: binary/ai-gateway-service/src/app/ratelimit.rs, with `sanitize_key` of
-- util.rs and the types of types.rs.
pub mod Keys
pub mod Valid
pub mod Choice
use spacegate.Common.{
  ℕ, max, leb, ltb, ◌==◌, ◌||◌, if◌then◌else◌, Str, codes, str_eq, is_empty, split, Bool, true,
  false, any, Option, none, some, List, [], ◌∷◌, ◌++◌,
}
use spacegate.Common.Parse.{trim, strip_prefix, parse_u64, is_ascii_digit}
use spacegate.Common.Result.{Result, ok, err, ◌>>=◌}
use spacegate.AiService.Bucket.{TenantRateLimit}

pub data ServiceError : Type 0 where
  bad_request : Str → ServiceError
  internal : Str → ServiceError
  gateway_timeout : Str → ServiceError
  payload_too_large : Str → ServiceError

pub record Config : Type 0 where
  pub tenant_rate_limit_prefix : Str
  pub rate_limit_rps : ℕ
  pub rate_limit_burst : ℕ
  pub rate_limit_cost : ℕ

pub record TenantRateLimitRule : Type 0 where
  pub tenant : Str
  pub model : Option Str
  pub path : Option Str
  pub policy : Option Str
  pub rps : ℕ
  pub burst : ℕ
  pub cost : ℕ
  pub ttl_secs : Option ℕ

pub record StoredTenantRateLimit : Type 0 where
  pub rps : ℕ
  pub burst : ℕ
  pub cost : ℕ
  pub ttl_secs : Option ℕ

-- `serde_json`: the two readers of a text, and the writer.
pub record Json : Type 0 where
  pub stored_from_str : Str → Option StoredTenantRateLimit
  pub limit_from_str : Str → Option TenantRateLimit
  pub to_string : StoredTenantRateLimit → Option Str

abbrev pub is_ascii_alphanumeric : ℕ → Bool
is_ascii_alphanumeric c =
    is_ascii_digit c
    || (if leb b'A' c then leb c b'Z' else false)
    || (if leb b'a' c then leb c b'z' else false)

unfoldable pub sanitize_code : ℕ → ℕ
sanitize_code c =
    if is_ascii_alphanumeric c || c == b':' || c == b'_' || c == b'-' || c == b'.' then c else b'_'

unfoldable pub sanitize_key : Str → Str
unfolding sanitize_code
sanitize_key [] = []
sanitize_key (c ∷ s) = sanitize_code c ∷ sanitize_key s

unfoldable pub global_rate_limit : Config → TenantRateLimit
global_rate_limit cfg = record {
  rps = cfg.rate_limit_rps;
  burst = cfg.rate_limit_burst;
  cost = max cfg.rate_limit_cost 1;
}

unfoldable pub tenant_rate_limit_candidate_keys :
    Config → (tenant model path policy : Str) → List Str
unfolding sanitize_key
tenant_rate_limit_candidate_keys cfg tenant model path policy =
    let base = cfg.tenant_rate_limit_prefix ++ sanitize_key tenant in
    let model = sanitize_key model in
    let path = sanitize_key path in
    let policy = sanitize_key policy in
    (base ++ codes ":model:" ++ (model ++ codes ":path:" ++ (path ++ codes ":policy:" ++ policy)))
    ∷ (base ++ codes ":model:" ++ (model ++ codes ":path:" ++ path))
    ∷ (base ++ codes ":model:" ++ (model ++ codes ":policy:" ++ policy))
    ∷ (base ++ codes ":path:" ++ (path ++ codes ":policy:" ++ policy))
    ∷ (base ++ codes ":model:" ++ model)
    ∷ (base ++ codes ":path:" ++ path)
    ∷ (base ++ codes ":policy:" ++ policy)
    ∷ base
    ∷ []

unfoldable pub non_empty_opt : Option Str → Option Str
non_empty_opt none = none
non_empty_opt (some v) = if is_empty (trim v) then none else some (trim v)

-- `push_str` of the name and the value where there is one.
unfoldable pub push_dimension : Str → Option Str → Str → Str
unfolding sanitize_key
push_dimension name none key = key
push_dimension name (some v) key = (key ++ name) ++ sanitize_key v

unfoldable pub tenant_rate_limit_rule_key : Config → TenantRateLimitRule → Str
unfolding sanitize_key non_empty_opt push_dimension
tenant_rate_limit_rule_key cfg rule =
    let base = cfg.tenant_rate_limit_prefix ++ sanitize_key (trim rule.tenant) in
    push_dimension (codes ":policy:") (non_empty_opt rule.policy) (
      push_dimension (codes ":path:") (non_empty_opt rule.path)
        (push_dimension (codes ":model:") (non_empty_opt rule.model) base))

-- What the loop over names and values has found.
pub record Dimensions : Type 0 where
  pub tenant : Str
  pub model : Option Str
  pub path : Option Str
  pub policy : Option Str

unfoldable pub found : Str → Str → Dimensions → Dimensions
found name value d =
    if str_eq name (codes "model")
    then record d { model = some value }
    else if str_eq name (codes "path")
    then record d { path = some value }
    else if str_eq name (codes "policy")
    then record d { policy = some value }
    else d

unfoldable pub read_pairs : List Str → Dimensions → Dimensions
unfolding found
read_pairs [] d = d
read_pairs (name ∷ []) d = d
read_pairs (name ∷ value ∷ parts) d = read_pairs parts (found name value d)

unfoldable pub tenant_rate_limit_rule_from_key :
    Config → Str → TenantRateLimit → Option ℕ → Option TenantRateLimitRule
unfolding read_pairs split strip_prefix
tenant_rate_limit_rule_from_key cfg key limit ttl_secs =
    elim (strip_prefix cfg.tenant_rate_limit_prefix key) [
      | none ↦ none
      | some rest ↦ elim (split b':' rest) [
        | [] ↦ none
        | tenant ∷ parts ↦
            if is_empty tenant
            then none
            else (let d =
                  read_pairs parts
                    (record { tenant = tenant; model = none; path = none; policy = none }) in
                some (record {
                  tenant = tenant;
                  model = d.model;
                  path = d.path;
                  policy = d.policy;
                  rps = limit.rps;
                  burst = limit.burst;
                  cost = max limit.cost 1;
                  ttl_secs = ttl_secs;
                }))
      ]
    ]

unfoldable pub validate_admin_rule_dimension : Str → Str → Result ServiceError (Unit {0})
validate_admin_rule_dimension name value =
    if any (λ c. c == b':') value
    then err (bad_request (name ++ codes " must not contain ':'"))
    else ok tt

unfoldable pub validate_policy_dimension : Str → Result ServiceError (Unit {0})
validate_policy_dimension policy =
    if str_eq policy (codes "abandon")
      || str_eq policy (codes "queue")
      || str_eq policy (codes "wait")
    then ok tt
    else err (bad_request (codes "policy must be abandon, queue, or wait"))

-- A check of a value that is there.
abbrev pub check_some :
    (Str → Result ServiceError (Unit {0})) → Option Str → Result ServiceError (Unit {0})
check_some check none = ok tt
check_some check (some v) = check v

unfoldable pub validate_tenant_rule_dimensions :
    TenantRateLimitRule → Result ServiceError (Unit {0})
unfolding validate_admin_rule_dimension validate_policy_dimension non_empty_opt
validate_tenant_rule_dimensions rule =
    if is_empty (trim rule.tenant) then err (bad_request (codes "tenant is required")) else (do
      checked ← validate_admin_rule_dimension (codes "tenant") (trim rule.tenant)
      checked ←
          check_some (validate_admin_rule_dimension (codes "model")) (non_empty_opt rule.model)
      checked ← check_some (validate_admin_rule_dimension (codes "path")) (non_empty_opt rule.path)
      check_some validate_policy_dimension (non_empty_opt rule.policy))

unfoldable pub validate_tenant_rate_limit_rule :
    TenantRateLimitRule → Result ServiceError (Unit {0})
validate_tenant_rate_limit_rule rule = do
  checked ← validate_tenant_rule_dimensions rule
  (if rule.rps == 0
      then err (bad_request (codes "rps must be greater than 0"))
      else if rule.burst == 0
      then err (bad_request (codes "burst must be greater than 0"))
      else if rule.cost == 0
      then err (bad_request (codes "cost must be greater than 0"))
      else if ltb rule.burst rule.cost
      then err (bad_request (codes "cost must be less than or equal to burst"))
      else ok tt)
