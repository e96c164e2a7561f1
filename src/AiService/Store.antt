-- ===== src/AiService/Store.antt =====
-- The limits in Redis: the rest of binary/ai-gateway-service/src/app/ratelimit.rs, and the check of
-- handlers.rs. The store is a map from keys to texts. Which commands fail and how long a key lives
-- are arguments.
pub mod Events
pub mod Laws
pub mod Resolve
use spacegate.Common.{
  ℕ, zero, suc, max, leb, ltb, ◌==◌, ◌&&◌, ◌||◌, ◌+◌, if◌then◌else◌, Str, codes, str_eq, is_empty,
  split, compare_str, Ordering, Bool, true, false, not, Option, none, some, List, [], ◌∷◌, ◌++◌,
}
use spacegate.Common.Assoc.{get, put, remove}
use spacegate.Common.Parse.{trim, contains, parse_u64}
use spacegate.Common.Result.{Result, ok, err, ◌>>=◌}
use spacegate.Common.Sort.{sort_by}
use spacegate.AiService.Bucket.{TenantRateLimit, Bucket, Answer, token_bucket}
use spacegate.AiService.Rules.{
  ServiceError, bad_request, internal, Config, TenantRateLimitRule, StoredTenantRateLimit, Json,
  Dimensions, sanitize_key, global_rate_limit, tenant_rate_limit_candidate_keys, non_empty_opt,
  tenant_rate_limit_rule_key, tenant_rate_limit_rule_from_key, validate_admin_rule_dimension,
  validate_policy_dimension, validate_tenant_rule_dimensions, validate_tenant_rate_limit_rule,
}

pub record ParsedStoredTenantRateLimit : Type 0 where
  pub limit : TenantRateLimit
  pub ttl_secs : Option ℕ

-- The third value, if there is one that can be read.
abbrev pub csv_cost : List Str → ℕ
csv_cost [] = 1
csv_cost (v ∷ vs) = elim (parse_u64 (trim v)) [ none ↦ 1 | some cost ↦ cost ]

unfoldable pub parse_tenant_rate_limit_csv : Str → Option TenantRateLimit
unfolding split parse_u64 trim
parse_tenant_rate_limit_csv raw = elim (split b',' raw) [
  | [] ↦ none
  | first ∷ [] ↦ none
  | first ∷ second ∷ parts ↦ elim (parse_u64 (trim first)) [
    | none ↦ none
    | some rps ↦ elim (parse_u64 (trim second)) [
      | none ↦ none
      | some burst ↦ some (record { rps = rps; burst = burst; cost = max (csv_cost parts) 1 })
    ]
  ]
]

unfoldable pub parse_stored_tenant_rate_limit : Json → Str → Option ParsedStoredTenantRateLimit
unfolding parse_tenant_rate_limit_csv
parse_stored_tenant_rate_limit json raw =
    let raw = trim raw in
    if is_empty raw then none else elim (json.stored_from_str raw) [
      | some stored ↦ some (record {
        limit = record { rps = stored.rps; burst = stored.burst; cost = max stored.cost 1 };
        ttl_secs = stored.ttl_secs;
      })
      | none ↦ elim (json.limit_from_str raw) [
        | some limit ↦
            some (record { limit = record limit { cost = max limit.cost 1 }; ttl_secs = none })
        | none ↦ elim (parse_tenant_rate_limit_csv raw) [
          | none ↦ none
          | some limit ↦ some (record { limit = limit; ttl_secs = none })
        ]
      ]
    ]

-- A `GET`
abbrev pub Get : Type 0
Get = Str → Result ServiceError (Option Str)

-- `raw.and_then(parse)`
unfoldable pub parsed : Json → Option Str → Option ParsedStoredTenantRateLimit
unfolding parse_stored_tenant_rate_limit
parsed json none = none
parsed json (some raw) = parse_stored_tenant_rate_limit json raw

-- The first key with a limit, and the limit.
unfoldable pub first_stored :
    Json → Get → List Str → Result ServiceError (Option (Str × ParsedStoredTenantRateLimit))
unfolding parsed
first_stored json read [] = ok none
first_stored json read (key ∷ keys) =
    let rest = first_stored json read keys in
    elim (read key) [
      | err e ↦ err e
      | ok raw ↦ elim (parsed json raw) [ none ↦ rest | some stored ↦ ok (some (key, stored)) ]
    ]

unfoldable pub resolve_rate_limit :
    Json → Config → Get → (tenant model path policy : Str) → Result ServiceError TenantRateLimit
unfolding first_stored tenant_rate_limit_candidate_keys global_rate_limit
resolve_rate_limit json cfg read tenant model path policy = do
  stored ← first_stored json read (tenant_rate_limit_candidate_keys cfg tenant model path policy)
  (elim stored [ none ↦ ok (global_rate_limit cfg) | some (key, s) ↦ ok s.limit ])

pub record TenantRateLimitResolveView : Type 0 where
  pub tenant : Str
  pub model : Str
  pub path : Str
  pub policy : Str
  pub rps : ℕ
  pub burst : ℕ
  pub cost : ℕ
  pub matched_key : Option Str
  pub fallback_global : Bool
  pub candidate_keys : List Str

pub record TenantRateLimitResolveQuery : Type 0 where
  pub tenant : Str
  pub model : Option Str
  pub path : Option Str
  pub policy : Option Str

abbrev pub unwrap_or : Str → Option Str → Str
unwrap_or d none = d
unwrap_or d (some s) = s

unfoldable pub resolve_tenant_rate_limit_rule :
    Json
    → Config
    → Get
    → TenantRateLimitResolveQuery
    → Result ServiceError TenantRateLimitResolveView
unfolding first_stored tenant_rate_limit_candidate_keys global_rate_limit non_empty_opt
    validate_admin_rule_dimension validate_policy_dimension
resolve_tenant_rate_limit_rule json cfg read query =
    let tenant = trim query.tenant in
    let model = unwrap_or (codes "default") (non_empty_opt query.model) in
    let path = unwrap_or (codes "/") (non_empty_opt query.path) in
    let policy = unwrap_or (codes "abandon") (non_empty_opt query.policy) in
    let candidate_keys = tenant_rate_limit_candidate_keys cfg tenant model path policy in
    let view : TenantRateLimit → Option Str → Bool → TenantRateLimitResolveView =
      λ limit matched fallback. record {
        tenant = tenant;
        model = model;
        path = path;
        policy = policy;
        rps = limit.rps;
        burst = limit.burst;
        cost = limit.cost;
        matched_key = matched;
        fallback_global = fallback;
        candidate_keys = candidate_keys;
      } in
    if is_empty tenant then err (bad_request (codes "tenant is required")) else (do
      checked ← validate_admin_rule_dimension (codes "tenant") tenant
      checked ← validate_admin_rule_dimension (codes "model") model
      checked ← validate_admin_rule_dimension (codes "path") path
      checked ← validate_policy_dimension policy
      stored ← first_stored json read candidate_keys
      (elim stored [
        | none ↦ ok (view (global_rate_limit cfg) none true)
        | some (key, s) ↦ ok (view s.limit (some key) false)
      ]))

-- The texts by key.
abbrev pub Store : Type 0
Store = List (Str × Str)

-- A rule with its key and what is left of its time, as `TenantRateLimitRuleView` has them.
pub record TenantRateLimitRuleView : Type 0 where
  pub key : Str
  pub rule : TenantRateLimitRule
  pub ttl_remaining_secs : Option ℕ

-- The answer to a `TTL`, where it is positive.
unfoldable pub read_ttl_remaining_secs : (Str → Result ServiceError ℕ) → Str → Option ℕ
read_ttl_remaining_secs ttl key = elim (ttl key) [
  | err e ↦ none
  | ok secs ↦ if ltb 0 secs then some secs else none
]

-- The `SET` takes an expiration of at least a second; it fails or not.
unfoldable pub upsert_tenant_rate_limit_rule :
    Json
    → Config
    → (Str → Result ServiceError ℕ)
    → Option ServiceError
    → TenantRateLimitRule
    → Store
    → Store × Result ServiceError TenantRateLimitRuleView
upsert_tenant_rate_limit_rule json cfg ttl failed rule store =
    elim (validate_tenant_rate_limit_rule rule) [
      | err e ↦ (store, err e)
      | ok checked ↦
          let rule = record rule { cost = max rule.cost 1 } in
          let key = tenant_rate_limit_rule_key cfg rule in
          let stored : StoredTenantRateLimit = record {
            rps = rule.rps;
            burst = rule.burst;
            cost = rule.cost;
            ttl_secs = rule.ttl_secs;
          } in
          elim (json.to_string stored) [
            | none ↦ (store, err (internal (codes "serialize tenant rate limit")))
            | some value ↦ elim failed [
              | some e ↦ (store, err e)
              | none ↦ (
                put str_eq key value store,
                ok (record {
                  key = key;
                  rule = rule;
                  ttl_remaining_secs = read_ttl_remaining_secs ttl key;
                }),
              )
            ]
          ]
    ]

-- The number of keys that are gone.
unfoldable pub delete_tenant_rate_limit_rule :
    Config → Option ServiceError → TenantRateLimitRule → Store → Store × Result ServiceError ℕ
delete_tenant_rate_limit_rule cfg failed rule store = elim (validate_tenant_rule_dimensions rule) [
  | err e ↦ (store, err e)
  | ok checked ↦
      let key = tenant_rate_limit_rule_key cfg rule in
      elim failed [
        | some e ↦ (store, err e)
        | none ↦
            (remove str_eq key store, ok (elim (get str_eq key store) [ none ↦ 0 | some raw ↦ 1 ]))
      ]
]

abbrev pub ends_with : Str → Str → Bool
ends_with suffix [] = is_empty suffix
ends_with suffix (c ∷ s) = str_eq suffix (c ∷ s) || ends_with suffix s

unfoldable pub is_legacy_tenant_rate_limit_key : Str → Bool
is_legacy_tenant_rate_limit_key key =
    ends_with (codes ":rps") key || ends_with (codes ":burst") key || ends_with (codes ":cost") key

unfoldable pub tenant_rule_matches_filters : TenantRateLimitRule → List (Str × Str) → Bool
unfolding contains trim
tenant_rule_matches_filters rule [] = true
tenant_rule_matches_filters rule ((name, value) ∷ filters) =
    let rest = tenant_rule_matches_filters rule filters in
    let value = trim value in
    if is_empty value
    then rest
    else if (if str_eq name (codes "tenant")
        then contains value rule.tenant
        else if str_eq name (codes "model")
        then contains value (unwrap_or [] rule.model)
        else if str_eq name (codes "path")
        then contains value (unwrap_or [] rule.path)
        else if str_eq name (codes "policy")
        then str_eq (unwrap_or [] rule.policy) value
        else true)
    then rest
    else false

abbrev pub one_if_some : Option Str → ℕ
one_if_some none = 0
one_if_some (some s) = 1

unfoldable pub tenant_rule_specificity_rule : TenantRateLimitRule → ℕ
unfolding non_empty_opt
tenant_rule_specificity_rule rule =
    one_if_some (non_empty_opt rule.model)
    + one_if_some (non_empty_opt rule.path)
    + one_if_some (non_empty_opt rule.policy)

-- One key of the scan, with the text that is read under it.
unfoldable pub listed :
    Json
    → Config
    → (Str → Result ServiceError ℕ)
    → List (Str × Str)
    → Str
    → Option Str
    → Option TenantRateLimitRuleView
unfolding is_legacy_tenant_rate_limit_key parsed tenant_rate_limit_rule_from_key
    tenant_rule_matches_filters read_ttl_remaining_secs
listed json cfg ttl filters key raw =
    if is_legacy_tenant_rate_limit_key key then none else elim (parsed json raw) [
      | none ↦ none
      | some stored ↦ elim (tenant_rate_limit_rule_from_key cfg key stored.limit stored.ttl_secs) [
        | none ↦ none
        | some rule ↦
            let rule = record rule { cost = max rule.cost 1 } in
            if tenant_rule_matches_filters rule filters
            then some (record {
              key = key;
              rule = rule;
              ttl_remaining_secs = read_ttl_remaining_secs ttl key;
            })
            else none
      ]
    ]

-- The keys that the scan finds, one after another.
unfoldable pub list_keys :
    Json
    → Config
    → (Str → Result ServiceError ℕ)
    → Get
    → List (Str × Str)
    → List Str
    → Result ServiceError (List TenantRateLimitRuleView)
unfolding listed
list_keys json cfg ttl read filters [] = ok []
list_keys json cfg ttl read filters (key ∷ keys) =
    let rest = list_keys json cfg ttl read filters keys in
    if is_legacy_tenant_rate_limit_key key then rest else (do
      raw ← read key
      rules ← rest
      ok (elim (listed json cfg ttl filters key raw) [ none ↦ rules | some v ↦ v ∷ rules ]))

-- More dimensions first, then by key.
unfoldable pub view_before : TenantRateLimitRuleView → TenantRateLimitRuleView → Bool
unfolding tenant_rule_specificity_rule
view_before a b =
    let m = tenant_rule_specificity_rule a.rule in
    let n = tenant_rule_specificity_rule b.rule in
    ltb n m || (m == n && elim (compare_str a.key b.key) [ Ordering.lt ↦ true | _ ↦ false ])

unfoldable pub list_tenant_rate_limit_rules :
    Json
    → Config
    → (Str → Result ServiceError ℕ)
    → Get
    → List (Str × Str)
    → List Str
    → Result ServiceError (List TenantRateLimitRuleView)
unfolding list_keys sort_by view_before
list_tenant_rate_limit_rules json cfg ttl read filters scanned = do
  rules ← list_keys json cfg ttl read filters scanned
  ok (sort_by view_before rules)
