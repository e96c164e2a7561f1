-- ===== src/AiService/Store/Events.antt =====
-- What happens to the stored rules, and the rules in force that it leaves.
use spacegate.Common.{◌≡◌, Str, str_eq, Option, none, some, List, [], ◌∷◌, ℕ, is_empty, false}
use spacegate.Common.Assoc.{put, remove}
use spacegate.Common.Parse.{trim}
use spacegate.Common.Result.{Result, ok, err}
use spacegate.AiService.Rules.{
  ServiceError, Config, TenantRateLimitRule, StoredTenantRateLimit, Json, Dimensions,
  validate_tenant_rule_dimensions, validate_tenant_rate_limit_rule,
}
use spacegate.AiService.Rules.Keys.{key_of, IsDimensions, dimensions_of}
use spacegate.AiService.Rules.Choice.{Rules, dimensions_eq}
use spacegate.AiService.Store.{Store, upsert_tenant_rate_limit_rule, delete_tenant_rate_limit_rule}

-- A call of the admin interface, with the answers of Redis; or a key expires.
pub data Event : Type 0 where
  upserted : (Str → Result ServiceError ℕ) → Option ServiceError → TenantRateLimitRule → Event
  deleted : Option ServiceError → TenantRateLimitRule → Event
  expired : (d : Dimensions) → IsDimensions d → Event

module _ (json : Json) (cfg : Config) where
  -- The JSON of a rule is written, and is read back.
  pub record IsJson : Type 0 where
    pub written : StoredTenantRateLimit → Str
    pub to_string_lem : (s : StoredTenantRateLimit) → json.to_string s ≡ some (written s)
    pub given : (s : StoredTenantRateLimit) → is_empty (trim (written s)) ≡ false
    pub stored_from_str_lem :
        (s : StoredTenantRateLimit) → json.stored_from_str (trim (written s)) ≡ some s

  unfoldable pub happens : Event → Store → Store
  happens (upserted ttl failed rule) store =
      (upsert_tenant_rate_limit_rule json cfg ttl failed rule store).0
  happens (deleted failed rule) store = (delete_tenant_rate_limit_rule cfg failed rule store).0
  happens (expired d i) store = remove str_eq (key_of cfg d) store

  unfoldable pub all_happen : List Event → Store → Store
  unfolding happens
  all_happen [] store = store
  all_happen (e ∷ es) store = all_happen es (happens e store)

-- The same on the rules by their dimensions.
unfoldable pub changes : Event → Rules → Rules
changes (upserted ttl failed rule) rules = elim (validate_tenant_rate_limit_rule rule) [
  | err e ↦ rules
  | ok checked ↦ elim failed [
    | some e ↦ rules
    | none ↦
        put dimensions_eq (dimensions_of rule)
          (record { rps = rule.rps; burst = rule.burst; cost = rule.cost }) rules
  ]
]
changes (deleted failed rule) rules = elim (validate_tenant_rule_dimensions rule) [
  | err e ↦ rules
  | ok checked ↦ elim failed [
    | some e ↦ rules
    | none ↦ remove dimensions_eq (dimensions_of rule) rules
  ]
]
changes (expired d i) rules = remove dimensions_eq d rules

unfoldable pub all_change : List Event → Rules → Rules
unfolding changes
all_change [] rules = rules
all_change (e ∷ es) rules = all_change es (changes e rules)
