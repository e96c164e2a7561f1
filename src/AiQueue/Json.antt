-- ===== src/AiQueue/Json.antt =====
-- `AiGatewayConfig::apply_json` of plugins/wasm/ai-gateway-queue/src/lib.rs, with `serde_json` as the
-- record `Json`.
use spacegate.Common.{
  ℕ, if◌then◌else◌, Str, codes, is_empty, Bool, Option, none, some, List, [], ◌∷◌,
}
use spacegate.Common.Parse.{trim}
use spacegate.AiQueue.Config.{AiGatewayConfig, parse_csv}

-- What the code uses of `serde_json`: the parser, and the accessors of a value.
pub record Json : Type 1 where
  pub Value : Type 0
  pub from_slice : Str → Option Value
  pub get : Value → Str → Option Value
  pub as_str : Value → Option Str
  pub as_u64 : Value → Option ℕ
  pub as_bool : Value → Option Bool
  pub as_array : Value → Option (List Value)

-- `or_else`, and `unwrap_or_default` of a list
abbrev pub or_else {ℓ} : {A : Type ℓ} → Option A → Option A → Option A
or_else (some a) o = some a
or_else none o = o

abbrev pub or_nothing : Option (List Str) → List Str
or_nothing none = []
or_nothing (some l) = l

module _ (j : Json) where
  open j use {Value, get, as_str, as_u64, as_bool, as_array}

  unfoldable pub value_at : Value → List Str → Option Value
  value_at value [] = some value
  value_at value (key ∷ path) = elim (get value key) [
    | none ↦ none
    | some current ↦ value_at current path
  ]

  unfoldable pub string_at : Value → List Str → Option Str
  unfolding value_at
  string_at value path = elim (value_at value path) [ none ↦ none | some v ↦ as_str v ]

  -- The setters give the new value of their target.
  unfoldable pub set_string : Value → List Str → Str → Str
  unfolding string_at trim
  set_string value path target = elim (string_at value path) [
    | none ↦ target
    | some v ↦ if is_empty (trim v) then target else v
  ]

  unfoldable pub set_u64 : Value → List Str → ℕ → ℕ
  unfolding value_at
  set_u64 value path target = elim (value_at value path) [
    | none ↦ target
    | some v ↦ elim (as_u64 v) [ none ↦ target | some n ↦ n ]
  ]

  unfoldable pub set_bool : Value → List Str → Bool → Bool
  unfolding value_at
  set_bool value path target = elim (value_at value path) [
    | none ↦ target
    | some v ↦ elim (as_bool v) [ none ↦ target | some b ↦ b ]
  ]

  -- `filter_map(as_str)`
  unfoldable pub strings_of : List Value → List Str
  strings_of [] = []
  strings_of (v ∷ vs) =
      let rest = strings_of vs in elim (as_str v) [ none ↦ rest | some s ↦ s ∷ rest ]

  unfoldable pub string_vec_at : Value → List Str → Option (List Str)
  unfolding value_at parse_csv strings_of
  string_vec_at value path = elim (value_at value path) [
    | none ↦ none
    | some v ↦ elim (as_str v) [
      | some raw ↦ some (parse_csv raw)
      | none ↦ elim (as_array v) [ none ↦ none | some vs ↦ some (strings_of vs) ]
    ]
  ]

  unfoldable pub apply_json : Value → AiGatewayConfig → AiGatewayConfig
  unfolding set_string set_u64 set_bool string_vec_at string_at
  apply_json value cfg = record {
    service_cluster =
        set_string value (codes "service" ∷ codes "cluster" ∷ [])
          (set_string value (codes "service_cluster" ∷ []) cfg.service_cluster);
    service_authority =
        set_string value (codes "service" ∷ codes "authority" ∷ [])
          (set_string value (codes "service_authority" ∷ []) cfg.service_authority);
    rate_limit_path =
        set_string value (codes "paths" ∷ codes "rate_limit" ∷ [])
          (set_string value (codes "rate_limit_path" ∷ []) cfg.rate_limit_path);
    enqueue_path =
        set_string value (codes "paths" ∷ codes "enqueue" ∷ [])
          (set_string value (codes "enqueue_path" ∷ []) cfg.enqueue_path);
    wait_path =
        set_string value (codes "paths" ∷ codes "wait" ∷ [])
          (set_string value (codes "wait_path" ∷ []) cfg.wait_path);
    service_timeout_ms =
        set_u64 value (codes "service" ∷ codes "timeout_ms" ∷ [])
          (set_u64 value (codes "service_timeout_ms" ∷ []) cfg.service_timeout_ms);
    require_policy =
        set_bool value (codes "policies" ∷ codes "require" ∷ [])
          (set_bool value (codes "require_policy" ∷ []) cfg.require_policy);
    policy_header =
        set_string value (codes "headers" ∷ codes "policy" ∷ [])
          (set_string value (codes "policy_header" ∷ []) cfg.policy_header);
    tenant_header =
        set_string value (codes "headers" ∷ codes "tenant" ∷ [])
          (set_string value (codes "tenant_header" ∷ []) cfg.tenant_header);
    model_header =
        set_string value (codes "headers" ∷ codes "model" ∷ [])
          (set_string value (codes "model_header" ∷ []) cfg.model_header);
    priority_header =
        set_string value (codes "headers" ∷ codes "priority" ∷ [])
          (set_string value (codes "priority_header" ∷ []) cfg.priority_header);
    default_policy =
        or_else (string_at value (codes "default_policy" ∷ []))
          (string_at value (codes "policies" ∷ codes "default" ∷ []));
    priority_enabled =
        set_bool value (codes "priority" ∷ codes "enabled" ∷ [])
          (set_bool value (codes "priority_enabled" ∷ []) cfg.priority_enabled);
    default_priority =
        set_string value (codes "priority" ∷ codes "default" ∷ [])
          (set_string value (codes "default_priority" ∷ []) cfg.default_priority);
    high_priority_models = or_nothing (
        or_else (string_vec_at value (codes "priority" ∷ codes "high_models" ∷ []))
          (string_vec_at value (codes "high_priority_models" ∷ [])));
    high_priority_tenants = or_nothing (
        or_else (string_vec_at value (codes "priority" ∷ codes "high_tenants" ∷ []))
          (string_vec_at value (codes "high_priority_tenants" ∷ [])));
    low_priority_models = or_nothing (
        or_else (string_vec_at value (codes "priority" ∷ codes "low_models" ∷ []))
          (string_vec_at value (codes "low_priority_models" ∷ [])));
    low_priority_tenants = or_nothing (
        or_else (string_vec_at value (codes "priority" ∷ codes "low_tenants" ∷ []))
          (string_vec_at value (codes "low_priority_tenants" ∷ [])));
  }
