-- ===== src/AiQueue/Config.antt =====
-- `AiGatewayConfig` of plugins/wasm/ai-gateway-queue/src/lib.rs: its defaults, and the form that it
-- is brought into.
use spacegate.Common.{
  ℕ, if◌then◌else◌, Str, codes, to_ascii_lowercase, is_empty, starts_with_code, split, keep, not,
  Bool, true, ◌||◌, Option, none, some, List, [], map,
}
use spacegate.Common.Parse.{trim}
use spacegate.AiQueue.Policy.{normalize_policy, normalize_priority}

pub record AiGatewayConfig : Type 0 where
  pub service_cluster : Str
  pub service_authority : Str
  pub rate_limit_path : Str
  pub enqueue_path : Str
  pub wait_path : Str
  pub service_timeout_ms : ℕ
  pub require_policy : Bool
  pub policy_header : Str
  pub tenant_header : Str
  pub model_header : Str
  pub priority_header : Str
  pub default_policy : Option Str
  pub priority_enabled : Bool
  pub default_priority : Str
  pub high_priority_models : List Str
  pub low_priority_models : List Str
  pub high_priority_tenants : List Str
  pub low_priority_tenants : List Str

-- `Default::default`
abbrev pub default_config : AiGatewayConfig
default_config = record {
  service_cluster = codes "ai-gateway-service";
  service_authority = codes "ai-gateway-service";
  rate_limit_path = codes "/v1/ratelimit/check";
  enqueue_path = codes "/v1/queue/enqueue";
  wait_path = codes "/v1/queue/enqueue-and-wait";
  service_timeout_ms = 65000;
  require_policy = true;
  policy_header = codes "x-ratelimit-policy";
  tenant_header = codes "x-tenant-id";
  model_header = codes "x-model";
  priority_header = codes "x-queue-priority";
  default_policy = none;
  priority_enabled = true;
  default_priority = codes "normal";
  high_priority_models = [];
  low_priority_models = [];
  high_priority_tenants = [];
  low_priority_tenants = [];
}

unfoldable pub parse_csv : Str → List Str
unfolding split trim
parse_csv value = keep (λ v. not (is_empty v)) (map trim (split b',' value))

unfoldable pub normalize_header_name : Str → Str → Str
unfolding trim
normalize_header_name value fallback =
    let v = to_ascii_lowercase (trim value) in
    if is_empty v || starts_with_code b':' v then fallback else v

-- `value.parse().unwrap_or(..)`
abbrev pub unwrap_or {ℓ} : {A : Type ℓ} → Option A → A → A
unwrap_or none d = d
unwrap_or (some a) d = a

unfoldable pub normalized : AiGatewayConfig → AiGatewayConfig
unfolding normalize_header_name normalize_policy normalize_priority
normalized cfg = record cfg {
  policy_header = normalize_header_name cfg.policy_header (codes "x-ratelimit-policy");
  tenant_header = normalize_header_name cfg.tenant_header (codes "x-tenant-id");
  model_header = normalize_header_name cfg.model_header (codes "x-model");
  priority_header = normalize_header_name cfg.priority_header (codes "x-queue-priority");
  default_priority = unwrap_or (normalize_priority cfg.default_priority) (codes "normal");
  default_policy = elim cfg.default_policy [ none ↦ none | some value ↦ normalize_policy value ];
}
