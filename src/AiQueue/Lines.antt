-- ===== src/AiQueue/Lines.antt =====
-- `AiGatewayConfig::apply_legacy_lines` of plugins/wasm/ai-gateway-queue/src/lib.rs
use spacegate.Common.{if◌then◌else◌, Str, codes, str_eq, split_once, none, some, List, [], ◌∷◌}
use spacegate.Common.Parse.{trim, trim_chars, lines, parse_u64, parse_bool}
use spacegate.AiQueue.Config.{AiGatewayConfig, parse_csv, unwrap_or}

-- The `match key` of a line.
unfoldable pub apply_key : Str → Str → AiGatewayConfig → AiGatewayConfig
unfolding parse_u64 parse_bool parse_csv
apply_key key value cfg =
    if str_eq key (codes "service_cluster")
    then record cfg { service_cluster = value }
    else if str_eq key (codes "service_authority")
    then record cfg { service_authority = value }
    else if str_eq key (codes "rate_limit_path")
    then record cfg { rate_limit_path = value }
    else if str_eq key (codes "enqueue_path")
    then record cfg { enqueue_path = value }
    else if str_eq key (codes "wait_path")
    then record cfg { wait_path = value }
    else if str_eq key (codes "service_timeout_ms")
    then record cfg { service_timeout_ms = unwrap_or (parse_u64 value) cfg.service_timeout_ms }
    else if str_eq key (codes "require_policy")
    then record cfg { require_policy = unwrap_or (parse_bool value) cfg.require_policy }
    else if str_eq key (codes "policy_header")
    then record cfg { policy_header = value }
    else if str_eq key (codes "tenant_header")
    then record cfg { tenant_header = value }
    else if str_eq key (codes "model_header")
    then record cfg { model_header = value }
    else if str_eq key (codes "priority_header")
    then record cfg { priority_header = value }
    else if str_eq key (codes "default_policy")
    then record cfg { default_policy = some value }
    else if str_eq key (codes "priority_enabled")
    then record cfg { priority_enabled = unwrap_or (parse_bool value) cfg.priority_enabled }
    else if str_eq key (codes "default_priority")
    then record cfg { default_priority = value }
    else if str_eq key (codes "high_priority_models")
    then record cfg { high_priority_models = parse_csv value }
    else if str_eq key (codes "low_priority_models")
    then record cfg { low_priority_models = parse_csv value }
    else if str_eq key (codes "high_priority_tenants")
    then record cfg { high_priority_tenants = parse_csv value }
    else if str_eq key (codes "low_priority_tenants")
    then record cfg { low_priority_tenants = parse_csv value }
    else cfg

unfoldable pub apply_line : Str → AiGatewayConfig → AiGatewayConfig
unfolding split_once trim trim_chars apply_key
apply_line line cfg = elim (split_once b':' line) [
  | none ↦ cfg
  | some (key, value) ↦
      apply_key (trim_chars (codes "\"'{, ") (trim key)) (trim_chars (codes "\"', ") (trim value))
        cfg
]

unfoldable pub apply_lines : List Str → AiGatewayConfig → AiGatewayConfig
unfolding apply_line
apply_lines [] cfg = cfg
apply_lines (line ∷ rest) cfg = apply_lines rest (apply_line line cfg)

unfoldable pub apply_legacy_lines : Str → AiGatewayConfig → AiGatewayConfig
unfolding lines apply_lines
apply_legacy_lines text cfg = apply_lines (lines text) cfg
