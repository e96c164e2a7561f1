-- ===== src/AiQueue/Parse.antt =====
-- `AiGatewayConfig::parse` of plugins/wasm/ai-gateway-queue/src/lib.rs
pub mod Laws
use spacegate.Common.{if◌then◌else◌, Str, is_empty, none, some}
use spacegate.AiQueue.Config.{AiGatewayConfig, default_config, normalized}
use spacegate.AiQueue.Json.{Json, apply_json}
use spacegate.AiQueue.Lines.{apply_legacy_lines}

-- `lossy` is `String::from_utf8_lossy`.
unfoldable pub parse : (j : Json) (lossy : Str → Str) → Str → AiGatewayConfig
parse j lossy raw = if is_empty raw then default_config else elim (j.from_slice raw) [
  | some value ↦ normalized (apply_json j value default_config)
  | none ↦ normalized (apply_legacy_lines (lossy raw) default_config)
]
