-- ===== src/AiQueue.antt =====
-- The queue filter of the AI gateway: plugins/wasm/ai-gateway-queue/src
pub mod Policy
pub mod Config
pub mod Json
pub mod Lines
pub mod Parse
pub mod Headers
pub mod Filter
