-- ===== src/AiService.antt =====
-- The AI gateway service: binary/ai-gateway-service/src/app
pub mod Bodies
pub mod Enqueue
pub mod Streams
pub mod Bucket
pub mod Rules
pub mod Store
pub mod Effects
pub mod Metrics
pub mod Dates
pub mod Poll
pub mod Jobs
