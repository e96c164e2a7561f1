-- ===== src/Utils.antt =====
-- Small helpers: crates/kernel/src/utils
pub mod SchemaPort
pub mod ParseHost
