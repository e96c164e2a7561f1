-- ===== src/Plugin.antt =====
-- The plugin crate: crates/plugin/src
pub mod Instance
pub mod Name
pub mod Repository
pub mod Maintenance
