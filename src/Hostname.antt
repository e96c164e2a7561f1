-- ===== src/Hostname.antt =====
-- crates/kernel/src/service/http_route/match_hostname.rs
pub mod Node
pub mod Children
pub mod Rules
pub mod Lookup
pub mod Update
pub mod Modify
pub mod Iter
pub mod Tree
pub mod Exact
