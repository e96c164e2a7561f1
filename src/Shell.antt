-- ===== src/Shell.antt =====
-- The shell: how configuration events change what runs, crates/shell/src
pub mod Retrieve
pub mod Memory
pub mod Running
pub mod Handler
pub mod Sync
