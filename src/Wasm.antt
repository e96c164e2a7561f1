-- ===== src/Wasm.antt =====
-- The host of WebAssembly plugins: crates/plugin-wasm/src
pub mod SharedData
pub mod SharedQueue
