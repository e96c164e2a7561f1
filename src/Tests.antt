-- ===== src/Tests.antt =====
-- Runs of the model, and the theorems at concrete inputs.
mod Data
mod Hostname
mod Route
mod Plugin
mod Balancer
mod Gateway
mod Utils
mod Callback
mod AiQueue
mod PluginName
mod Wasm
mod K8s
mod Shell
mod Maintenance
mod AiService
mod Jobs
mod Metrics
mod StoredText
mod Poll
mod Enqueue
mod Bodies
