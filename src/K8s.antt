-- ===== src/K8s.antt =====
-- Routes as Kubernetes resources: crates/config/src/service/k8s/convert
pub mod Model
pub mod Kube
pub mod Plugins
pub mod Backend
pub mod Match
pub mod Rule
