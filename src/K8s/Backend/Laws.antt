-- ===== src/K8s/Backend/Laws.antt =====
-- Back ends that are written as resources and read again.
use spacegate.Common.{ℕ, ◌≡◌, refl, Option, none, some, List, [], ◌∷◌, map, All}
use spacegate.Common.Result.{ok}
use spacegate.K8s.Model.{
  SgBackendProtocol, BackendHost, host, k8s_service, SgBackendRef, PluginBinding, http, https,
}
use spacegate.K8s.Plugins.Laws.{IsFew, kept_bindings, bindings_of-binding_filters}
use spacegate.K8s.Plugins.{sort_bindings}
use spacegate.K8s.Backend.{
  kind_text, kind_of_text, inner_ref, backend_into_kube, host_of_ref, backend_from_kube,
  backends_from_kube,
}

-- What is left of a protocol: a host has HTTPS or HTTP, the others have none.
abbrev pub kept_protocol : BackendHost → Option SgBackendProtocol → Option SgBackendProtocol
kept_protocol (host name) none = some http
kept_protocol (host name) (some protocol) = some protocol
kept_protocol (k8s_service service) protocol = none
kept_protocol (BackendHost.file path) protocol = none

-- What is left of a port: a file has none.
abbrev pub kept_port : BackendHost → Option ℕ → Option ℕ
kept_port (host name) port = port
kept_port (k8s_service service) port = port
kept_port (BackendHost.file path) port = none

unfoldable pub kept_backend :
    (List PluginBinding → List PluginBinding) → SgBackendRef → SgBackendRef
kept_backend rank b = record b {
  protocol = kept_protocol b.host b.protocol;
  port = kept_port b.host b.port;
  plugins = kept_bindings rank b.plugins;
}

host_of_ref-inner_ref :
    (h : BackendHost) (protocol : Option SgBackendProtocol) (port : Option ℕ)
    → (host_of_ref (inner_ref h protocol port) ≡ (kept_protocol h protocol, h))
      × ((inner_ref h protocol port).port ≡ kept_port h port)
unfolding host_of_ref inner_ref kind_of_text kind_text
host_of_ref-inner_ref (host name) none port = (refl, refl)
host_of_ref-inner_ref (host name) (some http) port = (refl, refl)
host_of_ref-inner_ref (host name) (some https) port = (refl, refl)
host_of_ref-inner_ref (k8s_service service) protocol port = (refl, refl)
host_of_ref-inner_ref (BackendHost.file path) protocol port = (refl, refl)

backend_from_kube-into :
    (b : SgBackendRef)
    → IsFew b.plugins
    → backend_from_kube (backend_into_kube b) ≡ ok (some (kept_backend sort_bindings b))
unfolding backend_from_kube backend_into_kube kept_backend
backend_from_kube-into b few =
    let (same_host, same_port) = host_of_ref-inner_ref b.host b.protocol b.port in
    rw (same_host, same_port, bindings_of-binding_filters [] b.plugins refl few) refl

pub backends_from_kube-into :
    (bs : List SgBackendRef)
    → All (λ b. IsFew b.plugins) bs
    → backends_from_kube (map backend_into_kube bs) ≡ ok (map (kept_backend sort_bindings) bs)
unfolding backends_from_kube
backends_from_kube-into [] few = refl
backends_from_kube-into (b ∷ bs) few =
    rw (backend_from_kube-into b few.0, backends_from_kube-into bs few.1) refl
