-- ===== src/K8s/Backend.antt =====
-- crates/config/src/service/k8s/convert/route_k8s_conv.rs: back ends, and their kinds in
-- crates/model/src/ext/k8s/helper_struct.rs.
pub mod Laws
use spacegate.Common.{ℕ, if◌then◌else◌, Str, codes, str_eq, Option, none, some, List, [], ◌∷◌}
use spacegate.Common.Result.{Result, ok, ◌>>=◌}
use spacegate.K8s.Model.{
  SgBackendProtocol, K8sServiceData, BackendHost, host, k8s_service, SgBackendRef,
}
use spacegate.K8s.Kube.{BackendObjectReference, HttpBackendRef, ConvError}
use spacegate.K8s.Plugins.{binding_filters, bindings_of}

pub data BackendObjectRefKind : Type 0 where
  service : BackendObjectRefKind
  external_http : BackendObjectRefKind
  external_https : BackendObjectRefKind
  file : BackendObjectRefKind

unfoldable pub kind_text : BackendObjectRefKind → Str
kind_text service = codes "Service"
kind_text external_http = codes "ExternalHttp"
kind_text external_https = codes "ExternalHttps"
kind_text file = codes "File"

unfoldable pub kind_of_text : Str → BackendObjectRefKind
kind_of_text value =
    if str_eq value (codes "Service")
    then service
    else if str_eq value (codes "ExternalHttp")
    then external_http
    else if str_eq value (codes "ExternalHttps")
    then external_https
    else if str_eq value (codes "File")
    then file
    else service

-- The kind of a host by the protocol.
abbrev pub host_kind : Option SgBackendProtocol → BackendObjectRefKind
host_kind none = external_http
host_kind (some SgBackendProtocol.http) = external_http
host_kind (some SgBackendProtocol.https) = external_https

-- The object reference of a host, by the protocol and port of the back end.
unfoldable pub inner_ref :
    BackendHost → Option SgBackendProtocol → Option ℕ → BackendObjectReference
unfolding kind_text
inner_ref (host name) protocol port = record {
  group = none;
  kind = some (kind_text (host_kind protocol));
  name = name;
  namespace = none;
  port = port;
}
inner_ref (k8s_service reference) protocol port = record {
  group = none;
  kind = some (kind_text service);
  name = reference.name;
  namespace = reference.namespace;
  port = port;
}
inner_ref (BackendHost.file path) protocol port = record {
  group = none;
  kind = some (kind_text file);
  name = path;
  namespace = none;
  port = none;
}

unfoldable pub backend_into_kube : SgBackendRef → HttpBackendRef
unfolding inner_ref binding_filters
backend_into_kube b = record {
  backend_ref = some (record {
    weight = b.weight;
    timeout_ms = b.timeout_ms;
    timeout_mode = b.timeout_mode;
    downgrade_http2 = b.downgrade_http2;
    inner = inner_ref b.host b.protocol b.port;
  });
  filters = some (binding_filters b.plugins);
}

-- The protocol and host of a reference; without a kind it is a service.
unfoldable pub host_of_ref : BackendObjectReference → Option SgBackendProtocol × BackendHost
unfolding kind_of_text
host_of_ref inner =
    let reference : K8sServiceData = record { name = inner.name; namespace = inner.namespace } in
    elim inner.kind [
      | none ↦ (none, k8s_service reference)
      | some kind ↦ elim (kind_of_text kind) [
        | service ↦ (none, k8s_service reference)
        | external_http ↦ (some SgBackendProtocol.http, host inner.name)
        | external_https ↦ (some SgBackendProtocol.https, host inner.name)
        | file ↦ (none, BackendHost.file inner.name)
      ]
    ]

unfoldable pub backend_from_kube : HttpBackendRef → Result ConvError (Option SgBackendRef)
unfolding host_of_ref bindings_of
backend_from_kube b = elim b.backend_ref [
  | none ↦ ok none
  | some backend ↦ ok (
      some (record {
        host = (host_of_ref backend.inner).1;
        port = backend.inner.port;
        timeout_ms = backend.timeout_ms;
        timeout_mode = backend.timeout_mode;
        protocol = (host_of_ref backend.inner).0;
        downgrade_http2 = backend.downgrade_http2;
        weight = backend.weight;
        plugins = bindings_of (elim b.filters [ none ↦ [] | some filters ↦ filters ]);
      }))
]

-- `filter_map` and `collect` of a rule's back ends.
unfoldable pub backends_from_kube : List HttpBackendRef → Result ConvError (List SgBackendRef)
unfolding backend_from_kube
backends_from_kube [] = ok []
backends_from_kube (b ∷ bs) = do
  backend ← backend_from_kube b
  rest ← backends_from_kube bs
  ok (elim backend [ none ↦ rest | some ref ↦ ref ∷ rest ])
