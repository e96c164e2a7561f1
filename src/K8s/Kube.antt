-- ===== src/K8s/Kube.antt =====
-- The Kubernetes resources of crates/model/src/ext/k8s/crd/http_spaceroute.rs, and of the Gateway
-- API what the conversions build and match on. Filters that they never build or look into have no
-- fields, nor has a header filter what it adds and removes, which is nothing.
use spacegate.Common.{ℕ, Str, Bool, Option, List}
use spacegate.K8s.Model.{TimeoutMode}

pub data HttpPathMatch : Type 0 where
  exact : Str → HttpPathMatch
  path_prefix : Str → HttpPathMatch
  regular_expression : Str → HttpPathMatch

pub data HttpHeaderMatch : Type 0 where
  exact : Str → Str → HttpHeaderMatch
  regular_expression : Str → Str → HttpHeaderMatch

pub data HttpQueryParamMatch : Type 0 where
  exact : Str → Str → HttpQueryParamMatch
  regular_expression : Str → Str → HttpQueryParamMatch

pub record HttpRouteMatch : Type 0 where
  pub path : Option HttpPathMatch
  pub headers : Option (List HttpHeaderMatch)
  pub query_params : Option (List HttpQueryParamMatch)
  pub method : Option Str

pub data HttpPathModifier : Type 0 where
  replace_full_path : Str → HttpPathModifier
  replace_prefix_match : Str → HttpPathModifier

pub record HttpUrlRewriteFilter : Type 0 where
  pub hostname : Option Str
  pub path : Option HttpPathModifier

pub record HttpHeader : Type 0 where
  pub name : Str
  pub value : Str

pub record LocalObjectReference : Type 0 where
  pub group : Str
  pub kind : Str
  pub name : Str

pub data HttpRouteFilter : Type 0 where
  request_header_modifier : List HttpHeader → HttpRouteFilter
  response_header_modifier : HttpRouteFilter
  request_mirror : HttpRouteFilter
  request_redirect : HttpRouteFilter
  url_rewrite : HttpUrlRewriteFilter → HttpRouteFilter
  extension_ref : LocalObjectReference → HttpRouteFilter

pub record BackendObjectReference : Type 0 where
  pub group : Option Str
  pub kind : Option Str
  pub name : Str
  pub namespace : Option Str
  pub port : Option ℕ

pub record BackendRef : Type 0 where
  pub weight : Option ℕ
  pub timeout_ms : Option ℕ
  pub timeout_mode : Option TimeoutMode
  pub downgrade_http2 : Option Bool
  pub inner : BackendObjectReference

pub record HttpBackendRef : Type 0 where
  pub backend_ref : Option BackendRef
  pub filters : Option (List HttpRouteFilter)

pub record HttpRouteRule : Type 0 where
  pub matches : Option (List HttpRouteMatch)
  pub filters : Option (List HttpRouteFilter)
  pub backend_refs : Option (List HttpBackendRef)
  pub timeout_ms : Option ℕ
  pub timeout_mode : Option TimeoutMode

-- The errors of the conversions from resources, which are texts in the source.
pub data ConvError : Type 0 where
  url_rewrite_of_many_matches : ConvError
  header_modifier_of_many_matches : ConvError
  many_url_rewrites : ConvError
