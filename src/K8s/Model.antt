-- ===== src/K8s/Model.antt =====
-- crates/model/src/{http_route,route_match,plugin,gateway}.rs: the parts of a route that the
-- conversions read.
use spacegate.Common.{ℕ, Str, Bool, Option, List}
use spacegate.Common.Int.{ℤ}
use spacegate.Plugin.Instance.{PluginInstanceId}

pub data SgHttpPathMatch : Type 0 where
  exact : Str → Option Str → SgHttpPathMatch
  prefix : Str → Option Str → SgHttpPathMatch
  reg_exp : Str → Option Str → SgHttpPathMatch

pub data SgHttpHeaderMatch : Type 0 where
  exact : Str → Str → Option Str → SgHttpHeaderMatch
  reg_exp : Str → Str → Option Str → SgHttpHeaderMatch

pub data SgHttpQueryMatch : Type 0 where
  exact : Str → Str → SgHttpQueryMatch
  regular : Str → Str → SgHttpQueryMatch

-- A method match is the method's text.
pub record SgHttpRouteMatch : Type 0 where
  pub path : Option SgHttpPathMatch
  pub header : Option (List SgHttpHeaderMatch)
  pub query : Option (List SgHttpQueryMatch)
  pub method : Option (List Str)

pub data TimeoutMode : Type 0 where
  request : TimeoutMode
  disabled : TimeoutMode

pub data SgBackendProtocol : Type 0 where
  http : SgBackendProtocol
  https : SgBackendProtocol

pub data SgBalancePolicy : Type 0 where
  random : SgBalancePolicy
  ip_hash : SgBalancePolicy
  mcp_session : SgBalancePolicy

pub record K8sServiceData : Type 0 where
  pub name : Str
  pub namespace : Option Str

pub data BackendHost : Type 0 where
  host : Str → BackendHost
  k8s_service : K8sServiceData → BackendHost
  file : Str → BackendHost

-- The priority is an `i32`.
pub record PluginBinding : Type 0 where
  pub id : PluginInstanceId
  pub priority : ℤ

pub record SgBackendRef : Type 0 where
  pub host : BackendHost
  pub port : Option ℕ
  pub timeout_ms : Option ℕ
  pub timeout_mode : Option TimeoutMode
  pub protocol : Option SgBackendProtocol
  pub downgrade_http2 : Option Bool
  pub weight : Option ℕ
  pub plugins : List PluginBinding

pub record SgHttpRouteRule : Type 0 where
  pub matches : Option (List SgHttpRouteMatch)
  pub plugins : List PluginBinding
  pub backends : List SgBackendRef
  pub timeout_ms : Option ℕ
  pub timeout_mode : Option TimeoutMode
  pub balance_policy : Option SgBalancePolicy
