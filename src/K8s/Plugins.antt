-- ===== src/K8s/Plugins.antt =====
-- The plugins of a rule or back end as extension references: crates/config/src/service/k8s/convert/
-- filter_k8s_conv.rs, and the sorts and numberings of route_k8s_conv.rs.
pub mod Ranked
pub mod Laws
use spacegate.Common.{
  ℕ, suc, ◌+◌, ◌*◌, ◌-◌, ◌%◌, ◌^◌, Bool, true, false, not, if◌then◌else◌, ltb, codes, Option, none,
  some, List, [], ◌∷◌, keep,
}
use mathlib.Core.List.{filter_map}
use spacegate.Common.Sort.{sort_by}
use spacegate.Common.Int.{ℤ, pos, negsuc, leb_ℤ}
use spacegate.Plugin.Instance.{PluginInstanceName, anon, named, mono, PluginInstanceId}
use spacegate.K8s.Model.{PluginBinding}
use spacegate.K8s.Kube.{
  LocalObjectReference, HttpRouteFilter, request_header_modifier, response_header_modifier,
  request_mirror, request_redirect, url_rewrite, extension_ref,
}

unfoldable pub to_http_route_filter : PluginInstanceId → Option HttpRouteFilter
to_http_route_filter id = elim id.name [
  | anon uid ↦ none
  | named name ↦
      some (extension_ref (record { group = id.code; kind = codes "sgfilter"; name = name }))
  | mono ↦ none
]

unfoldable pub from_http_route_filter : HttpRouteFilter → Option PluginInstanceId
from_http_route_filter (request_header_modifier headers) = none
from_http_route_filter response_header_modifier = none
from_http_route_filter request_mirror = none
from_http_route_filter request_redirect = none
from_http_route_filter (url_rewrite rewrite) = none
from_http_route_filter (extension_ref reference) =
    some (record { code = reference.group; name = named reference.name })

-- `sort_by(|left, right| right.priority.cmp(&left.priority))`
abbrev pub higher : PluginBinding → PluginBinding → Bool
higher left right = not (leb_ℤ left.priority right.priority)

unfoldable pub sort_bindings : List PluginBinding → List PluginBinding
unfolding sort_by
sort_bindings = sort_by higher

-- The filters of the bindings.
unfoldable pub binding_filters : List PluginBinding → List HttpRouteFilter
unfolding to_http_route_filter sort_bindings filter_map
binding_filters bindings = filter_map (λ b. to_http_route_filter b.id) (sort_bindings bindings)

-- `1000 - index as i32 * 100`, which wraps.
unfoldable pub priority_at : ℕ → ℤ
priority_at index =
    let shifted = (2147484648 + 100 * (2 ^ 32 - index % 2 ^ 32)) % 2 ^ 32 in
    if ltb shifted 2147483648 then negsuc (2147483647 - shifted) else pos (shifted - 2147483648)

-- `enumerate` and `with_priority`
unfoldable pub numbered : ℕ → List PluginInstanceId → List PluginBinding
unfolding priority_at
numbered index [] = []
numbered index (id ∷ ids) =
    record { id = id; priority = priority_at index } ∷ numbered (suc index) ids

abbrev pub is_extension_ref : HttpRouteFilter → Bool
is_extension_ref (extension_ref reference) = true
is_extension_ref _ = false

-- The bindings of the filters that are extension references.
unfoldable pub bindings_of : List HttpRouteFilter → List PluginBinding
unfolding numbered from_http_route_filter filter_map
bindings_of filters = numbered 0 (filter_map from_http_route_filter (keep is_extension_ref filters))
