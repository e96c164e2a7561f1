-- ===== src/K8s/Match.antt =====
-- crates/config/src/service/k8s/convert/route_k8s_conv.rs: the matches of a rule, and the filters
-- that carry their replacements.
pub mod Laws
use mathlib.Core.List.{filter_map}
use spacegate.Common.{
  if◌then◌else◌, Str, is_empty, Bool, true, false, not, ◌&&◌, Option, none, some, List, [], ◌∷◌,
  map,
}
use spacegate.Common.Parse.{trim}
use spacegate.Common.Sort.{sort_by}
use spacegate.K8s.Model.{SgHttpPathMatch, SgHttpHeaderMatch, SgHttpQueryMatch, SgHttpRouteMatch}
use spacegate.K8s.Kube.{
  HttpPathMatch, HttpHeaderMatch, HttpQueryParamMatch, HttpRouteMatch, HttpPathModifier,
  replace_full_path, replace_prefix_match, HttpRouteFilter, request_header_modifier, url_rewrite,
}

-- `replace.filter(|r| !r.trim().is_empty())`
unfoldable pub not_blank : Option Str → Option Str
unfolding trim
not_blank none = none
not_blank (some r) = if not (is_empty (trim r)) then some r else none

abbrev pub rewrite_path : (Str → HttpPathModifier) → Option Str → Option HttpRouteFilter
rewrite_path modifier none = none
rewrite_path modifier (some r) =
    some (url_rewrite (record { hostname = none; path = some (modifier r) }))

unfoldable pub path_into_kube : SgHttpPathMatch → HttpPathMatch × Option HttpRouteFilter
unfolding not_blank
path_into_kube (SgHttpPathMatch.exact value replace) =
    (HttpPathMatch.exact value, rewrite_path replace_full_path (not_blank replace))
path_into_kube (SgHttpPathMatch.prefix value replace) =
    (HttpPathMatch.path_prefix value, rewrite_path replace_prefix_match (not_blank replace))
path_into_kube (SgHttpPathMatch.reg_exp value replace) =
    (HttpPathMatch.regular_expression value, rewrite_path replace_full_path (not_blank replace))

unfoldable pub path_from_kube : HttpPathMatch → SgHttpPathMatch
path_from_kube (HttpPathMatch.exact value) = SgHttpPathMatch.exact value none
path_from_kube (HttpPathMatch.path_prefix value) = SgHttpPathMatch.prefix value none
path_from_kube (HttpPathMatch.regular_expression value) = SgHttpPathMatch.reg_exp value none

abbrev pub set_header : Str → Option Str → Option HttpRouteFilter
set_header name none = none
set_header name (some r) = some (request_header_modifier (record { name = name; value = r } ∷ []))

unfoldable pub header_into_kube : SgHttpHeaderMatch → HttpHeaderMatch × Option HttpRouteFilter
header_into_kube (SgHttpHeaderMatch.exact name value replace) =
    (HttpHeaderMatch.exact name value, set_header name replace)
header_into_kube (SgHttpHeaderMatch.reg_exp name re replace) =
    (HttpHeaderMatch.regular_expression name re, none)

unfoldable pub header_from_kube : HttpHeaderMatch → SgHttpHeaderMatch
header_from_kube (HttpHeaderMatch.exact name value) = SgHttpHeaderMatch.exact name value none
header_from_kube (HttpHeaderMatch.regular_expression name value) =
    SgHttpHeaderMatch.reg_exp name value none

unfoldable pub query_into_kube : SgHttpQueryMatch → HttpQueryParamMatch
query_into_kube (SgHttpQueryMatch.exact name value) = HttpQueryParamMatch.exact name value
query_into_kube (SgHttpQueryMatch.regular name value) =
    HttpQueryParamMatch.regular_expression name value

unfoldable pub query_from_kube : HttpQueryParamMatch → SgHttpQueryMatch
query_from_kube (HttpQueryParamMatch.exact name value) = SgHttpQueryMatch.exact name value
query_from_kube (HttpQueryParamMatch.regular_expression name value) =
    SgHttpQueryMatch.regular name value

abbrev pub is_some {ℓ} : {A : Type ℓ} → Option A → Bool
is_some none = false
is_some (some a) = true

-- The comparison of `headers_p.sort_by` gives `Less` where the first one has a filter and the
-- second one has none.
abbrev pub filter_first :
    HttpHeaderMatch × Option HttpRouteFilter → HttpHeaderMatch × Option HttpRouteFilter → Bool
filter_first a b = is_some a.1 && not (is_some b.1)

-- The header matches, without their filters; none where the list is empty.
unfoldable pub headers_into_kube : Option (List SgHttpHeaderMatch) → Option (List HttpHeaderMatch)
unfolding header_into_kube sort_by
headers_into_kube none = none
headers_into_kube (some hs) =
    let headers = map (λ e. e.0) (sort_by filter_first (map header_into_kube hs)) in
    if is_empty headers then none else some headers

unfoldable pub path_part : Option SgHttpPathMatch → Option HttpPathMatch × Option HttpRouteFilter
unfolding path_into_kube
path_part none = (none, none)
path_part (some p) = (some (path_into_kube p).0, (path_into_kube p).1)

abbrev pub map_option {ℓ κ} : {A : Type ℓ} {B : Type κ} → (A → B) → Option A → Option B
map_option f none = none
map_option f (some a) = some (f a)

-- The match of one method.
unfoldable pub method_part : SgHttpRouteMatch → Str → HttpRouteMatch × Option HttpRouteFilter
unfolding path_part headers_into_kube query_into_kube
method_part m method = (
  record {
    path = (path_part m.path).0;
    headers = headers_into_kube m.header;
    query_params = map_option (map query_into_kube) m.query;
    method = some method;
  },
  (path_part m.path).1,
)

-- The match without a method, which has no headers.
unfoldable pub plain_part : SgHttpRouteMatch → HttpRouteMatch × Option HttpRouteFilter
unfolding path_part query_into_kube
plain_part m = (
  record {
    path = (path_part m.path).0;
    headers = none;
    query_params = map_option (map query_into_kube) m.query;
    method = none;
  },
  (path_part m.path).1,
)

-- The matches with their filters, one for each method.
unfoldable pub match_parts : SgHttpRouteMatch → List (HttpRouteMatch × Option HttpRouteFilter)
unfolding method_part plain_part
match_parts m = elim m.method [
  | some methods ↦ map (method_part m) methods
  | none ↦ plain_part m ∷ []
]

-- `unzip`, and `flatten` of the filters.
unfoldable pub match_into_kube : SgHttpRouteMatch → List HttpRouteMatch × List HttpRouteFilter
unfolding match_parts filter_map
match_into_kube m = (map (λ e. e.0) (match_parts m), filter_map (λ e. e.1) (match_parts m))

unfoldable pub match_from_kube : HttpRouteMatch → SgHttpRouteMatch
unfolding path_from_kube header_from_kube query_from_kube
match_from_kube m = record {
  path = map_option path_from_kube m.path;
  header = map_option (map header_from_kube) m.headers;
  query = map_option (map query_from_kube) m.query_params;
  method = map_option (λ s. s ∷ []) m.method;
}
