-- ===== src/K8s/Rule.antt =====
-- crates/config/src/service/k8s/convert/route_k8s_conv.rs: the rules of a route.
pub mod Kept
pub mod Laws
use spacegate.Common.{
  if◌then◌else◌, ltb, length, Bool, true, false, not, Option, none, some, List, [], ◌∷◌, ◌++◌, map,
  keep, any,
}
use spacegate.Common.Result.{Result, ok, err, ◌>>=◌}
use spacegate.K8s.Model.{SgHttpPathMatch, SgHttpRouteMatch, SgHttpRouteRule}
use spacegate.K8s.Kube.{
  HttpPathModifier, replace_full_path, replace_prefix_match, HttpUrlRewriteFilter, HttpRouteMatch,
  HttpRouteFilter, request_header_modifier, url_rewrite, HttpRouteRule, ConvError,
  url_rewrite_of_many_matches, header_modifier_of_many_matches, many_url_rewrites,
}
use spacegate.K8s.Plugins.{binding_filters, is_extension_ref, bindings_of}
use spacegate.K8s.Backend.{backend_into_kube, backends_from_kube}
use spacegate.K8s.Match.{match_into_kube, match_from_kube, map_option}

-- The matches of a rule and the filters of all of them, one behind the other.
unfoldable pub matches_into_kube :
    List SgHttpRouteMatch → List HttpRouteMatch × List HttpRouteFilter
unfolding match_into_kube
matches_into_kube [] = ([], [])
matches_into_kube (m ∷ ms) =
    let (matches, filters) = match_into_kube m in
    let (rest, others) = matches_into_kube ms in (matches ++ rest, filters ++ others)

-- `unwrap_or_default` of the matches and filters.
unfoldable pub optional_matches :
    Option (List SgHttpRouteMatch) → Option (List HttpRouteMatch) × List HttpRouteFilter
unfolding matches_into_kube
optional_matches none = (none, [])
optional_matches (some ms) = (some (matches_into_kube ms).0, (matches_into_kube ms).1)

unfoldable pub rule_into_kube : SgHttpRouteRule → HttpRouteRule
unfolding optional_matches binding_filters backend_into_kube
rule_into_kube rule = record {
  matches = (optional_matches rule.matches).0;
  filters = some ((optional_matches rule.matches).1 ++ binding_filters rule.plugins);
  backend_refs = some (map backend_into_kube rule.backends);
  timeout_ms = rule.timeout_ms;
  timeout_mode = rule.timeout_mode;
}

abbrev pub is_url_rewrite : HttpRouteFilter → Bool
is_url_rewrite (url_rewrite rewrite) = true
is_url_rewrite _ = false

abbrev pub is_header_modifier : HttpRouteFilter → Bool
is_header_modifier (request_header_modifier headers) = true
is_header_modifier _ = false

-- The path match with the replacement of a modifier of its own kind.
unfoldable pub replace_path : HttpPathModifier → SgHttpPathMatch → SgHttpPathMatch
replace_path (replace_full_path r) (SgHttpPathMatch.exact value replace) =
    SgHttpPathMatch.exact value (some r)
replace_path (replace_prefix_match r) (SgHttpPathMatch.exact value replace) =
    SgHttpPathMatch.exact value replace
replace_path (replace_prefix_match r) (SgHttpPathMatch.prefix value replace) =
    SgHttpPathMatch.prefix value (some r)
replace_path (replace_full_path r) (SgHttpPathMatch.prefix value replace) =
    SgHttpPathMatch.prefix value replace
replace_path modifier (SgHttpPathMatch.reg_exp value replace) =
    SgHttpPathMatch.reg_exp value replace

abbrev pub apply_modifier : Option HttpPathModifier → SgHttpPathMatch → SgHttpPathMatch
unfolding replace_path
apply_modifier none path = path
apply_modifier (some modifier) path = replace_path modifier path

-- What the only match becomes under the URL rewrites of the rule.
unfoldable pub rewritten_match :
    List HttpRouteFilter → SgHttpRouteMatch → Result ConvError SgHttpRouteMatch
unfolding apply_modifier
rewritten_match [] m = ok m
rewritten_match (url_rewrite rewrite ∷ []) m =
    ok (record m { path = map_option (apply_modifier rewrite.path) m.path })
rewritten_match (f ∷ []) m = ok m
rewritten_match (f ∷ g ∷ fs) m = err many_url_rewrites

-- The matches of a rule under the filters that are no extension references.
unfoldable pub matches_from_kube :
    List HttpRouteFilter
    → Option (List HttpRouteMatch)
    → Result ConvError (Option (List SgHttpRouteMatch))
unfolding rewritten_match match_from_kube
matches_from_kube legacy none = ok none
matches_from_kube legacy (some []) = ok (some [])
matches_from_kube legacy (some (m ∷ [])) = do
  m' ← rewritten_match (keep is_url_rewrite legacy) (match_from_kube m)
  ok (some (m' ∷ []))
matches_from_kube legacy (some (m ∷ n ∷ ms)) =
    if any is_url_rewrite legacy
    then err url_rewrite_of_many_matches
    else if any is_header_modifier legacy
    then err header_modifier_of_many_matches
    else ok (some (map match_from_kube (m ∷ n ∷ ms)))

unfoldable pub rule_from_kube : HttpRouteRule → Result ConvError SgHttpRouteRule
unfolding matches_from_kube bindings_of backends_from_kube
rule_from_kube rule = do
  let filters : List HttpRouteFilter = elim rule.filters [ none ↦ [] | some fs ↦ fs ]
  matches ← matches_from_kube (keep (λ f. not (is_extension_ref f)) filters) rule.matches
  backends ← backends_from_kube (elim rule.backend_refs [ none ↦ [] | some refs ↦ refs ])
  ok (record {
    matches = matches;
    plugins = bindings_of filters;
    backends = backends;
    timeout_ms = rule.timeout_ms;
    timeout_mode = rule.timeout_mode;
    balance_policy = none;
  })
