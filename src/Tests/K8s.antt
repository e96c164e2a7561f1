-- ===== src/Tests/K8s.antt =====
-- Rules as Kubernetes resources, at concrete inputs.
use spacegate.Common.{◌≡◌, refl, arith, codes, none, some, List, [], ◌∷◌}
use spacegate.Common.Result.{ok, err}
use spacegate.Common.Int.{pos, negsuc}
use spacegate.Plugin.Instance.{named, mono}
use spacegate.K8s.Model.{
  SgHttpPathMatch, SgHttpRouteMatch, SgHttpRouteRule, SgBackendRef, PluginBinding, k8s_service,
  https,
}
use spacegate.K8s.Kube.{url_rewrite_of_many_matches}
use spacegate.K8s.Plugins.{priority_at}
use spacegate.K8s.Plugins.Ranked.{IsRanked}
use spacegate.K8s.Rule.{rule_into_kube, rule_from_kube}
use spacegate.K8s.Rule.Kept.{kept_rule, kept_matches}
use spacegate.K8s.Rule.Laws.{rule_from_kube-into}

first_priority : priority_at 0 ≡ pos 1000
unfolding priority_at
first_priority = refl

twelfth_priority : priority_at 11 ≡ negsuc 99
unfolding priority_at
twelfth_priority = refl

abbrev regex_match : SgHttpRouteMatch
regex_match = record {
  path = some (SgHttpPathMatch.reg_exp (codes "/a/(.*)") (some (codes "/b/$1")));
  header = none;
  query = none;
  method = none;
}

abbrev prefix_match : SgHttpRouteMatch
prefix_match = record {
  path = some (SgHttpPathMatch.prefix (codes "/api") (some (codes "/v1")));
  header = none;
  query = none;
  method = some (codes "GET" ∷ codes "PUT" ∷ []);
}

abbrev service : SgBackendRef
service = record {
  host = k8s_service (record { name = codes "api"; namespace = none });
  port = some 8443;
  timeout_ms = none;
  timeout_mode = none;
  protocol = some https;
  downgrade_http2 = none;
  weight = some 1;
  plugins = [];
}

abbrev rule_of : List SgHttpRouteMatch → SgHttpRouteRule
rule_of ms = record {
  matches = some ms;
  plugins =
      record { id = record { code = codes "limit"; name = named (codes "a") }; priority = pos 1 }
      ∷ record { id = record { code = codes "auth"; name = mono }; priority = pos 2 }
      ∷ [];
  backends = service ∷ [];
  timeout_ms = none;
  timeout_mode = none;
  balance_policy = none;
}

-- The replacement of a regular expression is lost.
regex_lost :
    kept_matches (some (regex_match ∷ []))
    ≡ ok (
        some (
          record regex_match { path = some (SgHttpPathMatch.reg_exp (codes "/a/(.*)") none) } ∷ []))
unfolding kept_matches
regex_lost = refl

-- Two methods are two matches, so that the replacement is refused.
two_methods : kept_matches (some (prefix_match ∷ [])) ≡ err url_rewrite_of_many_matches
unfolding kept_matches
two_methods = refl

rule_from_kube-into_example :
    (rank : List PluginBinding → List PluginBinding) × ((bindings : List PluginBinding)
      → IsRanked bindings (rank bindings))
    × (rule_from_kube (rule_into_kube (rule_of (prefix_match ∷ [])))
        ≡ kept_rule rank (rule_of (prefix_match ∷ [])))
rule_from_kube-into_example =
    rule_from_kube-into (rule_of (prefix_match ∷ [])) (omega arith, (omega arith, tt))
