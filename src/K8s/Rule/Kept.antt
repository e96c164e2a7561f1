-- ===== src/K8s/Rule/Kept.antt =====
-- What is left of a rule that is written as a resource and read again.
use spacegate.Common.{
  if◌then◌else◌, Str, Bool, false, Option, none, some, List, [], ◌∷◌, ◌++◌, map, any,
}
use spacegate.Common.Result.{Result, ok, err, ◌>>=◌}
use spacegate.K8s.Model.{SgHttpPathMatch, SgHttpRouteMatch, SgHttpRouteRule, PluginBinding}
use spacegate.K8s.Kube.{ConvError, url_rewrite_of_many_matches}
use spacegate.K8s.Plugins.Laws.{kept_bindings}
use spacegate.K8s.Backend.Laws.{kept_backend}
use spacegate.K8s.Match.{map_option, is_some}
use spacegate.K8s.Match.Laws.{entries}

unfoldable pub all_entries : List SgHttpRouteMatch → List SgHttpRouteMatch
unfolding entries
all_entries [] = []
all_entries (m ∷ ms) = entries m ++ all_entries ms

abbrev pub replacement : SgHttpPathMatch → Option Str
replacement (SgHttpPathMatch.exact value replace) = replace
replacement (SgHttpPathMatch.prefix value replace) = replace
replacement (SgHttpPathMatch.reg_exp value replace) = replace

abbrev pub has_replacement : SgHttpRouteMatch → Bool
has_replacement m = elim m.path [ none ↦ false | some p ↦ is_some (replacement p) ]

-- The replacement of a regular expression is not read.
abbrev pub readable_path : SgHttpPathMatch → SgHttpPathMatch
readable_path (SgHttpPathMatch.exact value replace) = SgHttpPathMatch.exact value replace
readable_path (SgHttpPathMatch.prefix value replace) = SgHttpPathMatch.prefix value replace
readable_path (SgHttpPathMatch.reg_exp value replace) = SgHttpPathMatch.reg_exp value none

-- A rule with several matches and a replacement is refused.
unfoldable pub read_entries :
    List SgHttpRouteMatch → Result ConvError (Option (List SgHttpRouteMatch))
read_entries [] = ok (some [])
read_entries (e ∷ []) = ok (some (record e { path = map_option readable_path e.path } ∷ []))
read_entries (e ∷ f ∷ es) =
    if any has_replacement (e ∷ f ∷ es)
    then err url_rewrite_of_many_matches
    else ok (some (e ∷ f ∷ es))

unfoldable pub kept_matches :
    Option (List SgHttpRouteMatch) → Result ConvError (Option (List SgHttpRouteMatch))
unfolding read_entries all_entries
kept_matches none = ok none
kept_matches (some ms) = read_entries (all_entries ms)

-- What is left of a rule, by an order of bindings.
unfoldable pub kept_rule :
    (List PluginBinding → List PluginBinding) → SgHttpRouteRule → Result ConvError SgHttpRouteRule
unfolding kept_matches kept_bindings kept_backend
kept_rule rank rule = do
  matches ← kept_matches rule.matches
  ok (record rule {
    matches = matches;
    plugins = kept_bindings rank rule.plugins;
    backends = map (kept_backend rank) rule.backends;
    balance_policy = none;
  })
