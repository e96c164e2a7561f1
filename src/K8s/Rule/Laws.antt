-- ===== src/K8s/Rule/Laws.antt =====
-- Rules that are written as resources and read again.
use mathlib.Core.List.{filter_map, map-append, filter_map-append}
use spacegate.Common.{
  ◌≡◌, refl, ap, ap₂, sym, ◌∙◌, arith, if◌then◌else◌, Bool, true, false, not, Option, none, some,
  List, [], ◌∷◌, ◌++◌, map, keep, any, all, All, Option-cases, Bool-cases, inl, inr,
}
use spacegate.Common.Result.{Result, ok, err, ◌>>=◌}
use spacegate.K8s.Model.{SgHttpPathMatch, SgHttpRouteMatch, SgHttpRouteRule, PluginBinding}
use spacegate.K8s.Kube.{
  HttpRouteMatch, HttpRouteFilter, ConvError, url_rewrite_of_many_matches,
  header_modifier_of_many_matches,
}
use spacegate.K8s.Plugins.{
  to_http_route_filter, sort_bindings, binding_filters, is_extension_ref, bindings_of,
}
use spacegate.K8s.Plugins.Laws.{IsFew, kept_bindings, bindings_of-binding_filters}
use spacegate.K8s.Plugins.Ranked.{IsRanked, sort_bindings-IsRanked}
use spacegate.K8s.Backend.Laws.{backends_from_kube-into}
use spacegate.K8s.Match.{match_from_kube, map_option, is_some}
use spacegate.K8s.Match.Laws.{entries, path_filter, bare, bare_path, match_into_kube-entries}
use spacegate.K8s.Rule.{
  matches_into_kube, optional_matches, rule_into_kube, is_url_rewrite, is_header_modifier,
  replace_path, rewritten_match, matches_from_kube, rule_from_kube,
}
use spacegate.K8s.Rule.Kept.{
  all_entries, replacement, has_replacement, read_entries, kept_matches, kept_rule,
}

unfoldable filters_of : List SgHttpRouteMatch → List HttpRouteFilter
unfolding filter_map
filters_of es = filter_map (λ e. path_filter e.path) es

matches_into_kube-entries :
    (ms : List SgHttpRouteMatch)
    → (map match_from_kube (matches_into_kube ms).0 ≡ map bare (all_entries ms))
      × ((matches_into_kube ms).1 ≡ filters_of (all_entries ms))
unfolding matches_into_kube all_entries filters_of filter_map
matches_into_kube-entries [] = (refl, refl)
matches_into_kube-entries (m ∷ ms) =
    let (a, b) = match_into_kube-entries m in
    let (c, d) = matches_into_kube-entries ms in
    (
      map-append match_from_kube _ _
          ∙ ap₂ ◌++◌ a c
          ∙ sym (map-append bare (entries m) (all_entries ms)),
      ap₂ ◌++◌ b d ∙ sym (filter_map-append (λ e. path_filter e.path) (entries m) (all_entries ms)),
    )

-- By the matches that are read.
read_with :
    List HttpRouteFilter → List SgHttpRouteMatch → Result ConvError (Option (List SgHttpRouteMatch))
read_with legacy [] = ok (some [])
read_with legacy (m ∷ []) =
    rewritten_match (keep is_url_rewrite legacy) m >>= (λ m'. ok (some (m' ∷ [])))
read_with legacy (m ∷ n ∷ ms) =
    if any is_url_rewrite legacy
    then err url_rewrite_of_many_matches
    else if any is_header_modifier legacy
    then err header_modifier_of_many_matches
    else ok (some (m ∷ n ∷ ms))

matches_from_kube-read_with :
    (legacy : List HttpRouteFilter) (ks : List HttpRouteMatch)
    → matches_from_kube legacy (some ks) ≡ read_with legacy (map match_from_kube ks)
unfolding matches_from_kube read_with
matches_from_kube-read_with legacy [] = refl
matches_from_kube-read_with legacy (k ∷ []) = refl
matches_from_kube-read_with legacy (k ∷ l ∷ ks) = refl

filters_of-legacy :
    (es : List SgHttpRouteMatch)
    → (any is_extension_ref (filters_of es) ≡ false)
      × (any is_header_modifier (filters_of es) ≡ false)
      × (any is_url_rewrite (filters_of es) ≡ any has_replacement es)
unfolding filters_of filter_map
filters_of-legacy [] = (refl, refl, refl)
filters_of-legacy (e ∷ es) =
    let (a, b, c) = filters_of-legacy es in
    elim (Option-cases e.path) [
      | inl n ↦ rw n (a, b, c)
      | inr (SgHttpPathMatch.exact v none, n) ↦ rw n (a, b, c)
      | inr (SgHttpPathMatch.exact v (some r), n) ↦ rw n (a, b, refl)
      | inr (SgHttpPathMatch.prefix v none, n) ↦ rw n (a, b, c)
      | inr (SgHttpPathMatch.prefix v (some r), n) ↦ rw n (a, b, refl)
      | inr (SgHttpPathMatch.reg_exp v none, n) ↦ rw n (a, b, c)
      | inr (SgHttpPathMatch.reg_exp v (some r), n) ↦ rw n (a, b, refl)
    ]

bare_path-same : (p : SgHttpPathMatch) → is_some (replacement p) ≡ false → bare_path p ≡ p
bare_path-same (SgHttpPathMatch.exact v none) h = refl
bare_path-same (SgHttpPathMatch.exact v (some r)) h = ground arith
bare_path-same (SgHttpPathMatch.prefix v none) h = refl
bare_path-same (SgHttpPathMatch.prefix v (some r)) h = ground arith
bare_path-same (SgHttpPathMatch.reg_exp v none) h = refl
bare_path-same (SgHttpPathMatch.reg_exp v (some r)) h = ground arith

bare_option-same :
    (o : Option SgHttpPathMatch)
    → (let replaced : Bool = elim o [ none ↦ false | some p ↦ is_some (replacement p) ] in
        replaced ≡ false)
    → map_option bare_path o ≡ o
bare_option-same none h = refl
bare_option-same (some p) h = ap some (bare_path-same p h)

-- Entries without replacements are bare.
bare-same : (es : List SgHttpRouteMatch) → any has_replacement es ≡ false → map bare es ≡ es
bare-same [] h = refl
bare-same (e ∷ es) h = rw (bare_option-same e.path (ground arith), bare-same es (ground arith)) refl

read_with-many :
    (e f : SgHttpRouteMatch) (es : List SgHttpRouteMatch)
    → read_with (filters_of (e ∷ f ∷ es)) (map bare (e ∷ f ∷ es)) ≡ read_entries (e ∷ f ∷ es)
unfolding read_with read_entries
read_with-many e f es =
    let (a, b, c) = filters_of-legacy (e ∷ f ∷ es) in
    elim (Bool-cases (any has_replacement (e ∷ f ∷ es))) [
      | inl h ↦ rw (c, h) refl
      | inr h ↦ rw (c, h, b, bare-same (e ∷ f ∷ es) h) refl
    ]

read_with-entries :
    (es : List SgHttpRouteMatch) → read_with (filters_of es) (map bare es) ≡ read_entries es
unfolding read_with read_entries rewritten_match filters_of filter_map replace_path
read_with-entries [] = refl
read_with-entries (e ∷ []) = elim (Option-cases e.path) [
  | inl n ↦ rw n refl
  | inr (SgHttpPathMatch.exact v none, n) ↦ rw n refl
  | inr (SgHttpPathMatch.exact v (some r), n) ↦ rw n refl
  | inr (SgHttpPathMatch.prefix v none, n) ↦ rw n refl
  | inr (SgHttpPathMatch.prefix v (some r), n) ↦ rw n refl
  | inr (SgHttpPathMatch.reg_exp v none, n) ↦ rw n refl
  | inr (SgHttpPathMatch.reg_exp v (some r), n) ↦ rw n refl
]
read_with-entries (e ∷ f ∷ es) = read_with-many e f es

-- The filters that are no extension references.
keep-legacy :
    (fs gs : List HttpRouteFilter)
    → any is_extension_ref fs ≡ false
    → all is_extension_ref gs ≡ true
    → keep (λ f. not (is_extension_ref f)) (fs ++ gs) ≡ fs
keep-legacy [] [] h k = refl
keep-legacy [] (g ∷ gs) h k = ground (arith, keep-legacy [] gs)
keep-legacy (f ∷ fs) gs h k = ground (arith, keep-legacy fs gs)

refs-all :
    (bs : List PluginBinding)
    → all is_extension_ref (filter_map (λ b. to_http_route_filter b.id) bs) ≡ true
unfolding filter_map to_http_route_filter
refs-all [] = refl
refs-all (b ∷ bs) = ground (arith, refs-all bs)

legacy_filters :
    (es : List SgHttpRouteMatch) (bindings : List PluginBinding)
    → keep (λ f. not (is_extension_ref f)) (filters_of es ++ binding_filters bindings)
      ≡ filters_of es
unfolding binding_filters
legacy_filters es bindings =
    keep-legacy (filters_of es) (binding_filters bindings) (filters_of-legacy es).0
      (refs-all (sort_bindings bindings))

matches-kept :
    (o : Option (List SgHttpRouteMatch)) (bindings : List PluginBinding)
    → IsFew bindings
    → (matches_from_kube
          (keep
            (λ f. not (is_extension_ref f))
            ((optional_matches o).1 ++ binding_filters bindings))
          (optional_matches o).0
        ≡ kept_matches o)
      × (bindings_of ((optional_matches o).1 ++ binding_filters bindings)
          ≡ kept_bindings sort_bindings bindings)
unfolding optional_matches kept_matches matches_from_kube
matches-kept none bindings few = (refl, bindings_of-binding_filters [] bindings refl few)
matches-kept (some ms) bindings few =
    let (matches, filters) = matches_into_kube-entries ms in
    rw filters (
      rw (legacy_filters (all_entries ms) bindings) (
          matches_from_kube-read_with (filters_of (all_entries ms)) (matches_into_kube ms).0
          ∙ ap (read_with (filters_of (all_entries ms))) matches
          ∙ read_with-entries (all_entries ms)),
      bindings_of-binding_filters (filters_of (all_entries ms)) bindings
          (filters_of-legacy (all_entries ms)).0 few,
    )

-- The rule's and its back ends' plugins have priorities in an `i32` when they are numbered.
abbrev pub HasFew : SgHttpRouteRule → Type 0
HasFew rule = IsFew rule.plugins × All (λ b. IsFew b.plugins) rule.backends

-- A rule whose plugins and whose back ends' plugins are at most 21474846 each, written as a
-- resource and read again, keeps its timeouts. Its plugins are those with names, in an order from
-- the highest priority on that keeps the order of equal priorities, with the priorities 1000, 900
-- and so on, and so are those of its back ends; a back end keeps its host, weight and timeouts,
-- its port but for a file, and HTTPS or HTTP as protocol for a host only. Its matches become one
-- for each method, or one without headers where there are no methods; a single one keeps its
-- replacement if that is not all white space and the path is no regular expression, and several
-- with a replacement among them are refused.
pub rule_from_kube-into :
    (rule : SgHttpRouteRule)
    → HasFew rule
    → (rank : List PluginBinding → List PluginBinding) × ((bindings : List PluginBinding)
        → IsRanked bindings (rank bindings))
      × (rule_from_kube (rule_into_kube rule) ≡ kept_rule rank rule)
unfolding rule_from_kube rule_into_kube kept_rule
rule_from_kube-into rule (few, all_few) =
    let (matches, plugins) = matches-kept rule.matches rule.plugins few in
    (
      sort_bindings,
      sort_bindings-IsRanked,
      rw (matches, plugins, backends_from_kube-into rule.backends all_few) refl,
    )
