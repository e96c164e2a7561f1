-- ===== src/K8s/Match/Laws.antt =====
-- Matches that are written as resources and read again.
use mathlib.Core.List.{filter_map}
use spacegate.Common.{
  ◌≡◌, refl, ap, ap₂, if◌then◌else◌, ℕ, Str, is_empty, all, arith, ◌∙◌, Bool, true, false, not,
  Option, none, some, List, [], ◌∷◌, ◌++◌, map, keep, Option-cases, inl, inr,
}
use spacegate.Common.Parse.{is_whitespace, trim_start_by, trim_end_by, trim}
use spacegate.Common.Sort.{first_class, sort_by-map, sort_by-classes}
use spacegate.K8s.Model.{SgHttpPathMatch, SgHttpHeaderMatch, SgHttpQueryMatch, SgHttpRouteMatch}
use spacegate.K8s.Kube.{HttpRouteFilter, replace_full_path, replace_prefix_match}
use spacegate.K8s.Match.{
  not_blank, rewrite_path, path_into_kube, path_from_kube, header_into_kube, header_from_kube,
  query_into_kube, query_from_kube, is_some, filter_first, headers_into_kube, path_part, map_option,
  method_part, plain_part, match_parts, match_into_kube, match_from_kube,
}

-- A replacement that is not all white space.
abbrev pub written : Option Str → Option Str
written none = none
written (some r) = if all is_whitespace r then none else some r

is_empty-trim_end_by : (p : ℕ → Bool) (s : Str) → is_empty (trim_end_by p s) ≡ all p s
is_empty-trim_end_by p [] = refl
is_empty-trim_end_by p (c ∷ s) = ground (arith, is_empty-trim_end_by p s)

all-trim_start_by : (p : ℕ → Bool) (s : Str) → all p (trim_start_by p s) ≡ all p s
all-trim_start_by p [] = refl
all-trim_start_by p (c ∷ s) = ground (arith, all-trim_start_by p s)

not_blank-written : (r : Option Str) → not_blank r ≡ written r
unfolding not_blank trim
not_blank-written none = refl
not_blank-written (some r) =
    let blank : is_empty (trim_end_by is_whitespace (trim_start_by is_whitespace r))
        ≡ all is_whitespace r =
      is_empty-trim_end_by is_whitespace (trim_start_by is_whitespace r)
      ∙ all-trim_start_by is_whitespace r in
    ground arith

-- A path match without its replacement if that is blank.
abbrev pub kept_path : SgHttpPathMatch → SgHttpPathMatch
kept_path (SgHttpPathMatch.exact value replace) = SgHttpPathMatch.exact value (written replace)
kept_path (SgHttpPathMatch.prefix value replace) = SgHttpPathMatch.prefix value (written replace)
kept_path (SgHttpPathMatch.reg_exp value replace) = SgHttpPathMatch.reg_exp value (written replace)

-- Without any replacement.
abbrev pub bare_path : SgHttpPathMatch → SgHttpPathMatch
bare_path (SgHttpPathMatch.exact value replace) = SgHttpPathMatch.exact value none
bare_path (SgHttpPathMatch.prefix value replace) = SgHttpPathMatch.prefix value none
bare_path (SgHttpPathMatch.reg_exp value replace) = SgHttpPathMatch.reg_exp value none

abbrev pub bare_header : SgHttpHeaderMatch → SgHttpHeaderMatch
bare_header (SgHttpHeaderMatch.exact name value replace) = SgHttpHeaderMatch.exact name value none
bare_header (SgHttpHeaderMatch.reg_exp name re replace) = SgHttpHeaderMatch.reg_exp name re none

-- An exact header match that replaces the value.
abbrev pub replaces : SgHttpHeaderMatch → Bool
replaces (SgHttpHeaderMatch.exact name value (some r)) = true
replaces _ = false

-- Those that replace first, all without their replacements.
abbrev pub kept_headers : Option (List SgHttpHeaderMatch) → Option (List SgHttpHeaderMatch)
kept_headers none = none
kept_headers (some hs) =
    let sorted = keep replaces hs ++ keep (λ h. not (replaces h)) hs in
    if is_empty sorted then none else some (map bare_header sorted)

abbrev pub method_entry : SgHttpRouteMatch → Str → SgHttpRouteMatch
method_entry m s = record m {
  path = map_option kept_path m.path;
  header = kept_headers m.header;
  method = some (s ∷ []);
}

abbrev pub plain_entry : SgHttpRouteMatch → SgHttpRouteMatch
plain_entry m = record m { path = map_option kept_path m.path; header = none; method = none }

-- The matches that a resource has for a match, each still with the replacement of its path: one for
-- each method, or one without method and headers.
unfoldable pub entries : SgHttpRouteMatch → List SgHttpRouteMatch
entries m = elim m.method [
  | none ↦ plain_entry m ∷ []
  | some methods ↦ map (method_entry m) methods
]

-- The filter that carries the replacement of a path.
abbrev pub path_filter : Option SgHttpPathMatch → Option HttpRouteFilter
path_filter none = none
path_filter (some (SgHttpPathMatch.exact value r)) = rewrite_path replace_full_path r
path_filter (some (SgHttpPathMatch.prefix value r)) = rewrite_path replace_prefix_match r
path_filter (some (SgHttpPathMatch.reg_exp value r)) = rewrite_path replace_full_path r

abbrev pub bare : SgHttpRouteMatch → SgHttpRouteMatch
bare m = record m { path = map_option bare_path m.path }

path_part-kept :
    (p : Option SgHttpPathMatch)
    → (map_option path_from_kube (path_part p).0 ≡ map_option bare_path (map_option kept_path p))
      × ((path_part p).1 ≡ path_filter (map_option kept_path p))
unfolding path_part path_into_kube path_from_kube
path_part-kept none = (refl, refl)
path_part-kept (some (SgHttpPathMatch.exact value r)) =
    (refl, ap (rewrite_path replace_full_path) (not_blank-written r))
path_part-kept (some (SgHttpPathMatch.prefix value r)) =
    (refl, ap (rewrite_path replace_prefix_match) (not_blank-written r))
path_part-kept (some (SgHttpPathMatch.reg_exp value r)) =
    (refl, ap (rewrite_path replace_full_path) (not_blank-written r))

queries-same : (qs : List SgHttpQueryMatch) → map query_from_kube (map query_into_kube qs) ≡ qs
unfolding query_from_kube query_into_kube
queries-same [] = refl
queries-same (SgHttpQueryMatch.exact key value ∷ qs) = rw (queries-same qs) refl
queries-same (SgHttpQueryMatch.regular key re ∷ qs) = rw (queries-same qs) refl

query-same :
    (q : Option (List SgHttpQueryMatch))
    → map_option (map query_from_kube) (map_option (map query_into_kube) q) ≡ q
query-same none = refl
query-same (some qs) = ap some (queries-same qs)

is_some-replaces : (h : SgHttpHeaderMatch) → is_some (header_into_kube h).1 ≡ replaces h
unfolding header_into_kube
is_some-replaces (SgHttpHeaderMatch.exact name value none) = refl
is_some-replaces (SgHttpHeaderMatch.exact name value (some r)) = refl
is_some-replaces (SgHttpHeaderMatch.reg_exp name re r) = refl

headers-bare :
    (hs : List SgHttpHeaderMatch)
    → map header_from_kube (map (λ e. e.0) (map header_into_kube hs)) ≡ map bare_header hs
unfolding header_into_kube header_from_kube
headers-bare [] = refl
headers-bare (SgHttpHeaderMatch.exact name value r ∷ hs) = rw (headers-bare hs) refl
headers-bare (SgHttpHeaderMatch.reg_exp name re r ∷ hs) = rw (headers-bare hs) refl

is_empty-headers :
    (hs : List SgHttpHeaderMatch)
    → map_option (map header_from_kube) (
        let headers = map (λ e. e.0) (map header_into_kube hs) in
        if is_empty headers then none else some headers)
      ≡ (if is_empty hs then none else some (map bare_header hs))
is_empty-headers [] = refl
is_empty-headers (h ∷ hs) = ap some (headers-bare (h ∷ hs))

headers-kept :
    (h : Option (List SgHttpHeaderMatch))
    → map_option (map header_from_kube) (headers_into_kube h) ≡ kept_headers h
unfolding headers_into_kube
headers-kept none = refl
headers-kept (some hs) =
    rw
      (
        headers_into_kube,
        sort_by-map (first_class replaces) filter_first header_into_kube
            (λ x y. rw (is_some-replaces x, is_some-replaces y) refl) hs,
        sort_by-classes replaces hs,
      )
      (is_empty-headers (keep replaces hs ++ keep (λ h. not (replaces h)) hs))

method-entry :
    (m : SgHttpRouteMatch) (s : Str)
    → (match_from_kube (method_part m s).0 ≡ bare (method_entry m s))
      × ((method_part m s).1 ≡ path_filter (method_entry m s).path)
unfolding method_part match_from_kube
method-entry m s =
    let (same, filter) = path_part-kept m.path in
    (rw (same, headers-kept m.header, query-same m.query) refl, filter)

plain-entry :
    (m : SgHttpRouteMatch)
    → (match_from_kube (plain_part m).0 ≡ bare (plain_entry m))
      × ((plain_part m).1 ≡ path_filter (plain_entry m).path)
unfolding plain_part match_from_kube
plain-entry m =
    let (same, filter) = path_part-kept m.path in (rw (same, query-same m.query) refl, filter)

methods-entries :
    (m : SgHttpRouteMatch) (ss : List Str)
    → (map match_from_kube (map (λ e. e.0) (map (method_part m) ss))
        ≡ map bare (map (method_entry m) ss))
      × (filter_map (λ e. e.1) (map (method_part m) ss)
          ≡ filter_map (λ e. path_filter e.path) (map (method_entry m) ss))
unfolding filter_map
methods-entries m [] = (refl, refl)
methods-entries m (s ∷ ss) =
    let (a, b) = method-entry m s in
    let (c, d) = methods-entries m ss in (ap₂ ◌∷◌ a c, rw (b, d) refl)

-- What the matches of a resource are read as, and the filters that come with them.
pub match_into_kube-entries :
    (m : SgHttpRouteMatch)
    → (map match_from_kube (match_into_kube m).0 ≡ map bare (entries m))
      × ((match_into_kube m).1 ≡ filter_map (λ e. path_filter e.path) (entries m))
unfolding match_into_kube match_parts entries filter_map
match_into_kube-entries m = elim (Option-cases m.method) [
  | inl n ↦
      rw (match_into_kube, match_parts, n)
        (let (a, b) = plain-entry m in (ap (λ x. x ∷ []) a, rw b refl))
  | inr (ss, n) ↦ rw (match_into_kube, match_parts, n) (methods-entries m ss)
]
