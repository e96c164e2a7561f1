-- ===== src/Route/Match.antt =====
-- crates/kernel/src/service/http_route/match_request.rs: headers, queries, methods and whole matches.

pub mod Laws
use spacegate.Common.{
  Str, str_eq, eq_ignore_ascii_case, any, ◌&&◌, Bool, true, false, if◌then◌else◌, Option, none,
  some, List, [], ◌∷◌, ◌++◌,
}
use spacegate.Route.Request.{Uri, Request, Http, path_of, query_of, header, set_header}
use spacegate.Route.Query.{Item, items}
use spacegate.Route.Path.{HttpPathMatchRewrite, rewrite, match_path}

-- `MatchRequest for Option<T>`
abbrev pub match_option {ℓ} : {A : Type ℓ} → (A → Bool) → Option A → Bool
match_option p none = true
match_option p (some a) = p a

module _ (h : Http) where
  open h use {Regex, is_match, to_str, from_str, from_maybe_shared, from_parts}

  pub data SgHttpHeaderMatchRewritePolicy : Type 0 where
    exact : Str → Option Str → SgHttpHeaderMatchRewritePolicy
    regular : Regex → Option Str → SgHttpHeaderMatchRewritePolicy

  pub record SgHttpHeaderMatchRewrite : Type 0 where
    pub header_name : Str
    pub policy : SgHttpHeaderMatchRewritePolicy

  pub data SgHttpQueryMatchPolicy : Type 0 where
    exact : Str → SgHttpQueryMatchPolicy
    regular : Regex → SgHttpQueryMatchPolicy

  pub record HttpQueryMatch : Type 0 where
    pub name : Str
    pub policy : SgHttpQueryMatchPolicy

  pub record HttpRouteMatch : Type 0 where
    pub path : Option (HttpPathMatchRewrite h)
    pub header : Option (List SgHttpHeaderMatchRewrite)
    pub query : Option (List HttpQueryMatch)
    pub method : Option (List Str)

  -- `v.to_str().map_or(false, |v| re.is_match(v))`
  abbrev pub value_matches : Regex → Str → Bool
  value_matches re v = elim (to_str v) [ none ↦ false | some text ↦ is_match re text ]

  abbrev pub match_policy : SgHttpHeaderMatchRewritePolicy → Str → List (Str × Str) → Bool
  match_policy (exact value r) name hs = elim (header name hs) [
    | none ↦ false
    | some v ↦ str_eq v value
  ]
  match_policy (regular re r) name hs = any (λ p. str_eq p.0 name && value_matches re p.1) hs

  unfoldable pub match_header : SgHttpHeaderMatchRewrite → Request → Bool
  unfolding header
  match_header m req = match_policy m.policy m.header_name req.headers

  abbrev pub match_query_policy : SgHttpQueryMatchPolicy → Str → Item → Bool
  match_query_policy (exact value) name (k, v) =
      str_eq k name && elim v [ none ↦ false | some text ↦ str_eq text value ]
  match_query_policy (regular re) name (k, v) =
      str_eq k name && elim v [ none ↦ false | some text ↦ is_match re text ]

  unfoldable pub match_query : HttpQueryMatch → Request → Bool
  unfolding items
  match_query m req = elim (query_of req.uri) [
    | none ↦ false
    | some query ↦ any (match_query_policy m.policy m.name) (items query)
  ]

  unfoldable pub match_method : Str → Request → Bool
  match_method method req = eq_ignore_ascii_case req.method method

  -- `MatchRequest for HttpRouteMatch`; a list matches if one of its members does.
  unfoldable pub match_request : HttpRouteMatch → Request → Bool
  unfolding match_header match_query match_method match_path
  match_request m req =
      match_option (λ p. match_path h p (path_of req.uri)) m.path
      && (match_option (any (λ x. match_header x req)) m.header
          && (match_option (any (λ x. match_query x req)) m.query
              && match_option (any (λ x. match_method x req)) m.method))

  abbrev pub rewrite_policy : SgHttpHeaderMatchRewritePolicy → Str → Option Str
  rewrite_policy (exact m (some value)) text = if str_eq text value then some value else none
  rewrite_policy (regular re (some value)) text = if is_match re text then from_str value else none
  rewrite_policy (exact m none) text = none
  rewrite_policy (regular re none) text = none

  -- `SgHttpHeaderMatchRewrite::rewrite`
  unfoldable pub rewrite_header : SgHttpHeaderMatchRewrite → List (Str × Str) → Option Str
  unfolding header
  rewrite_header m hs = elim (header m.header_name hs) [
    | none ↦ none
    | some v ↦ elim (to_str v) [ none ↦ none | some text ↦ rewrite_policy m.policy text ]
  ]

  -- The loop of `HttpRouteMatch::rewrite` over its header matches.
  unfoldable pub rewrite_headers :
      List SgHttpHeaderMatchRewrite → List (Str × Str) → List (Str × Str)
  unfolding rewrite_header set_header
  rewrite_headers [] hs = hs
  rewrite_headers (m ∷ ms) hs =
      rewrite_headers ms
        (elim (rewrite_header m hs) [ none ↦ hs | some v ↦ set_header m.header_name v hs ])

  abbrev pub with_query : Str → Option Str → Str
  with_query path none = path
  with_query path (some query) = path ++ b'?' ∷ query

  -- A URI with a new path and its old query; `none` is an error.
  unfoldable pub rewrite_uri : Uri → Str → Option Str → Option Uri
  rewrite_uri u new_path query = elim (from_maybe_shared (with_query new_path query)) [
    | none ↦ none
    | some pq ↦ from_parts (record u { path_and_query = some pq })
  ]

  -- The request behind the rewrite, and whether it succeeded: the headers are rewritten first, and
  -- stay so where the path fails.
  unfoldable pub rewrite_request : HttpRouteMatch → Request → Request × Bool
  unfolding rewrite_headers rewrite_uri rewrite
  rewrite_request m req =
      let headers : List (Str × Str) = elim m.header [
        | none ↦ req.headers
        | some ms ↦ rewrite_headers ms req.headers
      ] in
      let req1 = record req { headers = headers } in
      elim req.uri.path_and_query [
        | none ↦ (req1, true)
        | some (old_path, query) ↦ elim m.path [
          | none ↦ (req1, true)
          | some path_match ↦ elim (rewrite h path_match old_path) [
            | none ↦ (req1, true)
            | some new_path ↦ elim (rewrite_uri req.uri new_path query) [
              | none ↦ (req1, false)
              | some u ↦ (record req1 { uri = u }, true)
            ]
          ]
        ]
      ]
