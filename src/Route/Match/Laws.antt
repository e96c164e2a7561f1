-- ===== src/Route/Match/Laws.antt =====
-- What a query match needs, and what a rewrite leaves alone.
use spacegate.Common.{
  ℕ, ◌≡◌, refl, ◌∙◌, Str, false, none, some, List, [], ◌∷◌, map, arith, Option-cases, inl, inr,
}
use spacegate.Route.Request.{Request, Http, query_of, set_header}
use spacegate.Route.Query.Laws.{NoAmpersand, items-joined}
use spacegate.Route.Match.{
  HttpRouteMatch, HttpQueryMatch, SgHttpQueryMatchPolicy, match_query_policy, match_query,
  rewrite_headers, rewrite_header, rewrite_request, SgHttpHeaderMatchRewrite,
}

module _ (h : Http) where
  policy-none :
      (p : SgHttpQueryMatchPolicy h) (name k : Str) → match_query_policy h p name (k, none) ≡ false
  policy-none (SgHttpQueryMatchPolicy.exact v) name k = ground arith
  policy-none (SgHttpQueryMatchPolicy.regular re) name k = ground arith

  -- A query of a single non-empty piece, such as `id=7`, satisfies no query match, exact or
  -- regular.
  pub match_query-single_pair :
      (m : HttpQueryMatch h) (req : Request) (c : ℕ) (query : Str)
      → query_of req.uri ≡ some (c ∷ query)
      → NoAmpersand (c ∷ query)
      → match_query h m req ≡ false
  unfolding match_query
  match_query-single_pair m req c query e k =
      ground (arith, items-joined [] c query tt k, policy-none m.policy m.name (c ∷ query))

  -- The names of the headers, in order.
  abbrev pub names : List (Str × Str) → List Str
  names hs = map (λ (p : Str × Str). p.0) hs

  names-set_header :
      (name v : Str) (hs : List (Str × Str)) → names (set_header name v hs) ≡ names hs
  unfolding set_header
  names-set_header name v [] = refl
  names-set_header name v ((k, w) ∷ hs) = ground (arith, names-set_header name v hs)

  names-rewrite_headers :
      (ms : List (SgHttpHeaderMatchRewrite h)) (hs : List (Str × Str))
      → names (rewrite_headers h ms hs) ≡ names hs
  unfolding rewrite_headers
  names-rewrite_headers [] hs = refl
  names-rewrite_headers (m ∷ ms) hs = elim (Option-cases (rewrite_header h m hs)) [
    | inl same ↦ rw same (names-rewrite_headers ms hs)
    | inr (v, new) ↦ rw new (
        names-rewrite_headers ms (set_header m.header_name v hs)
        ∙ names-set_header m.header_name v hs)
  ]

  -- A rewrite of a request leaves its method and the names and number of its headers alone, and
  -- where it fails its URI too.
  rewrite_request_keeps :
      (m : HttpRouteMatch h) (req : Request)
      → ((rewrite_request h m req).0.method ≡ req.method)
        × (names (rewrite_request h m req).0.headers ≡ names req.headers)
        × ((rewrite_request h m req).1 ≡ false → (rewrite_request h m req).0.uri ≡ req.uri)
  unfolding rewrite_request
  rewrite_request_keeps m req = elim (Option-cases m.header) [
    | inl no_header ↦ (ground arith, ground arith, ground arith)
    | inr (ms, given) ↦
        (ground arith, ground (arith, names-rewrite_headers ms req.headers), ground arith)
  ]
