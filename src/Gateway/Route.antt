-- ===== src/Gateway/Route.antt =====
-- `GatewayRouter::route`
pub mod Choice
use spacegate.Common.{
  ℕ, zero, suc, ◌+◌, Str, codes, get_elem?, Bool, true, false, if◌then◌else◌, Option, none, some,
  List, [], ◌∷◌,
}
use spacegate.Hostname.Tree.{get}
use spacegate.Route.Request.{Http, Request, header}
use spacegate.Route.Match.{HttpRouteMatch, match_request, rewrite_request}
use spacegate.Gateway.Build.{Entry, Rule, HttpRouter, GatewayRouter}

-- The outcome: the indices of the route and its rule, with the request and the two extensions that
-- the router sets; no route, with the request as it is then; or a panic of an index.
pub data Routed (h : Http) : Type 0 where
  found : ℕ → ℕ → Request → Str → Option (HttpRouteMatch h) → Routed h
  missed : Request → Routed h
  panicked : Routed h

-- What a rule has to say: the first of its matches that takes the request, or no match at all.
pub data Verdict (h : Http) : Type 0 where
  by_match : HttpRouteMatch h → Verdict h
  wildcard : Verdict h
  refused : Verdict h

module _ (h : Http) where
  -- `for m in matches { if m.match_request(req) .. }`
  unfoldable pub first_match : List (HttpRouteMatch h) → Request → Verdict h
  first_match [] req = refused
  first_match (m ∷ ms) req = if match_request h m req then by_match m else first_match ms req

  unfoldable pub verdict : Rule h → Request → Verdict h
  unfolding first_match
  verdict none req = wildcard
  verdict (some ms) req = first_match ms req

  -- The first rule that takes the request, with its index.
  unfoldable pub first_rule : List (Rule h) → ℕ → Request → Option (ℕ × Option (HttpRouteMatch h))
  unfolding verdict
  first_rule [] j req = none
  first_rule (rule ∷ rules) j req = elim (verdict rule req) [
    | by_match m ↦ some (j, some m)
    | wildcard ↦ some (j, none)
    | refused ↦ first_rule rules (suc j) req
  ]

  -- What follows a rule that takes the request.
  unfoldable pub take_route : ℕ → ℕ → Str → Option (HttpRouteMatch h) → Request → Routed h
  take_route i j name none req = found i j req name none
  take_route i j name (some m) req =
      let (req', done) = rewrite_request h m req in
      if done then found i j req' name (some m) else missed req'

  -- The loop over the candidates.
  unfoldable pub route_from : List (HttpRouter h) → List Entry → Request → Routed h
  unfolding first_rule take_route
  route_from routers [] req = missed req
  route_from routers ((i, p) ∷ indices) req = elim (get_elem? routers i) [
    | none ↦ panicked
    | some router ↦ elim (first_rule router.rules 0 req) [
      | some (j, m) ↦ take_route i j router.name m req
      | none ↦ route_from routers indices req
    ]
  ]

  -- `uri().host()`, or the `host` header.
  unfoldable pub host_of : Request → Option Str
  unfolding header
  host_of req = elim req.uri.host [
    | some host ↦ some host
    | none ↦ elim (header (codes "host") req.headers) [ none ↦ none | some v ↦ h.to_str v ]
  ]

  unfoldable pub route :
      (parse_ipv4 parse_ipv6 : Str → Option ℕ) → GatewayRouter h → Request → Routed h
  unfolding route_from host_of get
  route parse_ipv4 parse_ipv6 gateway req = elim (host_of req) [
    | none ↦ missed req
    | some host ↦ elim (get parse_ipv4 parse_ipv6 gateway.hostname_tree host) [
      | none ↦ missed req
      | some indices ↦ route_from gateway.routers indices req
    ]
  ]
