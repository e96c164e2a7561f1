-- ===== src/Gateway/Requests.antt =====
-- A gateway built from its routes: what happens to a request.
use spacegate.Common.{
  ℕ, suc, ◌+◌, ◌<◌, ◌≤◌, ◌≡◌, ◌≢◌, refl, ap, ◌∙◌, Str, get_elem?, get_elem?_total, length, map,
  Option, none, some, List, [], ◌∷◌, ◌++◌, All, All-append, arith, inl,
}
use mathlib.Core.Path.{subst⁻¹}
use mathlib.Core.List.{Perm}
use spacegate.Hostname.Tree.{get}
use spacegate.Hostname.Iter.{change_value}
use spacegate.Route.Request.{Http, Request}
use spacegate.Gateway.Build.{Entry, HttpRoute, HttpRouter, router_of, sort, create_http_router}
use spacegate.Gateway.Build.Sort.{All-sort, Negatable, ByPriority, sort-perm, sort-ByPriority}
use spacegate.Gateway.Build.Fallback.{
  NoBracket, NoBrackets, all_entries, entries_of, holding, All-entries_of, All-priorities,
  create_http_router-sorted,
}
use spacegate.Gateway.Route.{Routed, missed, panicked, host_of, route, route_from}
use spacegate.Gateway.Route.Choice.{Means, route_from-Means}

-- The route of an entry is there.
abbrev InRange : ℕ → Entry → Type 0
InRange n e = e.0 < n

All-all_entries :
    {h : Http} (n : ℕ) (routes : List (HttpRoute h)) (idx : ℕ)
    → idx + length routes ≤ n
    → All (InRange n) (all_entries routes idx)
All-all_entries n [] idx k = tt
All-all_entries n (r ∷ rs) idx k =
    All-append (InRange n) (entries_of r.hostnames (idx, r.priority)) (all_entries rs (suc idx))
      (All-entries_of (InRange n) r.hostnames (idx, r.priority) (omega arith))
      (All-all_entries n rs (suc idx) (omega arith))

All-middle :
    (P : Entry → Type 0) (before after : List Entry) (e : Entry) → All P (before ++ e ∷ after) → P e
All-middle P [] after e k = k.0
All-middle P (x ∷ before) after e k = All-middle P before after e k.1

length-router_of :
    {h : Http} (routes : List (HttpRoute h)) → length (map router_of routes) ≡ length routes
length-router_of [] = refl
length-router_of (r ∷ rs) = ap suc (length-router_of rs)

get_elem?-ne-none : {A : Type 0} (xs : List A) (i : ℕ) → i < length xs → get_elem? xs i ≢ none
get_elem?-ne-none xs i k gone = let (a, there) = get_elem?_total xs i k in cc

module _ (h : Http) (parse_ipv4 parse_ipv6 : Str → Option ℕ) where
  -- The router of the gateway that is built from the routes.
  abbrev pub routed : List (HttpRoute h) → Request → Routed h
  routed routes req =
      route h parse_ipv4 parse_ipv6 (create_http_router parse_ipv4 parse_ipv6 routes) req

  candidates-Means :
      (routers : List (HttpRouter h)) (es : List Entry) (req : Request)
      → Means h routers (sort es) req (elim (change_value sort (holding es)) [
        | none ↦ missed req
        | some indices ↦ route_from h routers indices req
      ])
  unfolding sort
  candidates-Means routers [] req = inl (tt, refl)
  candidates-Means routers (e ∷ es) req = route_from-Means h routers req (sort (e ∷ es))

  route-sorted :
      (routes : List (HttpRoute h)) (req : Request) (host : Str)
      → All (λ r. NoBrackets r.hostnames) routes
      → host_of h req ≡ some host
      → NoBracket host
      → Means h (map router_of routes) (sort (all_entries routes 0)) req (routed routes req)
  unfolding route create_http_router
  route-sorted routes req host k e n =
      subst⁻¹ (Means h (map router_of routes) (sort (all_entries routes 0)) req)
        (ap by_host e
          ∙ ap by_indices (create_http_router-sorted parse_ipv4 parse_ipv6 routes host k n))
        (candidates-Means (map router_of routes) (all_entries routes 0) req)
    where
      by_indices : Option (List Entry) → Routed h
      by_indices o = elim o [
        | none ↦ missed req
        | some indices ↦ route_from h (map router_of routes) indices req
      ]

      by_host : Option Str → Routed h
      by_host o = elim o [
        | none ↦ missed req
        | some x ↦ by_indices (
            get parse_ipv4 parse_ipv6
              (create_http_router parse_ipv4 parse_ipv6 routes).hostname_tree x)
      ]

  -- For a gateway built from routes whose host names are no bracketed addresses and whose
  -- priorities have a negation in 16 bits, and a request with an unbracketed host: there is an
  -- order of the routes' entries, one for each host name that a route has and one if it has none,
  -- from the highest priority on, such that the request goes to the first of them whose route has
  -- a rule that takes it, and to the first such rule, rewritten by the first match of that rule
  -- that takes it, if the rule has matches; it is missed only where no rule takes it or that match
  -- cannot rewrite it. Host names play no part.
  pub route-Means :
      (routes : List (HttpRoute h)) (req : Request) (host : Str)
      → All (λ r. NoBrackets r.hostnames) routes
      → All (λ r. Negatable r.priority) routes
      → host_of h req ≡ some host
      → NoBracket host
      → (es : List Entry) × Perm es (all_entries routes 0)
        × ByPriority es
        × Means h (map router_of routes) es req (routed routes req)
  route-Means routes req host k p e n =
      let all = all_entries routes 0 in
      (
        sort all,
        sort-perm all,
        sort-ByPriority all (All-priorities routes 0 p),
        route-sorted routes req host k e n,
      )

  -- Routing in a gateway built from its routes never indexes out of range, for routes and hosts
  -- without brackets.
  pub route-ne-panicked :
      (routes : List (HttpRoute h)) (req : Request) (host : Str)
      → All (λ r. NoBrackets r.hostnames) routes
      → host_of h req ≡ some host
      → NoBracket host
      → routed routes req ≢ panicked
  route-ne-panicked routes req host k e n bad =
      let (before, after, x, split, gone) : Means h (map router_of routes)
          (sort (all_entries routes 0)) req panicked =
        rw bad at (route-sorted routes req host k e n) in
      let in_range : All (InRange (length routes)) (before ++ x ∷ after) = rw split at (
        All-sort (InRange (length routes)) (all_entries routes 0)
          (All-all_entries (length routes) routes 0 (omega arith))) in
      let bound : x.0 < length routes =
        All-middle (InRange (length routes)) before after x in_range in
      get_elem?-ne-none (map router_of routes) x.0 (rw (length-router_of routes) bound) gone
