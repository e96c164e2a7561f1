-- ===== src/Tests/Gateway.antt =====
-- Routing at a concrete gateway.
use spacegate.Common.{codes, ◌≡◌, ◌≢◌, refl, arith, none, some, List, [], ◌∷◌, map}
use mathlib.Core.List.{Perm}
use spacegate.Common.Int.{pos}
use spacegate.Gateway.Build.Sort.{ByPriority}
use spacegate.Hostname.Tree.{get}
use spacegate.Gateway.Build.{Entry, router_of, create_http_router}
use spacegate.Gateway.Build.Fallback.{all_entries, holding, create_http_router-candidates}
use spacegate.Gateway.Route.{Routed, panicked, route, route_from, host_of}
use spacegate.Gateway.Route.Choice.{Means, route_from-Means}
use spacegate.Gateway.Requests.{routed, route-Means, route-ne-panicked}
use spacegate.Tests.Data.{no_address, http, request, routes, api_match}

-- The request names `api.example.com`, which no route has; the second route takes it all the same.
misrouted :
    routed http no_address no_address routes (request (codes "/api/x") none)
    ≡ Routed.found 1 0
        (record (request (codes "/api/x") none) {
          uri = record ((request (codes "/api/x") none).uri) {
            path_and_query = some (codes "/v1/x", none);
          };
        })
        (codes "main")
        (some api_match)
unfolding route create_http_router spacegate.Hostname.Modify.get_mut_by_iter
    spacegate.Common.rsplit_once spacegate.Hostname.Node.find spacegate.Route.Match.match_request
    spacegate.Route.Match.rewrite_request spacegate.Hostname.Node.get
misrouted = refl

abbrev indices : List Entry
indices = (1, pos 5) ∷ (0, pos 1) ∷ []

create_http_router-candidates_example :
    (es : List Entry) × (get no_address no_address
        (create_http_router no_address no_address routes).hostname_tree
        (codes "nowhere.net")
      ≡ holding es)
    × Perm es (all_entries routes 0)
    × ByPriority es
create_http_router-candidates_example =
    create_http_router-candidates no_address no_address routes (codes "nowhere.net")
      ((refl, tt), ((refl, tt), tt)) ((omega arith, omega arith), ((omega arith, omega arith), tt))
      refl

route_from-Means_example :
    Means http
      (map router_of routes)
      indices
      (request (codes "/api/x") none)
      (route_from http (map router_of routes) indices (request (codes "/api/x") none))
route_from-Means_example =
    route_from-Means http (map router_of routes) (request (codes "/api/x") none) indices

route-Means_example :
    (es : List Entry) × Perm es (all_entries routes 0)
    × ByPriority es
    × Means http
        (map router_of routes)
        es
        (request (codes "/api/x") none)
        (routed http no_address no_address routes (request (codes "/api/x") none))
unfolding host_of
route-Means_example =
    route-Means http no_address no_address routes (request (codes "/api/x") none)
      (codes "api.example.com") ((refl, tt), ((refl, tt), tt))
      ((omega arith, omega arith), ((omega arith, omega arith), tt)) refl refl

route-ne-panicked_example :
    routed http no_address no_address routes (request (codes "/api/x") none) ≢ panicked
unfolding host_of
route-ne-panicked_example =
    route-ne-panicked http no_address no_address routes (request (codes "/api/x") none)
      (codes "api.example.com") ((refl, tt), ((refl, tt), tt)) refl refl
