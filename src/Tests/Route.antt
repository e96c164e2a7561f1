-- ===== src/Tests/Route.antt =====
-- Matching and rewriting at concrete requests.
use spacegate.Common.{
  Str, codes, ◌≡◌, ◌↔◌, refl, true, false, none, some, [], ◌∷◌, ◌++◌, length, drop, arith,
}
use spacegate.Route.Query.{items_from, items}
use spacegate.Route.Query.Ends.{items_from-enough}
use spacegate.Route.Path.{HttpPathMatchRewrite, path_segments, match_path, rewrite}
use spacegate.Route.Path.Laws.{
  BeginsWith, match_path-prefix_iff, rewrite-match_path, path_segments-rewrite,
}
use spacegate.Route.Match.{match_query}
use spacegate.Route.Match.Laws.{match_query-single_pair}
use spacegate.Tests.Data.{http, request, id_match}

runs :
    (rewrite http
        (HttpPathMatchRewrite.prefix (codes "api/iam") (some (codes "/iam")))
        (codes "api/iam/get_name/")
      ≡ some (codes "/iam/get_name/"))
    × (items (codes "a=1&b=2") ≡ (codes "a", some (codes "1")) ∷ (codes "b=2", none) ∷ [])
unfolding rewrite items
runs = (refl, refl)

match_path-prefix_iff_example :
    (match_path http (HttpPathMatchRewrite.prefix (codes "/api") none) (codes "/API//v1") ≡ true)
    ↔ BeginsWith (path_segments (codes "/API//v1")) (path_segments (codes "/api"))
match_path-prefix_iff_example = match_path-prefix_iff http (codes "/api") (codes "/API//v1") none

rewrite-match_path_example :
    (match_path http
          (HttpPathMatchRewrite.prefix (codes "/api") (some (codes "/v1")))
          (codes "/api/x")
        ≡ true
      → (new : Str) × (rewrite http
            (HttpPathMatchRewrite.prefix (codes "/api") (some (codes "/v1")))
            (codes "/api/x")
          ≡ some new))
    × (match_path http
            (HttpPathMatchRewrite.prefix (codes "/api") (some (codes "/v1")))
            (codes "/api/x")
          ≡ false
        → rewrite http
            (HttpPathMatchRewrite.prefix (codes "/api") (some (codes "/v1")))
            (codes "/api/x")
          ≡ none)
rewrite-match_path_example = rewrite-match_path http (codes "/api") (codes "/v1") (codes "/api/x")

path_segments-rewrite_example :
    path_segments (codes "/v1/x")
    ≡ path_segments (codes "/v1")
      ++ drop (length (path_segments (codes "/api"))) (path_segments (codes "/api/x"))
unfolding rewrite
path_segments-rewrite_example =
    path_segments-rewrite http (codes "/api") (codes "/v1") (codes "/api/x") (codes "/v1/x") refl

match_query-single_pair_example :
    match_query http id_match (request (codes "/x") (some (codes "id=7"))) ≡ false
match_query-single_pair_example =
    match_query-single_pair http id_match (request (codes "/x") (some (codes "id=7"))) b'i'
      (codes "d=7") refl (omega arith)

items_from-enough_example : items_from 9 (codes "a=1&b=2") ≡ items (codes "a=1&b=2")
items_from-enough_example = items_from-enough 9 (codes "a=1&b=2") (omega arith)
