-- ===== src/Tests/Data.antt =====
-- Concrete inputs: parsers, the other crates, requests, matches and routes.
use spacegate.Common.{ℕ, Str, codes, Option, none, some, List, [], ◌∷◌, str_eq}
use spacegate.Common.Int.{pos}
use spacegate.Route.Request.{Uri, Request, Http}
use spacegate.Route.Path.{HttpPathMatchRewrite}
use spacegate.Route.Match.{HttpRouteMatch, HttpQueryMatch, SgHttpQueryMatchPolicy}
use spacegate.Gateway.Build.{HttpRoute}

-- No text is an address.
abbrev pub no_address : Str → Option ℕ
no_address s = none

-- A regular expression that matches one text; header values that are all texts; URIs that are all
-- valid.
abbrev pub http : Http
http = record {
  Regex = Str;
  is_match = str_eq;
  replace = λ re path value. value;
  to_str = λ v. some v;
  from_str = λ v. some v;
  from_maybe_shared = λ s. some (s, none);
  from_parts = λ u. some u;
}

abbrev pub uri : Str → Option Str → Uri
uri path query = record {
  scheme = none;
  host = some (codes "api.example.com");
  port = none;
  path_and_query = some (path, query);
}

abbrev pub request : Str → Option Str → Request
request path query = record {
  method = codes "GET";
  uri = uri path query;
  headers = (codes "accept", codes "text/html") ∷ [];
}

abbrev pub api_match : HttpRouteMatch http
api_match = record {
  path = some (HttpPathMatchRewrite.prefix (codes "/api") (some (codes "/v1")));
  header = none;
  query = none;
  method = some (codes "get" ∷ []);
}

abbrev pub id_match : HttpQueryMatch http
id_match = record { name = codes "id"; policy = SgHttpQueryMatchPolicy.exact (codes "7") }

-- Two routes with different host names.
abbrev pub routes : List (HttpRoute http)
routes =
    record {
      name = codes "other";
      hostnames = codes "other.org" ∷ [];
      rules = some [] ∷ [];
      priority = pos 1;
    }
    ∷ record {
      name = codes "main";
      hostnames = codes "example.org" ∷ [];
      rules = some (api_match ∷ []) ∷ none ∷ [];
      priority = pos 5;
    }
    ∷ []
