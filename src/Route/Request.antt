-- ===== src/Route/Request.antt =====
-- The parts of a request that routing reads and writes, and what routing takes from other crates.
use spacegate.Common.{ℕ, Str, str_eq, Bool, if◌then◌else◌, Option, none, some, List, [], ◌∷◌}

pub record Uri : Type 0 where
  pub scheme : Option Str
  pub host : Option Str
  pub port : Option ℕ
  -- The path, and the query behind `?` if there is one.
  pub path_and_query : Option (Str × Option Str)

pub record Request : Type 0 where
  pub method : Str
  pub uri : Uri
  -- A name in lower case may stand several times.
  pub headers : List (Str × Str)

-- `regex`, `http` and `hyper`: regular expressions, the text of a header value and back, and the
-- checks by which a path with a query and a whole URI are built.
pub record Http : Type 1 where
  pub Regex : Type 0
  pub is_match : Regex → Str → Bool
  pub replace : Regex → Str → Str → Str
  pub to_str : Str → Option Str
  pub from_str : Str → Option Str
  pub from_maybe_shared : Str → Option (Str × Option Str)
  pub from_parts : Uri → Option Uri

-- `uri().path()`
abbrev pub path_of : Uri → Str
path_of u = elim u.path_and_query [ none ↦ [] | some (path, query) ↦ path ]

-- `uri().query()`
abbrev pub query_of : Uri → Option Str
query_of u = elim u.path_and_query [ none ↦ none | some (path, query) ↦ query ]

-- `headers().get(name)`
unfoldable pub header : Str → List (Str × Str) → Option Str
header name [] = none
header name ((k, v) ∷ hs) = if str_eq k name then some v else header name hs

-- A write through `headers_mut().get_mut(name)`.
unfoldable pub set_header : Str → Str → List (Str × Str) → List (Str × Str)
set_header name v [] = []
set_header name v ((k, w) ∷ hs) =
    if str_eq k name then (k, v) ∷ hs else (k, w) ∷ set_header name v hs
