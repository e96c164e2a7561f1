-- ===== src/Gateway/Build.antt =====
-- `create_http_router`

pub mod Sort
pub mod Fallback
use spacegate.Common.{
  ℕ, suc, Str, codes, is_empty, if◌then◌else◌, Option, none, some, List, [], ◌∷◌, ◌++◌, map,
}
use spacegate.Common.Int.{ℤ, leb_ℤ, neg_i16}
use spacegate.Hostname.Tree.{HostnameTree, empty, get_mut, set, for_each_mut}
use spacegate.Route.Request.{Http}
use spacegate.Route.Match.{HttpRouteMatch}

-- A route's index with its priority, an `i16`.
abbrev pub Entry : Type 0
Entry = ℕ × ℤ

-- A rule without a match takes every request.
abbrev pub Rule : Http → Type 0
Rule h = Option (List (HttpRouteMatch h))

pub record HttpRoute (h : Http) : Type 0 where
  pub name : Str
  pub hostnames : List Str
  pub rules : List (Rule h)
  pub priority : ℤ

pub record HttpRouter (h : Http) : Type 0 where
  pub name : Str
  pub hostnames : List Str
  pub rules : List (Rule h)

-- `sort_unstable_by_key(|(_, p)| -*p)`, as an insertion sort: it puts equal keys in one of the orders
-- that an unstable sort may.
abbrev pub key : Entry → ℤ
key e = neg_i16 e.1

unfoldable pub insert_sorted : Entry → List Entry → List Entry
insert_sorted e [] = e ∷ []
insert_sorted e (x ∷ xs) =
    let rest = insert_sorted e xs in if leb_ℤ (key e) (key x) then e ∷ x ∷ xs else x ∷ rest

unfoldable pub sort : List Entry → List Entry
unfolding insert_sorted
sort [] = []
sort (e ∷ es) = insert_sorted e (sort es)

abbrev pub router_of : {h : Http} → HttpRoute h → HttpRouter h
router_of r = record { name = r.name; hostnames = r.hostnames; rules = r.rules }

pub record GatewayRouter (h : Http) : Type 0 where
  pub routers : List (HttpRouter h)
  pub hostname_tree : HostnameTree (List Entry)

module _ (parse_ipv4 parse_ipv6 : Str → Option ℕ) where
  -- `if let Some(indices) = get_mut(hostname) { push } else { set("*", vec![..]) }`
  unfoldable pub add_host : Str → Entry → HostnameTree (List Entry) → HostnameTree (List Entry)
  unfolding get_mut set
  add_host hostname e t =
      elim (get_mut parse_ipv4 parse_ipv6 (λ indices. indices ++ e ∷ []) t hostname) [
        | some t' ↦ t'
        | none ↦ set parse_ipv4 parse_ipv6 t (codes "*") (e ∷ [])
      ]

  unfoldable pub add_hosts :
      List Str → Entry → HostnameTree (List Entry) → HostnameTree (List Entry)
  unfolding add_host
  add_hosts [] e t = t
  add_hosts (hostname ∷ hostnames) e t = add_hosts hostnames e (add_host hostname e t)

  unfoldable pub add_routes :
      {h : Http} → List (HttpRoute h) → ℕ → HostnameTree (List Entry) → HostnameTree (List Entry)
  unfolding add_hosts
  add_routes [] idx t = t
  add_routes (r ∷ rs) idx t =
      let e : Entry = (idx, r.priority) in
      let t' =
        if is_empty r.hostnames then add_host (codes "*") e t else add_hosts r.hostnames e t in
      add_routes rs (suc idx) t'

  unfoldable pub create_http_router : {h : Http} → List (HttpRoute h) → GatewayRouter h
  unfolding add_routes for_each_mut empty sort
  create_http_router routes = record {
    routers = map router_of routes;
    hostname_tree = for_each_mut sort (add_routes routes 0 empty);
  }
