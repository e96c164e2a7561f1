-- ===== src/Gateway/Build/Fallback.antt =====
-- Where the routes of a gateway stand in its tree of host names.
use spacegate.Common.{
  ℕ, suc, ◌≡◌, refl, sym, ap, ◌∙◌, Str, codes, is_empty, starts_with_code, to_ascii_lowercase,
  false, if◌then◌else◌, Option, none, some, List, [], ◌∷◌, ◌++◌, arith, All, All-append,
}
use spacegate.Common.Map.{lookup}
use spacegate.Hostname.Node as Node
use spacegate.Hostname.Node.{Node, new, get_by_iter, labels, find}
use spacegate.Hostname.Modify.{get_mut_by_iter}
use spacegate.Hostname.Iter.{for_each_node, walk, change_value}
use mathlib.Core.List.{append-nil, append_assoc, Perm}
use spacegate.Gateway.Build.Sort.{Negatable, ByPriority, sort-perm, sort-ByPriority, sort-nonempty}
use spacegate.Hostname.Tree.{HostnameTree, get, for_each_mut, without_port}
use spacegate.Route.Request.{Http}
use spacegate.Gateway.Build.{
  Entry, HttpRoute, add_host, add_hosts, add_routes, sort, create_http_router,
}

-- A tree that holds nothing but its fallback.
pub record IsBare {ℓ} {T : Type ℓ} (t : HostnameTree T) : Type ℓ where
  pub no_ipv4 : t.ipv4 ≡ []
  pub no_ipv6 : t.ipv6 ≡ []
  pub no_host : t.host ≡ new

module _ {ℓ} {T : Type ℓ} where
  get_by_iter-new : (h : List Str) → get_by_iter (new {T = T}) h ≡ none
  unfolding get_by_iter find
  get_by_iter-new [] = refl
  get_by_iter-new (s ∷ h) = refl

  get_mut_by_iter-new : (f : T → T) (h : List Str) → get_mut_by_iter f (new {T = T}) h ≡ none
  unfolding get_mut_by_iter find
  get_mut_by_iter-new f [] = refl
  get_mut_by_iter-new f (s ∷ h) = refl

  bare : Option T → HostnameTree T
  bare b = record { ipv4 = []; ipv6 = []; host = new; fallback = b }

  IsBare-bare : (t : HostnameTree T) → IsBare t → t ≡ bare t.fallback
  unfolding bare
  IsBare-bare t b = ground arith

-- A host that is no IPv6 address in brackets.
abbrev pub NoBracket : Str → Type 0
NoBracket host = starts_with_code b'[' host ≡ false

abbrev pub NoBrackets : List Str → Type 0
NoBrackets hosts = All NoBracket hosts

abbrev entries : Option (List Entry) → List Entry
entries none = []
entries (some es) = es

-- The entry of a route, once for each of its host names, and once if it names none.
abbrev pub copies : List Str → Entry → List Entry
copies [] e = []
copies (hostname ∷ hostnames) e = e ∷ copies hostnames e

abbrev pub entries_of : List Str → Entry → List Entry
entries_of [] e = e ∷ []
entries_of (hostname ∷ hostnames) e = copies (hostname ∷ hostnames) e

abbrev pub all_entries : {h : Http} → List (HttpRoute h) → ℕ → List Entry
all_entries [] idx = []
all_entries (r ∷ rs) idx = entries_of r.hostnames (idx, r.priority) ++ all_entries rs (suc idx)

-- The fallback that holds the entries.
abbrev pub holding : List Entry → Option (List Entry)
holding [] = none
holding (e ∷ es) = some (e ∷ es)

sort-holding : (es : List Entry) → change_value sort (holding es) ≡ holding (sort es)
unfolding sort
sort-holding [] = refl
sort-holding (e ∷ es) = let (x, xs, eq) = sort-nonempty e es in rw (eq) refl

module _ (P : Entry → Type 0) where
  All-copies : (hostnames : List Str) (e : Entry) → P e → All P (copies hostnames e)
  All-copies [] e k = tt
  All-copies (x ∷ hostnames) e k = (k, All-copies hostnames e k)

  pub All-entries_of : (hostnames : List Str) (e : Entry) → P e → All P (entries_of hostnames e)
  All-entries_of [] e k = (k, tt)
  All-entries_of (x ∷ hostnames) e k = All-copies (x ∷ hostnames) e k

pub All-priorities :
    {h : Http} (routes : List (HttpRoute h)) (idx : ℕ)
    → All (λ r. Negatable r.priority) routes
    → All (λ e. Negatable e.1) (all_entries routes idx)
All-priorities [] idx k = tt
All-priorities (r ∷ rs) idx k =
    All-append (λ e. Negatable e.1) (entries_of r.hostnames (idx, r.priority))
      (all_entries rs (suc idx))
      (All-entries_of (λ e. Negatable e.1) r.hostnames (idx, r.priority) k.0)
      (All-priorities rs (suc idx) k.1)

module _ (parse_ipv4 parse_ipv6 : Str → Option ℕ) where
  -- For a host without a bracket a bare tree answers with its fallback.
  get-bare {ℓ} :
      {T : Type ℓ} (b : Option T) (host : Str)
      → NoBracket host
      → get parse_ipv4 parse_ipv6 (bare b) host ≡ b
  unfolding get Node.get lookup bare
  get-bare {T} b host h =
      ground (arith, get_by_iter-new {T = T} (labels (to_ascii_lowercase (without_port host))))

  add_host-bare :
      (hostname : Str) (e : Entry) (es : List Entry)
      → NoBracket hostname
      → add_host parse_ipv4 parse_ipv6 hostname e (bare (holding es))
        ≡ bare (holding (es ++ e ∷ []))
  unfolding add_host lookup bare
  add_host-bare hostname e [] h = ground (
    arith,
    get_mut_by_iter-new {T = List Entry} (λ x. x ++ e ∷ [])
        (labels (to_ascii_lowercase (without_port hostname))),
  )
  add_host-bare hostname e (x ∷ es) h = ground (
    arith,
    get_mut_by_iter-new {T = List Entry} (λ x. x ++ e ∷ [])
        (labels (to_ascii_lowercase (without_port hostname))),
  )

  add_hosts-bare :
      (hostnames : List Str) (e : Entry) (es : List Entry)
      → NoBrackets hostnames
      → add_hosts parse_ipv4 parse_ipv6 hostnames e (bare (holding es))
        ≡ bare (holding (es ++ copies hostnames e))
  unfolding add_hosts
  add_hosts-bare [] e es h = ap (λ x. bare (holding x)) (sym (append-nil es))
  add_hosts-bare (hostname ∷ hostnames) e es h =
      ap (add_hosts parse_ipv4 parse_ipv6 hostnames e) (add_host-bare hostname e es h.0)
      ∙ add_hosts-bare hostnames e (es ++ e ∷ []) h.1
      ∙ ap (λ x. bare (holding x)) (append_assoc es (e ∷ []) (copies hostnames e))

  add_routes-bare :
      {h : Http} (routes : List (HttpRoute h)) (idx : ℕ) (es : List Entry)
      → All (λ r. NoBrackets r.hostnames) routes
      → add_routes parse_ipv4 parse_ipv6 routes idx (bare (holding es))
        ≡ bare (holding (es ++ all_entries routes idx))
  unfolding add_routes
  add_routes-bare [] idx es h = ap (λ x. bare (holding x)) (sym (append-nil es))
  add_routes-bare (r ∷ rs) idx es h =
      ap (add_routes parse_ipv4 parse_ipv6 rs (suc idx)) (one r.hostnames h.0)
      ∙ add_routes-bare rs (suc idx) (es ++ entries_of r.hostnames (idx, r.priority)) h.1
      ∙ ap (λ x. bare (holding x))
          (append_assoc es (entries_of r.hostnames (idx, r.priority)) (all_entries rs (suc idx)))
    where
      one :
          (hostnames : List Str)
          → NoBrackets hostnames
          → (if is_empty hostnames
              then add_host parse_ipv4 parse_ipv6 (codes "*") (idx, r.priority) (bare (holding es))
              else add_hosts parse_ipv4 parse_ipv6 hostnames (idx, r.priority) (bare (holding es)))
            ≡ bare (holding (es ++ entries_of hostnames (idx, r.priority)))
      one [] k = add_host-bare (codes "*") (idx, r.priority) es refl
      one (hostname ∷ hostnames) k = add_hosts-bare (hostname ∷ hostnames) (idx, r.priority) es k

  pub create_http_router-sorted :
      {h : Http} (routes : List (HttpRoute h)) (host : Str)
      → All (λ r. NoBrackets r.hostnames) routes
      → NoBracket host
      → get parse_ipv4 parse_ipv6
          (create_http_router parse_ipv4 parse_ipv6 routes).hostname_tree
          host
        ≡ change_value sort (holding (all_entries routes 0))
  unfolding create_http_router bare for_each_node walk
  create_http_router-sorted routes host k n =
      ap (λ t. get parse_ipv4 parse_ipv6 (for_each_mut sort t) host) (add_routes-bare routes 0 [] k)
      ∙ get-bare (change_value sort (holding (all_entries routes 0))) host n

  -- In a gateway built from routes whose host names are no bracketed addresses and whose
  -- priorities have a negation in 16 bits, the candidates of every unbracketed host are all
  -- routes, once for each host name that a route has and once if it has none, from the highest
  -- priority on: the host names themselves play no part. Where there is no route there are no
  -- candidates.
  pub create_http_router-candidates :
      {h : Http} (routes : List (HttpRoute h)) (host : Str)
      → All (λ r. NoBrackets r.hostnames) routes
      → All (λ r. Negatable r.priority) routes
      → NoBracket host
      → (es : List Entry) × (get parse_ipv4 parse_ipv6
            (create_http_router parse_ipv4 parse_ipv6 routes).hostname_tree
            host
          ≡ holding es)
        × Perm es (all_entries routes 0)
        × ByPriority es
  create_http_router-candidates routes host k p n =
      let all = all_entries routes 0 in
      (
        sort all,
        create_http_router-sorted routes host k n ∙ sort-holding all,
        sort-perm all,
        sort-ByPriority all (All-priorities routes 0 p),
      )
