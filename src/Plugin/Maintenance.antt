-- ===== src/Plugin/Maintenance.antt =====
-- crates/plugin/src/plugins/maintenance.rs: the page that stands in for a service under maintenance.
pub mod Shut
pub mod Laws
use spacegate.Common.{
  ℕ, ltb, leb, if◌then◌else◌, Str, codes, str_eq, Bool, true, false, not, ◌&&◌, ◌==◌, any, Option,
  none, some, List, [], ◌∷◌, ◌++◌, split, Option-cases,
}
use spacegate.Route.Request.{Request, Http, path_of, header}

-- The crates `ipnet` and `std::net`: addresses, blocks of addresses and their texts.
pub record Nets : Type 1 where
  pub IpAddr : Type 0
  pub IpNet : Type 0
  pub parse_net : Str → Option IpNet
  pub parse_addr : Str → Option IpAddr
  pub net_of : IpAddr → IpNet
  pub contains : IpNet → IpAddr → Bool

-- `Range<NaiveTime>`, a time of day being the nanoseconds since midnight.
pub record TimeRange : Type 0 where
  pub start : ℕ
  pub end : ℕ

-- `start <= time && time < end`
unfoldable pub range_contains : ℕ → ℕ → ℕ → Bool
range_contains start end time = leb start time && ltb time end

unfoldable pub contains_time : ℕ → TimeRange → Bool
unfolding range_contains
contains_time time range =
    if ltb range.end range.start
    then not (range_contains range.end range.start time)
    else range_contains range.start range.end time

pub data ContentType : Type 0 where
  html : ContentType
  json : ContentType
  other : ContentType

-- The page has the title and the message in a fixed template, which is left out.
pub data Body : Type 0 where
  page : (title msg : Str) → Body
  text : Str → Body

pub record Response : Type 0 where
  pub status : ℕ
  pub content_type : Str
  pub location : Option Str
  pub body : Body

-- The request goes on to the service, or is answered, or the call fails, or there is no address.
pub data Called : Type 0 where
  inner : Called
  reply : Response → Called
  failed : Called
  panicked : Called

unfoldable pub content_type_of : List Str → ContentType
content_type_of [] = other
content_type_of (t ∷ ts) =
    let rest = content_type_of ts in
    if str_eq t (codes "text/html")
    then html
    else if str_eq t (codes "application/json")
    then json
    else rest

-- `replace('\n', "<br>")`
unfoldable pub with_breaks : Str → Str
with_breaks [] = []
with_breaks (c ∷ s) = let rest = with_breaks s in if c == 10 then codes "<br>" ++ rest else c ∷ rest

module _ (n : Nets) where
  pub record MaintenancePluginConfig : Type 0 where
    pub enabled_time_range : Option (List TimeRange)
    pub exclude_ip_range : Option (List Str)
    pub title : Str
    pub msg : Str
    pub redirect : Option Str

  pub record MaintenancePlugin : Type 0 where
    pub enabled_time_range : Option (List TimeRange)
    pub title : Str
    pub msg : Str
    pub redirect : Option Str
    pub exclude_ip_range : Option (List n.IpNet)

  -- `ip.parse::<IpNet>().or(ip.parse::<IpAddr>().map(IpNet::from)).ok()`
  unfoldable pub parse_ip : Str → Option n.IpNet
  parse_ip ip = elim (n.parse_net ip) [
    | some net ↦ some net
    | none ↦ elim (n.parse_addr ip) [ none ↦ none | some addr ↦ some (n.net_of addr) ]
  ]

  unfoldable pub parse_ips : List Str → List n.IpNet
  unfolding parse_ip
  parse_ips [] = []
  parse_ips (ip ∷ ips) =
      let rest = parse_ips ips in elim (parse_ip ip) [ none ↦ rest | some net ↦ net ∷ rest ]

  unfoldable pub create : MaintenancePluginConfig → MaintenancePlugin
  unfolding parse_ips
  create c = record {
    enabled_time_range = c.enabled_time_range;
    title = c.title;
    msg = c.msg;
    redirect = c.redirect;
    exclude_ip_range = elim c.exclude_ip_range [ none ↦ none | some ips ↦ some (parse_ips ips) ];
  }

  unfoldable pub check_by_time : MaintenancePlugin → ℕ → Bool
  unfolding contains_time
  check_by_time p time = elim p.enabled_time_range [
    | none ↦ true
    | some ranges ↦ any (contains_time time) ranges
  ]

  unfoldable pub check_ip : MaintenancePlugin → n.IpAddr → Bool
  check_ip p ip = elim p.exclude_ip_range [
    | none ↦ false
    | some ips ↦ any (λ net. n.contains net ip) ips
  ]

  unfoldable pub response : MaintenancePlugin → ContentType → Response
  unfolding with_breaks
  response p html = record {
    status = 503;
    content_type = codes "text/html";
    location = none;
    body = page p.title (with_breaks p.msg);
  }
  response p json = record {
    status = 503;
    content_type = codes "application/json";
    location = none;
    body = text (codes "\"" ++ p.msg ++ codes "\"");
  }
  response p other = record {
    status = 503;
    content_type = codes "text/html";
    location = none;
    body = text (codes "<h1>" ++ p.title ++ codes "</h1>");
  }

  module _ (h : Http) where
    unfoldable pub accepted : Request → ContentType
    unfolding header content_type_of split
    accepted req = elim (header (codes "accept") req.headers) [
      | none ↦ other
      | some accept ↦ elim (h.to_str accept) [
        | none ↦ content_type_of (split 44 [])
        | some s ↦ content_type_of (split 44 s)
      ]
    ]

    unfoldable pub answer : MaintenancePlugin → Request → Called
    unfolding accepted response
    answer p req = elim p.redirect [
      | none ↦ reply (response p (accepted req))
      | some redirect ↦
          if str_eq (path_of req.uri) redirect then inner else elim (h.from_str redirect) [
            | none ↦ failed
            | some v ↦
                reply (record (response p (accepted req)) { location = some v; status = 307 })
          ]
    ]

    -- The time of the call and the address that the request came from are given.
    unfoldable pub call : MaintenancePlugin → ℕ → Option n.IpAddr → Request → Called
    unfolding check_by_time check_ip answer
    call p now original_ip req = elim original_ip [
      | none ↦ panicked
      | some ip ↦ if check_by_time p now && not (check_ip p ip) then answer p req else inner
    ]
