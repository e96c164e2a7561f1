-- ===== src/Tests/Maintenance.antt =====
-- A plugin under maintenance at night, with one address left out.
use mathlib.Core.Path.{subst}
use mathlib.Core.Option.{some-injective}
use spacegate.Common.{
  ℕ, ◌==◌, ◌≡◌, ◌↔◌, ◌⊎◌, refl, arith, if◌then◌else◌, codes, str_eq, none, some, List, [], ◌∷◌,
}
use spacegate.Route.Request.{Request, path_of}
use spacegate.Plugin.Maintenance.{
  Nets, TimeRange, MaintenancePluginConfig, Response, inner, reply, create, text, page, call,
}
use spacegate.Plugin.Maintenance.Shut.{OfDay}
use spacegate.Plugin.Maintenance.Laws.{Answered, Shut, call_lem}
use spacegate.Tests.Data.{http, request}

-- Addresses are numbers; the only text of one is `10.0.0.7`.
abbrev nets : Nets
nets = record {
  IpAddr = ℕ;
  IpNet = ℕ;
  parse_net = λ s. none;
  parse_addr = λ s. if str_eq s (codes "10.0.0.7") then some 7 else none;
  net_of = λ a. a;
  contains = λ net a. net == a;
}

-- From 22:00 to 02:00.
abbrev nights : List TimeRange
nights = record { start = 79200000000000; end = 7200000000000 } ∷ []

abbrev at_night : MaintenancePluginConfig nets
at_night = record {
  enabled_time_range = some nights;
  exclude_ip_range = some (codes "10.0.0.7" ∷ codes "nowhere" ∷ []);
  title = codes "Closed";
  msg = codes "a\nb";
  redirect = some (codes "/closed");
}

-- An hour past midnight.
abbrev one : ℕ
one = 3600000000000

nights-OfDay : (ranges : List TimeRange) → at_night.enabled_time_range ≡ some ranges → OfDay ranges
nights-OfDay ranges e = subst OfDay (some-injective nights ranges e) (omega arith, omega arith, tt)

call_lem_example :
    ((call nets http (create nets at_night) one (some 9) (request (codes "/x") none) ≡ inner)
      ↔ (¬ Shut nets http at_night one 9)
        ⊎ (at_night.redirect ≡ some (path_of ((request (codes "/x") none).uri))))
    × ((r : Response)
        → call nets http (create nets at_night) one (some 9) (request (codes "/x") none) ≡ reply r
        → Shut nets http at_night one 9 × Answered nets http at_night r)
call_lem_example =
    call_lem nets http at_night one 9 (request (codes "/x") none) (omega arith) nights-OfDay

-- The page is not asked for with a space in front of its type.
abbrev spaced : Request
spaced = record (request (codes "/x") none) {
  headers = (codes "accept", codes "application/xml, text/html") ∷ [];
}

sent_away :
    call nets http (create nets at_night) one (some 9) (request (codes "/x") none)
    ≡ reply (record {
      status = 307;
      content_type = codes "text/html";
      location = some (codes "/closed");
      body = page (codes "Closed") (codes "a<br>b");
    })
unfolding call create
sent_away = refl

heading_only :
    call nets http (create nets (record at_night { redirect = none })) one (some 9) spaced
    ≡ reply (record {
      status = 503;
      content_type = codes "text/html";
      location = none;
      body = text (codes "<h1>Closed</h1>");
    })
unfolding call create
heading_only = refl

left_out : call nets http (create nets at_night) one (some 7) (request (codes "/x") none) ≡ inner
unfolding call create
left_out = refl
