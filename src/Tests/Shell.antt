-- ===== src/Tests/Shell.antt =====
-- The shell at a concrete kernel, whose gateways, routes and routers are texts.
use mathlib.Core.Path.{subst}
use mathlib.Core.Option.{some-injective, none-ne-some}
use spacegate.Common.{
  Bool-cases, ◌≡◌, refl, sym, ◌∙◌, Str, codes, str_eq, if◌then◌else◌, true, false, none, some, List,
  [], ◌∷◌, map, inl, inr,
}
use spacegate.Common.Assoc.{get, put, remove}
use spacegate.Common.Result.{ok}
use spacegate.Common.Unique.{Unique}
use spacegate.Plugin.Instance.{anon, mono}
use spacegate.Shell.Memory.Laws.{IsMap}
use spacegate.Shell.Retrieve.{
  Kernel, Retrieve, ConfigItem, Config, retrieve_config_item, retrieve_config_item_all_routes,
  add_routes,
}
use spacegate.Shell.Running.{World}
use spacegate.Shell.Handler.{ListenEvent, gateway, route, create, update, delete, handler}
use spacegate.Shell.Sync.{
  InSync, Changes, gateway_created, gateway_updated, gateway_deleted, route_changed, done, change,
  last_store, handle_all, expected,
}
use spacegate.Shell.Sync.Laws.{handle_all-InSync}

-- A router is the list of its routes; it is refused if there is one of the name `bad`.
abbrev texts : Kernel
texts = record {
  SgGateway = Str;
  SgRoute = Str;
  HttpRouterService = List (Str × Str);
  Value = Str;
  Function = Str;
  BoxError = Str;
  name = λ g. g;
  create_router_service =
      λ name routes. elim (get str_eq (codes "bad") routes) [ none ↦ some routes | some r ↦ none ];
  listens = λ g. true;
}

abbrev nothing : Retrieve texts
nothing = record {
  retrieve_config_item_gateway = λ name. ok none;
  retrieve_config_item_route = λ name n. ok none;
  retrieve_config_item_route_names = λ name. ok [];
  retrieve_config_names = ok [];
  retrieve_all_plugins = ok [];
  retrieve_plugin = λ id. ok none;
}

abbrev edge : Str
edge = codes "edge"

-- A store with the gateway `edge`.
abbrev with_routes : List (Str × Str) → Retrieve texts
with_routes routes = record nothing {
  retrieve_config_item_gateway = λ name. if str_eq name edge then ok (some edge) else ok none;
  retrieve_config_item_route = λ name n. ok (get str_eq n routes);
  retrieve_config_item_route_names = λ name. ok (map (λ e. e.0) routes);
  retrieve_config_names = ok (edge ∷ []);
}

abbrev first_routes : List (Str × Str)
first_routes = (codes "api", codes "/api") ∷ []

abbrev more_routes : List (Str × Str)
more_routes = (codes "api", codes "/api") ∷ (codes "web", codes "/") ∷ []

abbrev idle : World texts
idle = record {
  store = [];
  orphans = [];
  repo = record {
    plugins = [];
    instances = [];
    heap = record { cells = []; next_cell = 0; live = []; next_signal = 0 };
  };
}

abbrev steps : List (ListenEvent × Retrieve texts)
steps =
    (record { config = gateway edge; event_type = create }, with_routes first_routes)
    ∷ (record { config = route edge (codes "web"); event_type = create }, with_routes more_routes)
    ∷ (record { config = gateway edge; event_type = update }, with_routes first_routes)
    ∷ (record { config = gateway edge; event_type = delete }, nothing)
    ∷ []

others :
    (routes : List (Str × Str)) (n : Str)
    → str_eq n edge ≡ false
    → retrieve_config_item texts (with_routes routes) n ≡ ok none
unfolding retrieve_config_item
others routes n e = rw (retrieve_config_item, e) refl

idle-InSync : InSync texts nothing idle
unfolding expected retrieve_config_item get
idle-InSync = record { agrees = λ name. refl; no_orphans = refl }

steps-Changes : Changes texts nothing steps
unfolding retrieve_config_item retrieve_config_item_all_routes add_routes get
steps-Changes =
    change
      (gateway_created edge (record { gateway = edge; routes = first_routes }) (others first_routes)
        refl refl)
      (change
        (route_changed edge (record { gateway = edge; routes = first_routes })
          (record { gateway = edge; routes = more_routes }) first_routes more_routes (codes "web")
          create (λ n e. others more_routes n e ∙ sym (others first_routes n e)) refl refl refl refl
          refl refl refl)
        (change
          (gateway_updated edge (record { gateway = edge; routes = first_routes })
            (λ n e. others first_routes n e ∙ sym (others more_routes n e)) refl)
          (change (gateway_deleted edge (λ n e. sym (others first_routes n e)) refl) done)))

handle_all-InSync_example :
    InSync texts (last_store texts nothing steps) (handle_all texts steps idle)
handle_all-InSync_example = handle_all-InSync texts steps-Changes idle idle-InSync

abbrev edge_config : Config texts
edge_config = record {
  gateways = (edge, record { gateway = edge; routes = more_routes }) ∷ [];
  plugins =
      (record { code = codes "limit"; name = mono }, codes "9")
      ∷ (record { code = codes "limit"; name = anon (codes "3") }, codes "7")
      ∷ [];
}

edge_config_routes :
    (name : Str) (item : ConfigItem texts)
    → get str_eq name edge_config.gateways ≡ some item
    → Unique str_eq item.routes
unfolding get
edge_config_routes name item h =
    let here : (e : str_eq name edge ≡ true)
        → get str_eq name edge_config.gateways
          ≡ some (record { gateway = edge; routes = more_routes }) =
      λ e. rw (get, e) refl in
    elim (Bool-cases (str_eq name edge)) [
      | inl e ↦
          subst (λ (i : ConfigItem texts). Unique str_eq i.routes)
            (some-injective _ _ (sym (here e) ∙ h)) (refl, (refl, tt))
      | inr e ↦ absurd (none-ne-some _ (sym (rw (get, e) refl) ∙ h))
    ]

edge_config-IsMap : IsMap texts edge_config
unfolding get
edge_config-IsMap = record {
  gateways = (refl, tt);
  routes = edge_config_routes;
  plugins = (refl, (refl, tt));
}

abbrev running : World texts
running = record idle { store = (edge, record { gateway = edge; router = first_routes }) ∷ [] }

-- A gateway that is created under a name that runs leaves the old one running by itself.
left_running :
    (handler texts
      (record { config = gateway edge; event_type = create })
      (with_routes more_routes)
      running).0.orphans
    ≡ record { gateway = edge; router = first_routes } ∷ []
unfolding handler retrieve_config_item retrieve_config_item_all_routes add_routes get put
left_running = refl

abbrev bad_routes : List (Str × Str)
bad_routes = (codes "bad", codes "(") ∷ []

-- A gateway that is updated with routes that are refused is gone.
gone :
    (handler texts
      (record { config = gateway edge; event_type = update })
      (with_routes bad_routes)
      running).0.store
    ≡ []
unfolding handler retrieve_config_item retrieve_config_item_all_routes add_routes get put remove
gone = refl

-- Routes that are refused leave the router as it was.
kept :
    (handler texts
      (record { config = route edge (codes "bad"); event_type = update })
      (with_routes bad_routes)
      running).0.store
    ≡ running.store
unfolding handler retrieve_config_item retrieve_config_item_all_routes add_routes get put
kept = refl
