-- ===== src/Shell/Retrieve.antt =====
-- crates/config/src/service.rs: what a configuration store answers, and what is put together of it.
-- A map is an association list; the order in which the code goes through it plays no part.
use spacegate.Common.{Str, str_eq, Bool, Option, none, some, List, [], ◌∷◌}
use spacegate.Common.Assoc.{put}
use spacegate.Common.Result.{Result, ok, err, ◌>>=◌}
use spacegate.Plugin.Instance.{PluginInstanceId, PluginConfig, id_eq}

-- The gateways and routes of the configuration, and what the kernel builds of them: a router for
-- the routes of a gateway, which fails on bad matches, and the listeners of a gateway, which fail on
-- bad certificates. Plugins have specs, functions and errors.
pub record Kernel : Type 1 where
  pub SgGateway : Type 0
  pub SgRoute : Type 0
  pub HttpRouterService : Type 0
  pub Value : Type 0
  pub Function : Type 0
  pub BoxError : Type 0
  pub name : SgGateway → Str
  pub create_router_service : Str → List (Str × SgRoute) → Option HttpRouterService
  pub listens : SgGateway → Bool

module _ (k : Kernel) where
  abbrev pub Plugin : Type 0
  Plugin = PluginConfig k.Value k.Function k.BoxError

  pub record Retrieve : Type 0 where
    pub retrieve_config_item_gateway : Str → Result k.BoxError (Option k.SgGateway)
    pub retrieve_config_item_route : Str → Str → Result k.BoxError (Option k.SgRoute)
    pub retrieve_config_item_route_names : Str → Result k.BoxError (List Str)
    pub retrieve_config_names : Result k.BoxError (List Str)
    pub retrieve_all_plugins : Result k.BoxError (List Plugin)
    pub retrieve_plugin : PluginInstanceId → Result k.BoxError (Option Plugin)

  pub record ConfigItem : Type 0 where
    pub gateway : k.SgGateway
    pub routes : List (Str × k.SgRoute)

  -- A `Config`, without the port and the telemetry of the start.
  pub record Config : Type 0 where
    pub gateways : List (Str × ConfigItem)
    pub plugins : List (PluginInstanceId × k.Value)

  -- A route that cannot be had is left out.
  unfoldable pub add_routes :
      Retrieve → Str → List Str → List (Str × k.SgRoute) → List (Str × k.SgRoute)
  unfolding put
  add_routes r name [] routes = routes
  add_routes r name (n ∷ ns) routes = elim (r.retrieve_config_item_route name n) [
    | ok (some route) ↦ add_routes r name ns (put str_eq n route routes)
    | ok none ↦ add_routes r name ns routes
    | err e ↦ add_routes r name ns routes
  ]

  unfoldable pub retrieve_config_item_all_routes :
      Retrieve → Str → Result k.BoxError (List (Str × k.SgRoute))
  unfolding add_routes
  retrieve_config_item_all_routes r name = do
    names ← r.retrieve_config_item_route_names name
    ok (add_routes r name names [])

  unfoldable pub retrieve_config_item : Retrieve → Str → Result k.BoxError (Option ConfigItem)
  unfolding retrieve_config_item_all_routes
  retrieve_config_item r name = do
    found ← r.retrieve_config_item_gateway name
    elim found [
      | none ↦ ok none
      | some gateway ↦ do
        routes ← retrieve_config_item_all_routes r name
        ok (some (record { gateway = gateway; routes = routes }))
    ]

  -- The items of the names; the first error ends it.
  unfoldable pub add_items :
      Retrieve → List Str → List (Str × ConfigItem) → Result k.BoxError (List (Str × ConfigItem))
  unfolding retrieve_config_item put
  add_items r [] items = ok items
  add_items r (n ∷ ns) items = do
    item ← retrieve_config_item r n
    elim item [ none ↦ add_items r ns items | some i ↦ add_items r ns (put str_eq n i items) ]

  -- `PluginInstanceMap::from_config_vec`
  unfoldable pub from_config_vec :
      List Plugin → List (PluginInstanceId × k.Value) → List (PluginInstanceId × k.Value)
  unfolding put
  from_config_vec [] plugins = plugins
  from_config_vec (p ∷ ps) plugins = from_config_vec ps (put id_eq p.id p.spec plugins)

  unfoldable pub retrieve_config : Retrieve → Result k.BoxError Config
  unfolding add_items from_config_vec
  retrieve_config r = do
    names ← r.retrieve_config_names
    gateways ← add_items r names []
    plugins ← r.retrieve_all_plugins
    ok (record { gateways = gateways; plugins = from_config_vec plugins [] })
