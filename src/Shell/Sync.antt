-- ===== src/Shell/Sync.antt =====
-- What runs, against what the configuration store holds.
mod Events
mod Items
mod Start
mod Reload
pub mod Laws
use spacegate.Common.{◌≡◌, Str, str_eq, Bool, true, false, any, Option, none, some, List, [], ◌∷◌}
use spacegate.Common.Assoc.{get}
use spacegate.Common.Result.{Result, ok, err}
use spacegate.Plugin.Instance.{PluginInstanceId}
use spacegate.Shell.Retrieve.{
  Kernel, Retrieve, ConfigItem, Config, retrieve_config_item, retrieve_config,
}
use spacegate.Shell.Running.{RunningSgGateway, World, create as create_instance}
use spacegate.Shell.Handler.{
  ConfigEventType, create, update, delete, ConfigType, gateway, route, plugin, global, ListenEvent,
  handler,
}

module _ (k : Kernel) where
  abbrev pub item_of : Result k.BoxError (Option (ConfigItem k)) → Option (ConfigItem k)
  item_of (ok o) = o
  item_of (err e) = none

  abbrev pub started : Option (ConfigItem k) → Option (RunningSgGateway k)
  unfolding create_instance
  started none = none
  started (some item) = create_instance k item

  -- The gateway that should run under a name.
  unfoldable pub expected : Retrieve k → Str → Option (RunningSgGateway k)
  unfolding retrieve_config_item started
  expected r name = started (item_of (retrieve_config_item k r name))

  -- Each name runs what the store holds, and nothing else runs.
  pub record InSync (r : Retrieve k) (w : World k) : Type 0 where
    pub agrees : (name : Str) → get str_eq name w.store ≡ expected r name
    pub no_orphans : w.orphans ≡ []

  -- Two stores with the same gateways and routes, but those of one name.
  abbrev pub SameBut : Str → Retrieve k → Retrieve k → Type 0
  unfolding retrieve_config_item
  SameBut name r r' =
      (n : Str) → str_eq n name ≡ false → retrieve_config_item k r' n ≡ retrieve_config_item k r n

  -- A store lists all the gateways that it has.
  abbrev pub Lists : Retrieve k → List Str → Type 0
  Lists r names =
      (r.retrieve_config_names ≡ ok names)
      × ((n : Str) → any (str_eq n) names ≡ false → retrieve_config_item k r n ≡ ok none)

  -- A change of the store and the event that tells of it. Routes change of a gateway that is named as
  -- it is stored, listens, and has routers for its routes before and after.
  pub data Change : Retrieve k → ListenEvent → Retrieve k → Type 0 where
    gateway_created :
        {r r' : Retrieve k} (name : Str) (item : ConfigItem k)
        → SameBut name r r'
        → retrieve_config_item k r name ≡ ok none
        → retrieve_config_item k r' name ≡ ok (some item)
        → Change r (record { config = gateway name; event_type = create }) r'
    gateway_updated :
        {r r' : Retrieve k} (name : Str) (item : ConfigItem k)
        → SameBut name r r'
        → retrieve_config_item k r' name ≡ ok (some item)
        → Change r (record { config = gateway name; event_type = update }) r'
    gateway_deleted :
        {r r' : Retrieve k} (name : Str)
        → SameBut name r r'
        → retrieve_config_item k r' name ≡ ok none
        → Change r (record { config = gateway name; event_type = delete }) r'
    route_changed :
        {r r' : Retrieve k} (name : Str) (old new : ConfigItem k)
        (before after : k.HttpRouterService) (route_name : Str) (event_type : ConfigEventType)
        → SameBut name r r'
        → retrieve_config_item k r name ≡ ok (some old)
        → retrieve_config_item k r' name ≡ ok (some new)
        → new.gateway ≡ old.gateway
        → k.name old.gateway ≡ name
        → k.listens old.gateway ≡ true
        → k.create_router_service name old.routes ≡ some before
        → k.create_router_service name new.routes ≡ some after
        → Change r (record { config = route name route_name; event_type = event_type }) r'
    plugin_changed :
        {r r' : Retrieve k} (id : PluginInstanceId) (event_type : ConfigEventType)
        → ((n : Str) → retrieve_config_item k r' n ≡ retrieve_config_item k r n)
        → Change r (record { config = plugin id; event_type = event_type }) r'
    reloaded :
        {r r' : Retrieve k} (event_type : ConfigEventType) (names : List Str) (config : Config k)
        → Lists r' names
        → retrieve_config k r' ≡ ok config
        → Change r (record { config = global; event_type = event_type }) r'

  -- A sequence of changes, each with its event.
  pub data Changes : Retrieve k → List (ListenEvent × Retrieve k) → Type 0 where
    done : {r : Retrieve k} → Changes r []
    change :
        {r r' : Retrieve k} {event : ListenEvent} {steps : List (ListenEvent × Retrieve k)}
        → Change r event r'
        → Changes r' steps
        → Changes r ((event, r') ∷ steps)

  -- The store at the end.
  unfoldable pub last_store : Retrieve k → List (ListenEvent × Retrieve k) → Retrieve k
  last_store r [] = r
  last_store r ((event, r') ∷ steps) = last_store r' steps

  -- Each event is handled with the store behind its change; errors are logged only.
  unfoldable pub handle_all : List (ListenEvent × Retrieve k) → World k → World k
  unfolding handler
  handle_all [] w = w
  handle_all ((event, r) ∷ steps) w = handle_all steps (handler k event r w).0
