-- ===== src/Shell/Handler.antt =====
-- crates/shell/src/config.rs: the handler of configuration events.
use spacegate.Common.{Str, Option, none, some, inl, inr}
use spacegate.Common.Result.{ok, err}
use spacegate.Plugin.Instance.{PluginInstanceId}
use spacegate.Plugin.Repository.{Failure, create_or_update_instance, remove_instance}
use spacegate.Shell.Retrieve.{
  Kernel, Retrieve, ConfigItem, retrieve_config_item, retrieve_config_item_all_routes,
  retrieve_config,
}
use spacegate.Shell.Running.{
  World, create as create_instance, global_save, global_shutdown, global_update, global_reset,
  global_init,
}

pub data ConfigEventType : Type 0 where
  create : ConfigEventType
  update : ConfigEventType
  delete : ConfigEventType

pub data ConfigType : Type 0 where
  gateway : Str → ConfigType
  route : Str → Str → ConfigType
  plugin : PluginInstanceId → ConfigType
  global : ConfigType

pub record ListenEvent : Type 0 where
  pub config : ConfigType
  pub event_type : ConfigEventType

module _ (k : Kernel) where
  -- An error of the store or of the plugin repository; it is logged.
  pub data HandlerError : Type 0 where
    not_retrieved : k.BoxError → HandlerError
    not_removed : Failure k.BoxError → HandlerError

  unfoldable pub create_gateway : Str → ConfigItem k → World k → World k
  unfolding create_instance global_save
  create_gateway name item w = elim (create_instance k item) [
    | some gw ↦ global_save k name gw w
    | none ↦ w
  ]

  unfoldable pub handle_gateway :
      Str → ConfigEventType → Retrieve k → World k → World k × Option HandlerError
  unfolding retrieve_config_item global_shutdown create_gateway
  handle_gateway name create r w = elim (retrieve_config_item k r name) [
    | err e ↦ (w, some (not_retrieved e))
    | ok none ↦ (w, none)
    | ok (some item) ↦ (create_gateway name item w, none)
  ]
  handle_gateway name update r w = elim (retrieve_config_item k r name) [
    | err e ↦ (w, some (not_retrieved e))
    | ok none ↦ (w, none)
    | ok (some item) ↦ (create_gateway name item (global_shutdown k name w), none)
  ]
  handle_gateway name delete r w = (global_shutdown k name w, none)

  unfoldable pub handle_route : Str → Retrieve k → World k → World k × Option HandlerError
  unfolding retrieve_config_item_all_routes global_update
  handle_route gateway_name r w = elim (retrieve_config_item_all_routes k r gateway_name) [
    | err e ↦ (w, some (not_retrieved e))
    | ok routes ↦ (global_update k gateway_name routes w, none)
  ]

  unfoldable pub update_plugin :
      PluginInstanceId → Retrieve k → World k → World k × Option HandlerError
  unfolding create_or_update_instance
  update_plugin id r w = elim (r.retrieve_plugin id) [
    | err e ↦ (w, some (not_retrieved e))
    | ok none ↦ (w, none)
    | ok (some config) ↦ (
      record w { repo = (create_or_update_instance k.Value k.Function k.BoxError config w.repo).0 },
      none,
    )
  ]

  unfoldable pub remove_plugin : PluginInstanceId → World k → World k × Option HandlerError
  unfolding remove_instance
  remove_plugin id w =
      let (repo, result) = remove_instance k.Value k.Function k.BoxError id w.repo in
      (record w { repo = repo }, elim result [ inl e ↦ some (not_removed e) | inr points ↦ none ])

  unfoldable pub handle_plugin :
      PluginInstanceId → ConfigEventType → Retrieve k → World k → World k × Option HandlerError
  unfolding update_plugin remove_plugin
  handle_plugin id create r w = update_plugin id r w
  handle_plugin id update r w = update_plugin id r w
  handle_plugin id delete r w = remove_plugin id w

  unfoldable pub handle_global : Retrieve k → World k → World k × Option HandlerError
  unfolding retrieve_config global_reset global_init
  handle_global r w = elim (retrieve_config k r) [
    | err e ↦ (w, some (not_retrieved e))
    | ok config ↦ (global_init k config (global_reset k w), none)
  ]

  unfoldable pub handler : ListenEvent → Retrieve k → World k → World k × Option HandlerError
  unfolding handle_gateway handle_route handle_plugin handle_global
  handler event r w = elim event.config [
    | gateway name ↦ handle_gateway name event.event_type r w
    | route gateway_name name ↦ handle_route gateway_name r w
    | plugin id ↦ handle_plugin id event.event_type r w
    | global ↦ handle_global r w
  ]
