-- ===== src/Shell/Memory.antt =====
-- crates/config/src/service/memory/mod.rs: the store that is a configuration.
pub mod Laws
use mathlib.Core.List.{append_assoc, append-nil}
use spacegate.Common.{
  ◌≡◌, refl, sym, ap, ◌∙◌, arith, Str, str_eq, str_eq_iff, Bool, true, false, any, if◌then◌else◌,
  Option, none, some, List, [], ◌∷◌, ◌++◌, map, Option-cases, inl, inr,
}
use spacegate.Common.Assoc.{get, put}
use spacegate.Common.Unique.{Unique, put_all, put_all-Unique, split-Unique}
use spacegate.Common.Result.{Result, ok, err, ◌>>=◌}
use spacegate.Plugin.Instance.{PluginInstanceId, PluginConfig, id_eq, id_eq_iff}
use spacegate.Shell.Retrieve.{
  Kernel, Plugin, Retrieve, ConfigItem, Config, add_routes, retrieve_config_item_all_routes,
  retrieve_config_item, add_items, from_config_vec, retrieve_config,
}

module _ (k : Kernel) where
  -- `into_config_vec`, one by one.
  unfoldable pub config_of : PluginInstanceId × k.Value → PluginConfig k.Value k.Function k.BoxError
  config_of (id, spec) = record { id = id; display_name = none; spec = spec }

  -- `Retrieve for Memory`
  unfoldable pub memory : Config k → Retrieve k
  unfolding config_of get
  memory config = record {
    retrieve_config_item_gateway = λ gateway_name. elim (get str_eq gateway_name config.gateways) [
      | none ↦ ok none
      | some item ↦ ok (some item.gateway)
    ];
    retrieve_config_item_route = λ gateway_name route_name.
        elim (get str_eq gateway_name config.gateways) [
          | none ↦ ok none
          | some item ↦ ok (get str_eq route_name item.routes)
        ];
    retrieve_config_item_route_names = λ name. elim (get str_eq name config.gateways) [
      | none ↦ ok []
      | some item ↦ ok (map (λ e. e.0) item.routes)
    ];
    retrieve_config_names = ok (map (λ e. e.0) config.gateways);
    retrieve_all_plugins = ok (map config_of config.plugins);
    retrieve_plugin = λ id. elim (get id_eq id config.plugins) [
      | none ↦ ok none
      | some spec ↦ ok (some (config_of (id, spec)))
    ];
  }
