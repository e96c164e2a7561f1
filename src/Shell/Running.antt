-- ===== src/Shell/Running.antt =====
-- crates/shell/src/server.rs: the gateways that run.
-- A gateway runs on until its token is cancelled, which only `shutdown` does: one that a map drops
-- goes to the orphans. Not modelled: sockets and TLS, Redis clients, and the mounts of plugins, which
-- change mount points only.
use spacegate.Common.{Str, str_eq, Option, none, some, List, [], ◌∷◌, if◌then◌else◌}
use spacegate.Common.Assoc.{get, put, remove}
use spacegate.Plugin.Instance.{PluginInstanceId, PluginConfig}
use spacegate.Plugin.Repository.{PluginRepository, create_or_update_instance, clear_instances}
use spacegate.Shell.Retrieve.{Kernel, Config, ConfigItem}

module _ (k : Kernel) where
  -- What a gateway listens with, and the router that its reloader holds.
  pub record RunningSgGateway : Type 0 where
    pub gateway : k.SgGateway
    pub router : k.HttpRouterService

  -- The global store, the gateways that run outside it, and the plugin repository.
  pub record World : Type 0 where
    pub store : List (Str × RunningSgGateway)
    pub orphans : List RunningSgGateway
    pub repo : PluginRepository k.Value k.Function k.BoxError

  -- `RunningSgGateway::create`
  unfoldable pub create : ConfigItem k → Option RunningSgGateway
  create item = elim (k.create_router_service (k.name item.gateway) item.routes) [
    | none ↦ none
    | some router ↦
        if k.listens item.gateway
        then some (record { gateway = item.gateway; router = router })
        else none
  ]

  -- An insert that replaces a gateway drops it.
  unfoldable pub global_save : Str → RunningSgGateway → World → World
  unfolding get put
  global_save name gateway w = record w {
    store = put str_eq name gateway w.store;
    orphans = elim (get str_eq name w.store) [ none ↦ w.orphans | some old ↦ old ∷ w.orphans ];
  }

  -- `global_remove`, and `shutdown` of what it gives.
  unfoldable pub global_shutdown : Str → World → World
  unfolding remove
  global_shutdown name w = record w { store = remove str_eq name w.store }

  unfoldable pub global_update : Str → List (Str × k.SgRoute) → World → World
  unfolding get put
  global_update name routes w = elim (k.create_router_service name routes) [
    | none ↦ w
    | some router ↦ elim (get str_eq name w.store) [
      | none ↦ w
      | some gw ↦ record w { store = put str_eq name (record gw { router = router }) w.store }
    ]
  ]

  unfoldable pub global_reset : World → World
  unfolding clear_instances
  global_reset w = record w {
    store = [];
    repo = clear_instances k.Value k.Function k.BoxError w.repo;
  }

  unfoldable pub init_plugins : List (PluginInstanceId × k.Value) → World → World
  unfolding create_or_update_instance
  init_plugins [] w = w
  init_plugins ((id, spec) ∷ plugins) w =
      let config : PluginConfig k.Value k.Function k.BoxError = record {
        id = id;
        display_name = none;
        spec = spec;
      } in
      init_plugins plugins (record w {
        repo = (create_or_update_instance k.Value k.Function k.BoxError config w.repo).0;
      })

  unfoldable pub init_gateways : List (Str × ConfigItem k) → World → World
  unfolding create global_save
  init_gateways [] w = w
  init_gateways ((name, item) ∷ items) w = elim (create item) [
    | some gateway ↦ init_gateways items (global_save name gateway w)
    | none ↦ init_gateways items w
  ]

  unfoldable pub global_init : Config k → World → World
  unfolding init_plugins init_gateways
  global_init config w = init_gateways config.gateways (init_plugins config.plugins w)
