-- ===== src/Shell/Sync/Laws.antt =====
-- What runs follows the configuration.
use spacegate.Common.{List}
use spacegate.Shell.Retrieve.{Kernel, Retrieve}
use spacegate.Shell.Running.{World}
use spacegate.Shell.Handler.{ListenEvent, handler}
use spacegate.Shell.Sync.{
  InSync, Change, Changes, gateway_created, gateway_updated, gateway_deleted, route_changed,
  plugin_changed, reloaded, done, change, last_store, handle_all,
}
use spacegate.Shell.Sync.Events.{
  create-InSync, update-InSync, delete-InSync, route-InSync, plugin-InSync,
}
use spacegate.Shell.Sync.Reload.{reload-InSync}

module _ (k : Kernel) where
  handler-InSync :
      {r r' : Retrieve k} {event : ListenEvent}
      → Change k r event r'
      → (w : World k) → InSync k r w
      → InSync k r' (handler k event r' w).0
  unfolding handler
  handler-InSync {r} {r'} (gateway_created name item same before after) w s =
      create-InSync k r r' w name item same before after s
  handler-InSync {r} {r'} (gateway_updated name item same after) w s =
      update-InSync k r r' w name item same after s
  handler-InSync {r} {r'} (gateway_deleted name same after) w s =
      delete-InSync k r r' w name same after s
  handler-InSync {r} {r'}
        (route_changed name old new before after route_name event_type same had has kept named
          listens built builds)
        w s =
      route-InSync k r r' w name old new before after same had has kept named listens built builds s
  handler-InSync {r} {r'} (plugin_changed id event_type same) w s =
      plugin-InSync k r r' w id event_type same s
  handler-InSync {r} {r'} (reloaded event_type names config lists got) w s =
      reload-InSync k r r' w names config lists got s

  -- Where each name runs what the store holds under it and nothing else runs, and each change of
  -- the store is followed by the handling of its event, the same holds behind all changes:
  -- gateways are created under names that the store did not have, updated and deleted, routes
  -- change of a listening gateway that is named as it is stored and has routers before and after,
  -- plugins change, and the whole configuration is reloaded from a store that lists its gateways.
  -- A gateway that cannot be built does not run.
  pub handle_all-InSync :
      {r : Retrieve k} {steps : List (ListenEvent × Retrieve k)}
      → Changes k r steps
      → (w : World k) → InSync k r w
      → InSync k (last_store k r steps) (handle_all k steps w)
  unfolding handle_all last_store
  handle_all-InSync done w s = s
  handle_all-InSync {r} (change {r' = r'} {event = event} c cs) w s =
      handle_all-InSync cs (handler k event r' w).0 (handler-InSync c w s)
