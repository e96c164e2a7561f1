-- ===== src/Shell/Sync/Events.antt =====
-- The events about one gateway, its routes and plugins.
use spacegate.Common.{
  ◌≡◌, refl, sym, ap, ◌∙◌, arith, Str, str_eq, str_eq_iff, str_eq_sound, str_eq_refl, Bool, true,
  false, if◌then◌else◌, Option, none, some, Bool-cases, Option-cases, inl, inr,
}
use spacegate.Common.Assoc.{get, get-put, get-remove}
use spacegate.Common.Result.{ok, Result-cases}
use spacegate.Plugin.Instance.{PluginInstanceId}
use spacegate.Shell.Retrieve.{
  Kernel, Retrieve, ConfigItem, retrieve_config_item, retrieve_config_item_all_routes,
}
use spacegate.Shell.Running.{
  RunningSgGateway, World, create as create_instance, global_save, global_shutdown, global_update,
}
use spacegate.Shell.Handler.{
  ConfigEventType, create, update, delete, create_gateway, handle_gateway, handle_route,
  handle_plugin, update_plugin, remove_plugin,
}
use spacegate.Shell.Sync.{item_of, started, expected, InSync, SameBut}

if-over {ℓ} :
    {A : Type ℓ} (b : Bool) (a c x y : A)
    → x ≡ (if b then c else y)
    → (if b then a else x) ≡ (if b then a else y)
if-over true a c x y h = refl
if-over false a c x y h = h

module _ (k : Kernel) where
  expected-same :
      (r r' : Retrieve k) (n : Str)
      → retrieve_config_item k r' n ≡ retrieve_config_item k r n
      → expected k r' n ≡ expected k r n
  unfolding expected
  expected-same r r' n h = ap (λ x. started k (item_of k x)) h

  expected-item :
      (r : Retrieve k) (n : Str) (o : Option (ConfigItem k))
      → retrieve_config_item k r n ≡ ok o
      → expected k r n ≡ started k o
  unfolding expected
  expected-item r n o h = ap (λ x. started k (item_of k x)) h

  -- A world that changes under one name as the store does.
  in_sync :
      (r r' : Retrieve k) (w w' : World k) (name : Str) (new : Option (RunningSgGateway k))
      → SameBut k name r r'
      → InSync k r w
      → ((n : Str) → get str_eq n w'.store ≡ (if str_eq n name then new else get str_eq n w.store))
      → new ≡ expected k r' name
      → w'.orphans ≡ w.orphans
      → InSync k r' w'
  unfolding SameBut
  in_sync r r' w w' name new same s store now orphans = record {
    agrees = λ n. elim (Bool-cases (str_eq n name)) [
      | inl e ↦
          store n
          ∙ ap (λ b. if b then new else get str_eq n w.store) e
          ∙ now
          ∙ ap (expected k r') (sym (str_eq_sound n name e))
      | inr e ↦
          store n
          ∙ ap (λ b. if b then new else get str_eq n w.store) e
          ∙ s.agrees n
          ∙ sym (expected-same r r' n (same n e))
    ];
    no_orphans = orphans ∙ s.no_orphans;
  }

  -- A gateway is created under a name under which none runs.
  pub create_gateway-store :
      (name : Str) (item : ConfigItem k) (w : World k)
      → get str_eq name w.store ≡ none
      → ((n : Str)
          → get str_eq n (create_gateway k name item w).store
            ≡ (if str_eq n name then create_instance k item else get str_eq n w.store))
        × ((create_gateway k name item w).orphans ≡ w.orphans)
  unfolding create_gateway global_save
  create_gateway-store name item w free = elim (Option-cases (create_instance k item)) [
    | inl e ↦
        rw (create_gateway, e)
          (
            λ n. elim (Bool-cases (str_eq n name)) [
              | inl h ↦ rw (h, str_eq_sound n name h) free
              | inr h ↦ rw h refl
            ],
            refl,
          )
    | inr (gw, e) ↦
        rw (create_gateway, e)
          (λ n. get-put str_eq str_eq_iff name n gw w.store, rw (global_save, free) refl)
  ]

  pub create-InSync :
      (r r' : Retrieve k) (w : World k) (name : Str) (item : ConfigItem k)
      → SameBut k name r r'
      → retrieve_config_item k r name ≡ ok none
      → retrieve_config_item k r' name ≡ ok (some item)
      → InSync k r w
      → InSync k r' (handle_gateway k name create r' w).0
  unfolding handle_gateway started
  create-InSync r r' w name item same before after s =
      let free : get str_eq name w.store ≡ none =
        s.agrees name ∙ expected-item r name none before in
      let (store, orphans) = create_gateway-store name item w free in
      rw (handle_gateway, after)
        (in_sync r r' w (create_gateway k name item w) name (create_instance k item) same s store
          (sym (expected-item r' name (some item) after)) orphans)

  pub update-InSync :
      (r r' : Retrieve k) (w : World k) (name : Str) (item : ConfigItem k)
      → SameBut k name r r'
      → retrieve_config_item k r' name ≡ ok (some item)
      → InSync k r w
      → InSync k r' (handle_gateway k name update r' w).0
  unfolding handle_gateway started global_shutdown
  update-InSync r r' w name item same after s =
      let stopped : World k = global_shutdown k name w in
      let without : (n : Str)
          → get str_eq n stopped.store ≡ (if str_eq n name then none else get str_eq n w.store) =
        λ n. get-remove str_eq str_eq_iff name n w.store in
      let free : get str_eq name stopped.store ≡ none =
        without name ∙ ap (λ b. if b then none else get str_eq name w.store) (str_eq_refl name) in
      let (store, orphans) = create_gateway-store name item stopped free in
      rw (handle_gateway, after)
        (in_sync r r' w (create_gateway k name item stopped) name (create_instance k item) same s
          (λ n. store n ∙ if-over (str_eq n name) (create_instance k item) none _ _ (without n))
          (sym (expected-item r' name (some item) after)) orphans)

  pub delete-InSync :
      (r r' : Retrieve k) (w : World k) (name : Str)
      → SameBut k name r r'
      → retrieve_config_item k r' name ≡ ok none
      → InSync k r w
      → InSync k r' (handle_gateway k name delete r' w).0
  unfolding handle_gateway started global_shutdown
  delete-InSync r r' w name same after s =
      in_sync r r' w (global_shutdown k name w) name none same s
        (λ n. get-remove str_eq str_eq_iff name n w.store) (sym (expected-item r' name none after))
        refl

  -- The routes of an item are those that the store gives for all routes.
  item-routes :
      (r : Retrieve k) (name : Str) (item : ConfigItem k)
      → retrieve_config_item k r name ≡ ok (some item)
      → retrieve_config_item_all_routes k r name ≡ ok item.routes
  unfolding retrieve_config_item
  item-routes r name item h = elim (Result-cases (r.retrieve_config_item_gateway name)) [
    | inl (none, e) ↦ ground arith
    | inl (some g, e) ↦ elim (Result-cases (retrieve_config_item_all_routes k r name)) [
      | inl (routes, f) ↦ ground arith
      | inr (x, f) ↦ ground arith
    ]
    | inr (x, e) ↦ ground arith
  ]

  create-instance :
      (item : ConfigItem k) (name : Str) (router : k.HttpRouterService)
      → k.name item.gateway ≡ name
      → k.listens item.gateway ≡ true
      → k.create_router_service name item.routes ≡ some router
      → create_instance k item ≡ some (record { gateway = item.gateway; router = router })
  unfolding create_instance
  create-instance item name router named listens builds =
      rw (create_instance, named, builds, listens) refl

  pub route-InSync :
      (r r' : Retrieve k) (w : World k) (name : Str) (old new : ConfigItem k)
      (before after : k.HttpRouterService)
      → SameBut k name r r'
      → retrieve_config_item k r name ≡ ok (some old)
      → retrieve_config_item k r' name ≡ ok (some new)
      → new.gateway ≡ old.gateway
      → k.name old.gateway ≡ name
      → k.listens old.gateway ≡ true
      → k.create_router_service name old.routes ≡ some before
      → k.create_router_service name new.routes ≡ some after
      → InSync k r w
      → InSync k r' (handle_route k name r' w).0
  unfolding handle_route started global_update
  route-InSync r r' w name old new before after same had has kept named listens built builds s =
      let runs : get str_eq name w.store
          ≡ some (record { gateway = old.gateway; router = before }) =
        s.agrees name
        ∙ expected-item r name (some old) had
        ∙ create-instance old name before named listens built in
      rw (handle_route, item-routes r' name new has, global_update, builds, runs)
        (in_sync r r' w _ name (some (record { gateway = old.gateway; router = after })) same s
          (λ n. get-put str_eq str_eq_iff name n _ w.store)
          (sym (
            expected-item r' name (some new) has
            ∙ create-instance new name after (ap k.name kept ∙ named) (ap k.listens kept ∙ listens)
                builds
            ∙ ap (λ g. some (record { gateway = g; router = after })) kept))
          refl)

  update_plugin-keeps :
      (r : Retrieve k) (w : World k) (id : PluginInstanceId)
      → ((update_plugin k id r w).0.store ≡ w.store)
        × ((update_plugin k id r w).0.orphans ≡ w.orphans)
  unfolding update_plugin
  update_plugin-keeps r w id = elim (Result-cases (r.retrieve_plugin id)) [
    | inl (none, e) ↦ rw (update_plugin, e) (refl, refl)
    | inl (some config, e) ↦ rw (update_plugin, e) (refl, refl)
    | inr (x, e) ↦ rw (update_plugin, e) (refl, refl)
  ]

  handle_plugin-keeps :
      (r : Retrieve k) (w : World k) (id : PluginInstanceId) (event_type : ConfigEventType)
      → ((handle_plugin k id event_type r w).0.store ≡ w.store)
        × ((handle_plugin k id event_type r w).0.orphans ≡ w.orphans)
  unfolding handle_plugin update_plugin remove_plugin
  handle_plugin-keeps r w id create = update_plugin-keeps r w id
  handle_plugin-keeps r w id update = update_plugin-keeps r w id
  handle_plugin-keeps r w id delete = (refl, refl)

  pub plugin-InSync :
      (r r' : Retrieve k) (w : World k) (id : PluginInstanceId) (event_type : ConfigEventType)
      → ((n : Str) → retrieve_config_item k r' n ≡ retrieve_config_item k r n)
      → InSync k r w
      → InSync k r' (handle_plugin k id event_type r' w).0
  unfolding handle_plugin
  plugin-InSync r r' w id event_type same s =
      let (store, orphans) = handle_plugin-keeps r' w id event_type in
      record {
        agrees = λ n. ap (get str_eq n) store ∙ s.agrees n ∙ sym (expected-same r r' n (same n));
        no_orphans = orphans ∙ s.no_orphans;
      }
