-- ===== src/Shell/Sync/Reload.antt =====
-- A reload starts what the store lists, whatever ran before.
use spacegate.Common.{
  ◌≡◌, refl, sym, ap, ◌∙◌, arith, Str, str_eq, any, if◌then◌else◌, none, List, [], Bool-cases,
  Option-cases, inl, inr,
}
use spacegate.Common.Assoc.{get}
use spacegate.Common.Result.{ok, Result-cases}
use spacegate.Shell.Retrieve.{
  Kernel, Retrieve, ConfigItem, Config, retrieve_config_item, add_items, retrieve_config,
}
use spacegate.Shell.Running.{World, global_reset, init_plugins, global_init}
use spacegate.Shell.Handler.{handle_global}
use spacegate.Shell.Sync.{item_of, started, expected, InSync, Lists}
use spacegate.Shell.Sync.Items.{add_items-get, add_items-Unique}
use spacegate.Shell.Sync.Start.{over, init_gateways-store, init_plugins-keeps}

module _ (k : Kernel) where
  config-items :
      (r : Retrieve k) (names : List Str) (config : Config k)
      → r.retrieve_config_names ≡ ok names
      → retrieve_config k r ≡ ok config
      → add_items k r names [] ≡ ok config.gateways
  unfolding retrieve_config
  config-items r names config listed got = elim (Result-cases (add_items k r names [])) [
    | inl (items, e) ↦ elim (Result-cases r.retrieve_all_plugins) [
      | inl (plugins, f) ↦ ground arith
      | inr (x, f) ↦ ground arith
    ]
    | inr (x, e) ↦ ground arith
  ]

  over-empty :
      (items : List (Str × ConfigItem k)) (n : Str)
      → over k [] items n ≡ started k (get str_eq n items)
  unfolding over started get
  over-empty items n = elim (Option-cases (get str_eq n items)) [
    | inl e ↦ rw (over, e) refl
    | inr (i, e) ↦ rw (over, e) refl
  ]

  -- What the items of the listed names start.
  listed-expected :
      (r : Retrieve k) (names : List Str) (items : List (Str × ConfigItem k)) (n : Str)
      → Lists k r names
      → add_items k r names [] ≡ ok items
      → started k (get str_eq n items) ≡ expected k r n
  unfolding expected get
  listed-expected r names items n (listed, all) e =
      let found = add_items-get k r n names [] items (inl refl) e in
      elim (Bool-cases (any (str_eq n) names)) [
        | inl h ↦
            ap (started k)
              (found ∙ ap (λ b. if b then item_of k (retrieve_config_item k r n) else none) h)
        | inr h ↦
            ap (started k)
              (found ∙ ap (λ b. if b then item_of k (retrieve_config_item k r n) else none) h)
            ∙ sym (ap (λ m. started k (item_of k m)) (all n h))
      ]

  pub reload-InSync :
      (r r' : Retrieve k) (w : World k) (names : List Str) (config : Config k)
      → Lists k r' names
      → retrieve_config k r' ≡ ok config
      → InSync k r w
      → InSync k r' (handle_global k r' w).0
  unfolding handle_global global_init global_reset over get
  reload-InSync r r' w names config lists got s =
      let items = config-items r' names config lists.0 got in
      let reset : World k = init_plugins k config.plugins (global_reset k w) in
      let (emptied, kept) = init_plugins-keeps k config.plugins (global_reset k w) in
      let (stores, orphans) =
        init_gateways-store k config.gateways reset
          (add_items-Unique k r' names [] config.gateways tt items)
          (λ n. inr (ap (get str_eq n) emptied)) in
      rw (handle_global, got)
        (record {
          agrees = λ n.
              stores n
              ∙ ap (λ l. over k l config.gateways n) emptied
              ∙ over-empty config.gateways n
              ∙ listed-expected r' names config.gateways n lists items;
          no_orphans = orphans ∙ kept ∙ s.no_orphans;
        })
