-- ===== src/Shell/Sync/Start.antt =====
-- Gateways that are started where none runs under their names.
use spacegate.Common.{
  ◌≡◌, refl, sym, ap, ◌∙◌, arith, ◌⊎◌, Str, str_eq, str_eq_sound, str_eq_refl, if◌then◌else◌,
  Option, none, some, List, [], ◌∷◌, Bool-cases, Option-cases, inl, inr,
}
use spacegate.Common.Unique.{Unique}
use spacegate.Common.Assoc.{get}
use spacegate.Plugin.Instance.{PluginInstanceId}
use spacegate.Shell.Retrieve.{Kernel, ConfigItem}
use spacegate.Shell.Running.{
  RunningSgGateway, World, create as create_instance, init_plugins, init_gateways,
}
use spacegate.Shell.Handler.{create_gateway}
use spacegate.Shell.Sync.Events.{create_gateway-store}

module _ (k : Kernel) where
  -- What runs once the items are started over a store.
  unfoldable pub over :
      List (Str × RunningSgGateway k)
      → List (Str × ConfigItem k)
      → Str
      → Option (RunningSgGateway k)
  unfolding create_instance get
  over store items n = elim (get str_eq n items) [
    | none ↦ get str_eq n store
    | some item ↦ create_instance k item
  ]

  -- No name of the items runs.
  abbrev pub Idle : List (Str × RunningSgGateway k) → List (Str × ConfigItem k) → Type 0
  Idle store items = (n : Str) → (get str_eq n items ≡ none) ⊎ (get str_eq n store ≡ none)

  Idle-head :
      (store : List (Str × RunningSgGateway k)) (name : Str) (item : ConfigItem k)
      (items : List (Str × ConfigItem k))
      → Idle store ((name, item) ∷ items)
      → get str_eq name store ≡ none
  unfolding get
  Idle-head store name item items free = elim (free name) [
    | inl a ↦ ground (arith, str_eq_refl name)
    | inr a ↦ a
  ]

  Idle-after :
      (store after : List (Str × RunningSgGateway k)) (name : Str) (item : ConfigItem k)
      (items : List (Str × ConfigItem k))
      → get str_eq name items ≡ none
      → ((n : Str)
          → get str_eq n after
            ≡ (if str_eq n name then create_instance k item else get str_eq n store))
      → Idle store ((name, item) ∷ items)
      → Idle after items
  unfolding get
  Idle-after store after name item items new h free n = elim (Bool-cases (str_eq n name)) [
    | inl e ↦ inl (ap (λ m. get str_eq m items) (str_eq_sound n name e) ∙ new)
    | inr e ↦ elim (free n) [
      | inl a ↦ inl (sym (ap (λ b. if b then some item else get str_eq n items) e) ∙ a)
      | inr a ↦ inr (h n ∙ ap (λ b. if b then create_instance k item else get str_eq n store) e ∙ a)
    ]
  ]

  -- Starting the first item before the others.
  over-first :
      (store after : List (Str × RunningSgGateway k)) (name : Str) (item : ConfigItem k)
      (items : List (Str × ConfigItem k)) (n : Str)
      → get str_eq name items ≡ none
      → (get str_eq n after
          ≡ (if str_eq n name then create_instance k item else get str_eq n store))
      → over after items n ≡ over store ((name, item) ∷ items) n
  unfolding over get
  over-first store after name item items n new h = elim (Bool-cases (str_eq n name)) [
    | inl e ↦
        let absent = ap (λ m. get str_eq m items) (str_eq_sound n name e) ∙ new in
        rw (over, absent, e)
          (h ∙ ap (λ b. if b then create_instance k item else get str_eq n store) e)
    | inr e ↦
        rw (over, e)
          (ap (λ o. elim (get str_eq n items) [ none ↦ o | some i ↦ create_instance k i ])
            (h ∙ ap (λ b. if b then create_instance k item else get str_eq n store) e))
  ]

  init_gateways-first :
      (name : Str) (item : ConfigItem k) (items : List (Str × ConfigItem k)) (w : World k)
      → init_gateways k ((name, item) ∷ items) w
        ≡ init_gateways k items (create_gateway k name item w)
  unfolding init_gateways create_gateway
  init_gateways-first name item items w = elim (Option-cases (create_instance k item)) [
    | inl e ↦ rw (init_gateways, create_gateway, e) refl
    | inr (gw, e) ↦ rw (init_gateways, create_gateway, e) refl
  ]

  -- Gateways with names under which none runs.
  pub init_gateways-store :
      (items : List (Str × ConfigItem k)) (w : World k)
      → Unique str_eq items
      → Idle w.store items
      → ((n : Str) → get str_eq n (init_gateways k items w).store ≡ over w.store items n)
        × ((init_gateways k items w).orphans ≡ w.orphans)
  unfolding init_gateways get over
  init_gateways-store [] w u free = (λ n. refl, refl)
  init_gateways-store ((name, item) ∷ items) w (new, u) free =
      let first = init_gateways-first name item items w in
      let w' : World k = create_gateway k name item w in
      let (store, kept) =
        create_gateway-store k name item w (Idle-head w.store name item items free) in
      let (stores, orphans) =
        init_gateways-store items w' u
          (Idle-after w.store w'.store name item items new store free) in
      (
        λ n.
            ap (λ x. get str_eq n x.store) first
            ∙ stores n
            ∙ over-first w.store w'.store name item items n new (store n),
        ap (λ x. x.orphans) first ∙ orphans ∙ kept,
      )

  pub init_plugins-keeps :
      (plugins : List (PluginInstanceId × k.Value)) (w : World k)
      → ((init_plugins k plugins w).store ≡ w.store)
        × ((init_plugins k plugins w).orphans ≡ w.orphans)
  unfolding init_plugins
  init_plugins-keeps [] w = (refl, refl)
  init_plugins-keeps ((id, spec) ∷ plugins) w = init_plugins-keeps plugins _
