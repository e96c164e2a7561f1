-- ===== src/Shell/Memory/Laws.antt =====
-- A configuration that is its own store is read back whole.
use mathlib.Core.List.{append_assoc, append-nil}
use spacegate.Common.{
  ◌≡◌, refl, sym, ap, ◌∙◌, arith, Str, str_eq, str_eq_iff, false, any, none, some, List, [], ◌∷◌,
  ◌++◌, map, Option-cases, inl, inr,
}
use spacegate.Common.Assoc.{get, put}
use spacegate.Common.Unique.{Unique, put_all, put_all-Unique, split-Unique}
use spacegate.Common.Result.{ok}
use spacegate.Plugin.Instance.{PluginInstanceId, id_eq, id_eq_iff}
use spacegate.Shell.Retrieve.{
  Kernel, Retrieve, ConfigItem, Config, add_routes, retrieve_config_item_all_routes,
  retrieve_config_item, add_items, from_config_vec, retrieve_config,
}
use spacegate.Shell.Memory.{config_of, memory}
use spacegate.Shell.Sync.{Lists}

module _ (k : Kernel) where
  -- Maps have each key once.
  pub record IsMap (config : Config k) : Type 0 where
    pub gateways : Unique str_eq config.gateways
    pub routes :
        (name : Str) (item : ConfigItem k)
        → get str_eq name config.gateways ≡ some item
        → Unique str_eq item.routes
    pub plugins : Unique id_eq config.plugins

  add_routes-entries :
      (r : Retrieve k) (name : Str) (p s : List (Str × k.SgRoute))
      → Unique str_eq (p ++ s)
      → ((n : Str) → r.retrieve_config_item_route name n ≡ ok (get str_eq n (p ++ s)))
      → add_routes k r name (map (λ e. e.0) s) p ≡ p ++ s
  unfolding add_routes
  add_routes-entries r name p [] u h = sym (append-nil p)
  add_routes-entries r name p ((j, v) ∷ s) u h =
      let (first, found) = split-Unique str_eq str_eq_iff p j v s u in
      let whole = append_assoc p ((j, v) ∷ []) s in
      rw (add_routes, h j, found)
        (ap (add_routes k r name (map (λ e. e.0) s)) first
          ∙ add_routes-entries r name (p ++ (j, v) ∷ []) s (rw whole u) (λ n. rw whole (h n))
          ∙ whole)

  add_items-entries :
      (r : Retrieve k) (p s : List (Str × ConfigItem k))
      → Unique str_eq (p ++ s)
      → ((n : Str) → retrieve_config_item k r n ≡ ok (get str_eq n (p ++ s)))
      → add_items k r (map (λ e. e.0) s) p ≡ ok (p ++ s)
  unfolding add_items
  add_items-entries r p [] u h = ap ok (sym (append-nil p))
  add_items-entries r p ((j, v) ∷ s) u h =
      let (first, found) = split-Unique str_eq str_eq_iff p j v s u in
      let whole = append_assoc p ((j, v) ∷ []) s in
      rw (add_items, h j, found)
        (ap (add_items k r (map (λ e. e.0) s)) first
          ∙ add_items-entries r (p ++ (j, v) ∷ []) s (rw whole u) (λ n. rw whole (h n))
          ∙ ap ok whole)

  memory-routes :
      (config : Config k) (name : Str) (item : ConfigItem k)
      → IsMap config
      → get str_eq name config.gateways ≡ some item
      → retrieve_config_item_all_routes k (memory k config) name ≡ ok item.routes
  unfolding memory retrieve_config_item_all_routes
  memory-routes config name item m e =
      let same =
        add_routes-entries (memory k config) name [] item.routes (m.routes name item e)
          (λ n. rw (memory, e) refl) in
      rw (retrieve_config_item_all_routes, memory, e) (ap ok same)

  of_parts :
      (r : Retrieve k) (name : Str) (item : ConfigItem k)
      → r.retrieve_config_item_gateway name ≡ ok (some item.gateway)
      → retrieve_config_item_all_routes k r name ≡ ok item.routes
      → retrieve_config_item k r name ≡ ok (some item)
  unfolding retrieve_config_item
  of_parts r name item g e = rw (retrieve_config_item, g, e) refl

  retrieve_config_item-memory :
      (config : Config k)
      → IsMap config
      → (name : Str)
      → retrieve_config_item k (memory k config) name ≡ ok (get str_eq name config.gateways)
  unfolding memory retrieve_config_item
  retrieve_config_item-memory config m name =
      elim (Option-cases (get str_eq name config.gateways)) [
        | inl e ↦ rw (retrieve_config_item, memory, e) refl
        | inr (item, e) ↦ rw e (
            of_parts (memory k config) name item (rw (memory, e) refl)
              (memory-routes config name item m e))
      ]

  from_config_vec-of :
      (ps qs : List (PluginInstanceId × k.Value))
      → from_config_vec k (map (config_of k) ps) qs ≡ put_all id_eq ps qs
  unfolding from_config_vec put_all config_of
  from_config_vec-of [] qs = refl
  from_config_vec-of ((id, spec) ∷ ps) qs = from_config_vec-of ps (put id_eq id spec qs)

  retrieve_config-memory :
      (config : Config k) → IsMap config → retrieve_config k (memory k config) ≡ ok config
  unfolding memory retrieve_config
  retrieve_config-memory config m =
      let items =
        add_items-entries (memory k config) [] config.gateways m.gateways
          (retrieve_config_item-memory config m) in
      let plugins =
        from_config_vec-of config.plugins []
        ∙ put_all-Unique id_eq id_eq_iff config.plugins m.plugins in
      rw (retrieve_config, items, plugins) refl

  absent :
      (n : Str) (items : List (Str × ConfigItem k))
      → any (str_eq n) (map (λ e. e.0) items) ≡ false
      → get str_eq n items ≡ none
  unfolding get
  absent n [] h = refl
  absent n ((j, i) ∷ items) h = ground (arith, absent n items)

  -- Where a configuration has no gateway, no route of a gateway and no plugin twice, the memory
  -- store that holds it gives it back: the whole of it, each gateway with its routes by name, with
  -- no answer under any other name, and it lists the gateways that it answers.
  memory_lem :
      (config : Config k)
      → IsMap config
      → (retrieve_config k (memory k config) ≡ ok config)
        × ((name : Str)
            → retrieve_config_item k (memory k config) name ≡ ok (get str_eq name config.gateways))
        × Lists k (memory k config) (map (λ e. e.0) config.gateways)
  unfolding memory
  memory_lem config m = (
    retrieve_config-memory config m,
    retrieve_config_item-memory config m,
    (refl, λ n h. retrieve_config_item-memory config m n ∙ ap ok (absent n config.gateways h)),
  )
