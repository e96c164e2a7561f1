-- ===== src/Plugin/Repository/Laws.antt =====
-- What the repository promises: a map from ids to the functions that run, and to snapshots.
use spacegate.Common.{
  ℕ, ◌<◌, ◌≡◌, refl, sym, ap, ◌∙◌, str_eq, Bool, true, false, if◌then◌else◌, Option, none, some,
  List, ◌⊎◌, inl, inr, arith, Bool-cases, Option-cases, ◌==◌,
}
use spacegate.Common.Map.{lookup, insert, lookup-insert}
use spacegate.Common.Assoc.{get, put, remove, get-put, get-remove}
use spacegate.Plugin.Instance.{
  PluginInstanceId, id_eq, id_eq_iff, PluginConfig, PluginInstance, call_hook, snapshot, allocate,
  swap,
}
use spacegate.Plugin.Repository.{
  Failure, PluginRepository, create_or_update_instance, remove_instance, new_instance,
  instance_snapshot,
}

pub Sum-cases {ℓ κ} :
    {A : Type ℓ} {B : Type κ} (s : A ⊎ B) → ((a : A) × (s ≡ inl a)) ⊎ ((b : B) × (s ≡ inr b))
Sum-cases (inl a) = inl (a, refl)
Sum-cases (inr b) = inr (b, refl)

==_comm : (a b : ℕ) → (a == b) ≡ (b == a)
==_comm a b = ground arith

==_refl : (a : ℕ) → (a == a) ≡ true
==_refl a = ground arith

module _ {J F E : Type 0} where
  -- The function that the layers of an instance run.
  abbrev pub runs : PluginInstanceId → PluginRepository J F E → Option F
  runs id repo = elim (get id_eq id repo.instances) [
    | none ↦ none
    | some instance ↦ lookup instance.plugin_function repo.heap.cells
  ]

  -- Instances have cells that are taken, and no two ids share a cell.
  abbrev pub Cells : List (PluginInstanceId × PluginInstance J F E) → ℕ → Type 0
  Cells m next =
      (i : PluginInstanceId) (a : PluginInstance J F E)
      → get id_eq i m ≡ some a
      → (a.plugin_function < next)
        × ((j : PluginInstanceId) (b : PluginInstance J F E)
            → get id_eq j m ≡ some b
            → a.plugin_function ≡ b.plugin_function
            → id_eq j i ≡ true)

  abbrev pub WellFormed : PluginRepository J F E → Type 0
  WellFormed repo = Cells repo.instances repo.heap.next_cell

  abbrev pub runs_of : Option (PluginInstance J F E) → List (ℕ × F) → Option F
  runs_of o cells = elim o [ none ↦ none | some a ↦ lookup a.plugin_function cells ]

  -- A write to a cell, seen by the id of an instance that has the cell where `same` says so.
  runs_of-insert :
      (o : Option (PluginInstance J F E)) (cell : ℕ) (f : F) (cells : List (ℕ × F)) (same : Bool)
      → ((b : PluginInstance J F E) → o ≡ some b → (b.plugin_function == cell) ≡ same)
      → (o ≡ none → same ≡ false)
      → runs_of o (insert cell f cells) ≡ (if same then some f else runs_of o cells)
  runs_of-insert none cell f cells same h k = rw (k refl) refl
  runs_of-insert (some b) cell f cells same h k =
      rw (lookup-insert cell b.plugin_function f cells, sym (h b refl))
        (ap (λ t. if t then some f else lookup b.plugin_function cells)
          (==_comm cell b.plugin_function))

  runs_of-if :
      (b : Bool) (o : Option (PluginInstance J F E)) (cells : List (ℕ × F))
      → runs_of (if b then none else o) cells ≡ (if b then none else runs_of o cells)
  runs_of-if true o cells = refl
  runs_of-if false o cells = refl

  pub get_same :
      (m : List (PluginInstanceId × PluginInstance J F E)) (i j : PluginInstanceId)
      → id_eq j i ≡ true
      → get id_eq j m ≡ get id_eq i m
  get_same m i j e = rw ((id_eq_iff j i).0 e) refl

  pub some-injective : (a b : PluginInstance J F E) → some a ≡ some b → a ≡ b
  some-injective a b e = ap (λ o. elim o [ none ↦ a | some x ↦ x ]) e

  cell_same :
      (m : List (PluginInstanceId × PluginInstance J F E)) (i j : PluginInstanceId)
      (a b : PluginInstance J F E)
      → get id_eq i m ≡ some a
      → get id_eq j m ≡ some b
      → id_eq j i ≡ true
      → b.plugin_function ≡ a.plugin_function
  cell_same m i j a b h e same =
      ap (λ x. x.plugin_function) (some-injective b a (sym e ∙ get_same m i j same ∙ h))

  swap-runs :
      (repo : PluginRepository J F E) (i : PluginInstanceId) (a : PluginInstance J F E) (f : F)
      → WellFormed repo
      → get id_eq i repo.instances ≡ some a
      → (j : PluginInstanceId)
      → runs j (record repo { heap = swap J F E a.plugin_function f repo.heap })
        ≡ (if id_eq j i then some f else runs j repo)
  swap-runs repo i a f w h j =
      runs_of-insert (get id_eq j repo.instances) a.plugin_function f repo.heap.cells (id_eq j i)
        (λ b e. elim (Bool-cases (id_eq j i)) [
          | inl same ↦
              rw (same, cell_same repo.instances i j a b h e same) (==_refl a.plugin_function)
          | inr other ↦ rw other (ground (arith, (w i a h).1 j b e))
        ])
        (λ e. ground (arith, get_same repo.instances i j))

  created :
      (same : Bool) (o : Option (PluginInstance J F E)) (a : PluginInstance J F E) (f : F)
      (cells : List (ℕ × F))
      → ((b : PluginInstance J F E) → o ≡ some b → b.plugin_function < a.plugin_function)
      → runs_of (if same then some a else o) (insert a.plugin_function f cells)
        ≡ (if same then some f else runs_of o cells)
  created true o a f cells h =
      rw (lookup-insert a.plugin_function a.plugin_function f cells, ==_refl a.plugin_function) refl
  created false o a f cells h =
      runs_of-insert o a.plugin_function f cells false (λ b e. ground (arith, h b e)) (λ e. refl)

  create-runs :
      (repo : PluginRepository J F E) (config : PluginConfig J F E) (f : F)
      → WellFormed repo
      → (j : PluginInstanceId)
      → runs j (record repo {
        instances = put id_eq config.id (new_instance J F E config repo.heap) repo.instances;
        heap = allocate J F E f repo.heap;
      })
        ≡ (if id_eq j config.id then some f else runs j repo)
  create-runs repo config f w j =
      ap (λ o. runs_of o (insert repo.heap.next_cell f repo.heap.cells))
        (get-put id_eq id_eq_iff config.id j (new_instance J F E config repo.heap) repo.instances)
      ∙ created (id_eq j config.id) (get id_eq j repo.instances)
          (new_instance J F E config repo.heap) f repo.heap.cells (λ b e. (w j b e).0)

  -- The function that the registered plugin makes of a config, or the failure.
  abbrev pub made : PluginConfig J F E → PluginRepository J F E → Failure E ⊎ F
  made config repo = elim (get str_eq config.id.code repo.plugins) [
    | none ↦ inl (Failure.unregistered config.id.code)
    | some attr ↦ elim (attr.make_pf config) [ inl e ↦ inl (Failure.failed e) | inr f ↦ inr f ]
  ]

  -- What a creation or an update does: it fails and changes nothing, or the id runs the new function
  -- and every other id what it ran.
  abbrev pub Updated :
      PluginConfig J F E
      → PluginRepository J F E
      → Failure E ⊎ F
      → PluginRepository J F E × Option (Failure E)
      → Type 0
  Updated config repo (inl e) (repo', result) = (repo' ≡ repo) × (result ≡ some e)
  Updated config repo (inr f) (repo', result) =
      (result ≡ none)
      × ((id : PluginInstanceId)
          → runs id repo' ≡ (if id_eq id config.id then some f else runs id repo))

  -- Where the instances have cells of their own, a creation or an update either fails, for a
  -- plugin that is not registered or makes no function of the config, and changes nothing, or
  -- succeeds, and then the id runs the function that was made, old layers included, and every
  -- other id what it ran.
  pub create_or_update_instance-Updated :
      (config : PluginConfig J F E) (repo : PluginRepository J F E)
      → WellFormed repo
      → Updated config repo (made config repo) (create_or_update_instance J F E config repo)
  unfolding create_or_update_instance call_hook
  create_or_update_instance-Updated config repo w =
      elim (Option-cases (get str_eq config.id.code repo.plugins)) [
        | inl n ↦ rw (n, Updated, create_or_update_instance) (refl, refl)
        | inr (attr, e) ↦
            rw (e, Updated, create_or_update_instance)
              (elim (Sum-cases (attr.make_pf config)) [
                | inl (x, failed) ↦ rw (failed, Updated, create_or_update_instance) (refl, refl)
                | inr (f, h) ↦
                    rw (h, Updated, create_or_update_instance)
                      (elim (Option-cases (get id_eq config.id repo.instances)) [
                        | inl n ↦
                            rw (n, Updated, create_or_update_instance)
                              (refl, create-runs repo config f w)
                        | inr (a, at) ↦
                            rw (at, Updated, create_or_update_instance)
                              (refl, swap-runs repo config.id a f w at)
                      ])
              ])
      ]

  -- An update of an instance that exists leaves the snapshot of every instance as it was, its own
  -- included: the config shown stays the one of the creation.
  create_or_update_instance-snapshots :
      (config : PluginConfig J F E) (repo : PluginRepository J F E) (a : PluginInstance J F E)
      → get id_eq config.id repo.instances ≡ some a
      → (j : PluginInstanceId)
      → instance_snapshot J F E j (create_or_update_instance J F E config repo).0
        ≡ instance_snapshot J F E j repo
  unfolding create_or_update_instance instance_snapshot snapshot
  create_or_update_instance-snapshots config repo a at j =
      elim (Option-cases (get str_eq config.id.code repo.plugins)) [
        | inl n ↦ rw (n, create_or_update_instance) refl
        | inr (attr, e) ↦
            rw (e, create_or_update_instance)
              (elim (Sum-cases (attr.make_pf config)) [
                | inl (x, failed) ↦ rw (failed, create_or_update_instance) refl
                | inr (f, h) ↦ rw (h, at, create_or_update_instance) refl
              ])
      ]

  missing_runs :
      (repo : PluginRepository J F E) (id j : PluginInstanceId)
      → get id_eq id repo.instances ≡ none
      → runs j repo ≡ (if id_eq j id then none else runs j repo)
  missing_runs repo id j n = elim (Bool-cases (id_eq j id)) [
    | inl same ↦
        rw (same) (ap (λ o. runs_of o repo.heap.cells) (get_same repo.instances id j same ∙ n))
    | inr other ↦ rw other refl
  ]

  removed_runs :
      (repo : PluginRepository J F E) (id j : PluginInstanceId)
      → runs j (record repo { instances = remove id_eq id repo.instances })
        ≡ (if id_eq j id then none else runs j repo)
  removed_runs repo id j =
      ap (λ o. runs_of o repo.heap.cells) (get-remove id_eq id_eq_iff id j repo.instances)
      ∙ runs_of-if (id_eq j id) (get id_eq j repo.instances) repo.heap.cells

  -- After a removal, whatever its outcome, the id runs nothing and every other id what it ran.
  remove_instance-runs :
      (id : PluginInstanceId) (repo : PluginRepository J F E) (j : PluginInstanceId)
      → runs j (remove_instance J F E id repo).0 ≡ (if id_eq j id then none else runs j repo)
  unfolding remove_instance
  remove_instance-runs id repo j = elim (Option-cases (get id_eq id repo.instances)) [
    | inl n ↦ rw (n, remove_instance) (missing_runs repo id j n)
    | inr (a, at) ↦
        rw (at, remove_instance)
          (elim (Option-cases (call_hook J F E a a.hooks.before_destroy)) [
            | inl n ↦ rw (n, remove_instance) (removed_runs repo id j)
            | inr (e, failed) ↦ rw (failed, remove_instance) (removed_runs repo id j)
          ])
  ]
