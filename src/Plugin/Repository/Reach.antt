-- ===== src/Plugin/Repository/Reach.antt =====
-- The histories of a repository: each operation, and the end of a mount point, is a step.
use spacegate.Common.{
  ℕ, suc, ◌<◌, ◌≤◌, ◌≡◌, refl, sym, ap, ◌∙◌, true, if◌then◌else◌, some, List, [], ◌⊎◌, inl, inr,
  arith, Bool-cases, Option-cases, str_eq,
}
use spacegate.Common.Assoc.{get, put, remove, get-put, get-remove}
use spacegate.Plugin.Instance.{
  PluginInstanceId, id_eq, id_eq_iff, MountPointIndex, MountPoint, Heap, PluginConfig,
  PluginInstance, call_hook, mount_points_gc, mount_at, mount_layer,
}
use spacegate.Plugin.Repository.{
  PluginRepository, PluginDefinitionObject, create_or_update_instance, remove_instance, mount,
  new_instance, clear_instances, register_custom,
}
use spacegate.Plugin.Repository.Laws.{Cells, WellFormed, some-injective, Sum-cases}

id_eq_of : (i j k : PluginInstanceId) → i ≡ k → j ≡ k → id_eq j i ≡ true
id_eq_of i j k e h = (id_eq_iff j i).1 (h ∙ sym e)

module _ {J F E : Type 0} where
  -- What `get` finds behind a `put`.
  get-put_cases :
      (i k : PluginInstanceId) (a c : PluginInstance J F E)
      (m : List (PluginInstanceId × PluginInstance J F E))
      → get id_eq i (put id_eq k c m) ≡ some a
      → ((i ≡ k) × (c ≡ a)) ⊎ (get id_eq i m ≡ some a)
  get-put_cases i k a c m h = elim (Bool-cases (id_eq i k)) [
    | inl same ↦ inl (
      (id_eq_iff i k).0 same,
      some-injective c a (
          ap (λ t. if t then some c else get id_eq i m) (sym same)
          ∙ sym (get-put id_eq id_eq_iff k i c m)
          ∙ h),
    )
    | inr other ↦ inr (
        ap (λ t. if t then some c else get id_eq i m) (sym other)
        ∙ sym (get-put id_eq id_eq_iff k i c m)
        ∙ h)
  ]

  put-Cells :
      (m : List (PluginInstanceId × PluginInstance J F E)) (n n' : ℕ) (k : PluginInstanceId)
      (c : PluginInstance J F E)
      → Cells m n
      → n ≤ n'
      → c.plugin_function < n'
      → ((j : PluginInstanceId) (b : PluginInstance J F E)
          → get id_eq j m ≡ some b
          → c.plugin_function ≡ b.plugin_function
          → j ≡ k)
      → Cells (put id_eq k c m) n'
  put-Cells m n n' k c w le lt fresh i a h = elim (get-put_cases i k a c m h) [
    | inl (e, same) ↦ (
      rw (sym same) lt,
      λ j b at shared. elim (get-put_cases j k b c m at) [
        | inl (e', _) ↦ id_eq_of i j k e e'
        | inr old ↦ id_eq_of i j k e (fresh j b old (ap (λ x. x.plugin_function) same ∙ shared))
      ],
    )
    | inr mine ↦ (
      ground (arith, (w i a mine).0),
      λ j b at shared. elim (get-put_cases j k b c m at) [
        | inl (e', same) ↦
            id_eq_of i j k (fresh i a mine (ap (λ x. x.plugin_function) same ∙ sym shared)) e'
        | inr old ↦ (w i a mine).1 j b old shared
      ],
    )
  ]

  get-remove-some :
      (m : List (PluginInstanceId × PluginInstance J F E)) (k i : PluginInstanceId)
      (a : PluginInstance J F E)
      → get id_eq i (remove id_eq k m) ≡ some a
      → get id_eq i m ≡ some a
  get-remove-some m k i a h = ground (arith, get-remove id_eq id_eq_iff k i m)

  remove-Cells :
      (m : List (PluginInstanceId × PluginInstance J F E)) (n : ℕ) (k : PluginInstanceId)
      → Cells m n
      → Cells (remove id_eq k m) n
  remove-Cells m n k w i a h = (
    (w i a (get-remove-some m k i a h)).0,
    λ j b at shared. (w i a (get-remove-some m k i a h)).1 j b (get-remove-some m k j b at) shared,
  )

  same_cell :
      (m : List (PluginInstanceId × PluginInstance J F E)) (n : ℕ) (k : PluginInstanceId)
      (a c : PluginInstance J F E)
      → Cells m n
      → get id_eq k m ≡ some a
      → c.plugin_function ≡ a.plugin_function
      → Cells (put id_eq k c m) n
  same_cell m n k a c w at same =
      put-Cells m n n k c w (omega arith) (rw same (w k a at).0)
        (λ j b here shared. (id_eq_iff j k).0 ((w k a at).1 j b here (sym same ∙ shared)))

  create_or_update_instance-WellFormed :
      (config : PluginConfig J F E) (repo : PluginRepository J F E)
      → WellFormed repo
      → WellFormed (create_or_update_instance J F E config repo).0
  unfolding create_or_update_instance call_hook
  create_or_update_instance-WellFormed config repo w =
      elim (Option-cases (get str_eq config.id.code repo.plugins)) [
        | inl n ↦ rw (n, create_or_update_instance) w
        | inr (attr, e) ↦
            rw (e, create_or_update_instance)
              (elim (Sum-cases (attr.make_pf config)) [
                | inl (x, failed) ↦ rw (failed, create_or_update_instance) w
                | inr (f, h) ↦
                    rw (h, create_or_update_instance)
                      (elim (Option-cases (get id_eq config.id repo.instances)) [
                        | inl n ↦
                            rw (n, create_or_update_instance)
                              (put-Cells repo.instances repo.heap.next_cell
                                (suc repo.heap.next_cell) config.id
                                (new_instance J F E config repo.heap) w (omega arith) (omega arith)
                                (λ j b here shared. ground (arith, (w j b here).0)))
                        | inr (a, at) ↦ rw (at, create_or_update_instance) w
                      ])
              ])
      ]

  remove_instance-WellFormed :
      (id : PluginInstanceId) (repo : PluginRepository J F E)
      → WellFormed repo
      → WellFormed (remove_instance J F E id repo).0
  unfolding remove_instance
  remove_instance-WellFormed id repo w = elim (Option-cases (get id_eq id repo.instances)) [
    | inl n ↦ rw (n, remove_instance) w
    | inr (a, at) ↦
        rw (at, remove_instance)
          (elim (Option-cases (call_hook J F E a a.hooks.before_destroy)) [
            | inl n ↦ rw (n, remove_instance) (remove-Cells repo.instances repo.heap.next_cell id w)
            | inr (e, failed) ↦
                rw (failed, remove_instance) (remove-Cells repo.instances repo.heap.next_cell id w)
          ])
  ]

  mount-WellFormed :
      (point : MountPoint) (index : MountPointIndex) (id : PluginInstanceId)
      (repo : PluginRepository J F E)
      → WellFormed repo
      → WellFormed (mount J F E point index id repo).0.0
  unfolding mount mount_points_gc mount_at mount_layer
  mount-WellFormed point index id repo w = elim (Option-cases (get str_eq id.code repo.plugins)) [
    | inl n ↦ rw (n, mount) w
    | inr (attr, e) ↦
        rw (e, mount)
          (elim (Option-cases (get id_eq id repo.instances)) [
            | inl n ↦ rw (n, mount) w
            | inr (a, at) ↦
                rw (at, mount)
                  (elim (Option-cases (
                    call_hook J F E (mount_points_gc J F E repo.heap.live a)
                      a.hooks.before_mount)) [
                        | inr (x, failed) ↦
                            rw (failed, mount)
                              (same_cell repo.instances repo.heap.next_cell id a
                                (mount_points_gc J F E repo.heap.live a) w at refl)
                        | inl n ↦
                            rw (n, mount)
                              (elim (Option-cases (
                                call_hook J F E
                                  (mount_at J F E (mount_points_gc J F E repo.heap.live a) index
                                    point repo.heap).0
                                  a.hooks.after_mount)) [
                                    | inl n' ↦
                                        rw (n', mount)
                                          (same_cell repo.instances repo.heap.next_cell id a
                                            (mount_at J F E (mount_points_gc J F E repo.heap.live a)
                                              index point repo.heap).0
                                            w at refl)
                                    | inr (x, failed) ↦
                                        rw (failed, mount)
                                          (same_cell repo.instances repo.heap.next_cell id a
                                            (mount_at J F E (mount_points_gc J F E repo.heap.live a)
                                              index point repo.heap).0
                                            w at refl)
                                  ])
                      ])
          ])
  ]

  -- A step: an operation, or the end of mount points, whose signals are no longer live then.
  pub data Step : PluginRepository J F E → PluginRepository J F E → Type 0 where
    registers :
        (attr : PluginDefinitionObject J F E) (repo : PluginRepository J F E)
        → Step repo (register_custom J F E attr repo)
    clears : (repo : PluginRepository J F E) → Step repo (clear_instances J F E repo)
    creates_or_updates :
        (config : PluginConfig J F E) (repo : PluginRepository J F E)
        → Step repo (create_or_update_instance J F E config repo).0
    removes :
        (id : PluginInstanceId) (repo : PluginRepository J F E)
        → Step repo (remove_instance J F E id repo).0
    mounts :
        (point : MountPoint) (index : MountPointIndex) (id : PluginInstanceId)
        (repo : PluginRepository J F E)
        → Step repo (mount J F E point index id repo).0.0
    drops :
        (live : List ℕ) (repo : PluginRepository J F E)
        → Step repo (record repo { heap = record (repo.heap) { live = live } })

  pub data Reachable : PluginRepository J F E → Type 0 where
    start : (heap : Heap F) → Reachable (record { plugins = []; instances = []; heap = heap })
    next :
        (repo repo' : PluginRepository J F E) → Reachable repo → Step repo repo' → Reachable repo'

  Step-WellFormed :
      (repo repo' : PluginRepository J F E) → Step repo repo' → WellFormed repo → WellFormed repo'
  unfolding register_custom clear_instances get
  Step-WellFormed repo repo' (registers attr r) w = w
  Step-WellFormed repo repo' (clears r) w = λ i a h. ground arith
  Step-WellFormed repo repo' (creates_or_updates config r) w =
      create_or_update_instance-WellFormed config r w
  Step-WellFormed repo repo' (removes id r) w = remove_instance-WellFormed id r w
  Step-WellFormed repo repo' (mounts point index id r) w = mount-WellFormed point index id r w
  Step-WellFormed repo repo' (drops live r) w = w

  -- In every repository that registrations, creations, updates, mounts, removals, clearings and
  -- the ends of mount points lead to, each instance has a cell that was taken, and no two ids
  -- share a cell.
  pub Reachable-WellFormed : (repo : PluginRepository J F E) → Reachable repo → WellFormed repo
  unfolding get
  Reachable-WellFormed repo (start heap) = λ i a h. ground arith
  Reachable-WellFormed repo (next before r reached step) =
      Step-WellFormed before r step (Reachable-WellFormed before reached)
