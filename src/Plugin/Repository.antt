-- ===== src/Plugin/Repository.antt =====
-- `PluginRepository` and `PluginDefinitionObject::make_instance` of crates/plugin/src/lib.rs. Each
-- operation takes its locks for its whole run, so operations follow one another.
-- A failed operation says which of the errors it gives; `J` is the JSON type, `F` a plugin's
-- function, `E` an error of a plugin.
pub mod Laws
pub mod Mount
pub mod Reach
use spacegate.Common.{Str, str_eq, Option, none, some, List, [], ◌⊎◌, inl, inr, map}
use spacegate.Common.Assoc.{get, put, remove}
use spacegate.Plugin.Instance.{
  PluginInstanceId, id_eq, MountPointIndex, MountPoint, Heap, live_mount_points, mount_points_gc,
  PluginConfig, PluginInstance, PluginInstanceHooks, call_hook, PluginInstanceSnapshot, snapshot,
  mount_at, allocate, swap,
}

pub data Failure (E : Type 0) : Type 0 where
  unregistered : Str → Failure E
  missing : PluginInstanceId → Failure E
  failed : E → Failure E

module _ (J F E : Type 0) where
  pub record PluginDefinitionObject : Type 0 where
    pub code : Str
    pub make_pf : PluginConfig J F E → E ⊎ F

  pub record PluginRepository : Type 0 where
    pub plugins : List (Str × PluginDefinitionObject)
    pub instances : List (PluginInstanceId × PluginInstance J F E)
    pub heap : Heap F

  abbrev pub no_hooks : PluginInstanceHooks J F E
  no_hooks = record {
    after_create = none;
    before_mount = none;
    after_mount = none;
    before_destroy = none;
  }

  unfoldable pub register_custom : PluginDefinitionObject → PluginRepository → PluginRepository
  unfolding put
  register_custom attr repo = record repo { plugins = put str_eq attr.code attr repo.plugins }

  unfoldable pub clear_instances : PluginRepository → PluginRepository
  clear_instances repo = record repo { instances = [] }

  -- `make_instance`, with a function that `make_pf` has given, in a new cell.
  abbrev pub new_instance : PluginConfig J F E → Heap F → PluginInstance J F E
  new_instance config heap = record {
    config = config;
    mount_points = [];
    hooks = no_hooks;
    plugin_function = heap.next_cell;
  }

  unfoldable pub create_or_update_instance :
      PluginConfig J F E → PluginRepository → PluginRepository × Option (Failure E)
  unfolding get put call_hook
  create_or_update_instance config repo = elim (get str_eq config.id.code repo.plugins) [
    | none ↦ (repo, some (Failure.unregistered config.id.code))
    | some attr ↦ elim (attr.make_pf config) [
      | inl e ↦ (repo, some (Failure.failed e))
      | inr f ↦ elim (get id_eq config.id repo.instances) [
        | some instance ↦
            (record repo { heap = swap J F E instance.plugin_function f repo.heap }, none)
        | none ↦
            let instance = new_instance config repo.heap in
            let repo' = record repo { heap = allocate J F E f repo.heap } in
            elim (call_hook J F E instance instance.hooks.after_create) [
              | some e ↦ (repo', some (Failure.failed e))
              | none ↦
                  (record repo' { instances = put id_eq config.id instance repo.instances }, none)
            ]
      ]
    ]
  ]

  -- The result is the mount points of the instance that are still there.
  unfoldable pub remove_instance :
      PluginInstanceId → PluginRepository → PluginRepository × (Failure E ⊎ List MountPointIndex)
  unfolding get remove call_hook live_mount_points
  remove_instance id repo = elim (get id_eq id repo.instances) [
    | none ↦ (repo, inl (Failure.missing id))
    | some instance ↦
        let repo' = record repo { instances = remove id_eq id repo.instances } in
        elim (call_hook J F E instance instance.hooks.before_destroy) [
          | some e ↦ (repo', inl (Failure.failed e))
          | none ↦
              (repo', inr (map (λ e. e.0) (live_mount_points repo.heap.live instance.mount_points)))
        ]
  ]

  -- `mount`: the hooks run on the instance as it is then, and what was done before one fails stays.
  unfoldable pub mount :
      MountPoint
      → MountPointIndex
      → PluginInstanceId
      → PluginRepository
      → (PluginRepository × MountPoint) × Option (Failure E)
  unfolding get put call_hook mount_points_gc mount_at
  mount point index id repo = elim (get str_eq id.code repo.plugins) [
    | none ↦ ((repo, point), some (Failure.unregistered id.code))
    | some _ ↦ elim (get id_eq id repo.instances) [
      | none ↦ ((repo, point), some (Failure.missing id))
      | some instance ↦
          let swept = mount_points_gc J F E repo.heap.live instance in
          elim (call_hook J F E swept swept.hooks.before_mount) [
            | some e ↦ (
              (record repo { instances = put id_eq id swept repo.instances }, point),
              some (Failure.failed e),
            )
            | none ↦
                let (mounted, point', heap') = mount_at J F E swept index point repo.heap in
                let repo' = record repo {
                  instances = put id_eq id mounted repo.instances;
                  heap = heap';
                } in
                elim (call_hook J F E mounted mounted.hooks.after_mount) [
                  | some e ↦ ((repo', point'), some (Failure.failed e))
                  | none ↦ ((repo', point'), none)
                ]
          ]
    ]
  ]

  -- `instance_snapshot`
  unfoldable pub instance_snapshot :
      PluginInstanceId → PluginRepository → Option (PluginInstanceSnapshot J F E)
  unfolding get snapshot
  instance_snapshot id repo = elim (get id_eq id repo.instances) [
    | none ↦ none
    | some instance ↦ some (snapshot J F E repo.heap.live instance)
  ]
