-- ===== src/Tests/Plugin.antt =====
-- The plugin repository at a concrete plugin, whose function is its spec.
use spacegate.Common.{ℕ, codes, ◌≡◌, refl, none, some, [], inl, inr, Str, if◌then◌else◌, ltb}
use spacegate.Plugin.Instance.{
  PluginInstanceId, PluginInstanceName, MountPoint, MountPointIndex, PluginConfig, Heap,
}
use spacegate.Plugin.Repository.{
  PluginRepository, PluginDefinitionObject, create_or_update_instance, mount, instance_snapshot,
  register_custom,
}
use spacegate.Plugin.Repository.Laws.{
  runs, Updated, made, WellFormed, create_or_update_instance-Updated,
}
use spacegate.Plugin.Repository.Mount.{Mounted, mount-Mounted}
use spacegate.Plugin.Repository.Reach.{Reachable, Step, Reachable-WellFormed}

abbrev limit : PluginDefinitionObject ℕ ℕ Str
limit = record {
  code = codes "limit";
  make_pf = λ config. if ltb config.spec 100 then inr config.spec else inl (codes "too large");
}

abbrev first_id : PluginInstanceId
first_id = record { code = codes "limit"; name = PluginInstanceName.named (codes "a") }

abbrev config_of : ℕ → PluginConfig ℕ ℕ Str
config_of n = record { id = first_id; display_name = none; spec = n }

abbrev no_heap : Heap ℕ
no_heap = record { cells = []; next_cell = 0; live = []; next_signal = 0 }

abbrev no_plugins : PluginRepository ℕ ℕ Str
no_plugins = record { plugins = []; instances = []; heap = no_heap }

abbrev registered : PluginRepository ℕ ℕ Str
registered = register_custom ℕ ℕ Str limit no_plugins

abbrev filled : PluginRepository ℕ ℕ Str
filled = (create_or_update_instance ℕ ℕ Str (config_of 7) registered).0

abbrev bare_point : MountPoint
bare_point = record { layers = []; markers = [] }

abbrev main_gateway : MountPointIndex
main_gateway = MountPointIndex.gateway (codes "main")

-- An update changes what runs; the snapshot has the old spec.
stale_snapshot :
    instance_snapshot ℕ ℕ Str first_id (create_or_update_instance ℕ ℕ Str (config_of 9) filled).0
    ≡ some (record { config = config_of 7; mount_points = [] })
unfolding instance_snapshot create_or_update_instance register_custom
stale_snapshot = refl

updated : runs first_id (create_or_update_instance ℕ ℕ Str (config_of 9) filled).0 ≡ some 9
unfolding create_or_update_instance register_custom spacegate.Common.Map.lookup
    spacegate.Common.Map.insert
updated = refl

abbrev filled-reached : Reachable filled
filled-reached =
    Reachable.next registered filled
      (Reachable.next no_plugins registered (Reachable.start no_heap)
        (Step.registers limit no_plugins))
      (Step.creates_or_updates (config_of 7) registered)

Reachable-WellFormed_example : WellFormed filled
Reachable-WellFormed_example = Reachable-WellFormed filled filled-reached

filled-WellFormed : WellFormed filled
filled-WellFormed = Reachable-WellFormed filled filled-reached

create_or_update_instance-Updated_example :
    Updated
      (config_of 9)
      filled
      (made (config_of 9) filled)
      (create_or_update_instance ℕ ℕ Str (config_of 9) filled)
create_or_update_instance-Updated_example =
    create_or_update_instance-Updated (config_of 9) filled filled-WellFormed

mount-Mounted_example :
    Mounted bare_point first_id filled (mount ℕ ℕ Str bare_point main_gateway first_id filled)
mount-Mounted_example = mount-Mounted bare_point main_gateway first_id filled
