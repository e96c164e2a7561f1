-- ===== src/Plugin/Instance.antt =====
-- crates/plugin/src/{instance,mount,layer}.rs and the ids of crates/model/src/plugin.rs: plugin
-- instances, the places where they are mounted, and what the two share.
-- `Arc`s are numbers: a cell holds the function of an instance, which its layers share; a signal is
-- the counter of a drop marker, and is live while a mount point keeps the marker.
use spacegate.Common.{
  ◌≡◌, ◌↔◌, refl, arith, ap₂, ap, str_eq_refl, str_eq_sound, ℕ, suc, ◌==◌, Str, str_eq, Bool, true,
  false, not, ◌&&◌, any, keep, Option, none, some, List, [], ◌∷◌, ◌++◌, map,
}
use spacegate.Common.Map.{insert}
use spacegate.Common.Assoc.{put}

pub data PluginInstanceName : Type 0 where
  anon : Str → PluginInstanceName
  named : Str → PluginInstanceName
  mono : PluginInstanceName

pub record PluginInstanceId : Type 0 where
  pub code : Str
  pub name : PluginInstanceName

-- The derived `PartialEq` of names and ids.
abbrev pub name_eq : PluginInstanceName → PluginInstanceName → Bool
name_eq (anon s) (anon t) = str_eq s t
name_eq (named s) (named t) = str_eq s t
name_eq mono mono = true
name_eq _ _ = false

abbrev pub id_eq : PluginInstanceId → PluginInstanceId → Bool
id_eq i j = str_eq i.code j.code && name_eq i.name j.name

-- The constructors of the source carry their module's name; these have none.
pub data MountPointIndex : Type 0 where
  gateway : Str → MountPointIndex
  http_route : Str → Str → MountPointIndex
  http_route_rule : Str → Str → ℕ → MountPointIndex
  http_backend : Str → Str → ℕ → ℕ → MountPointIndex

abbrev pub index_eq : MountPointIndex → MountPointIndex → Bool
index_eq (gateway g) (gateway g') = str_eq g g'
index_eq (http_route g r) (http_route g' r') = str_eq g g' && str_eq r r'
index_eq (http_route_rule g r i) (http_route_rule g' r' i') =
    str_eq g g' && (str_eq r r' && i == i')
index_eq (http_backend g r i b) (http_backend g' r' i' b') =
    str_eq g g' && (str_eq r r' && (i == i' && b == b'))
index_eq _ _ = false

-- A gateway, route, rule or back end, as far as plugins see it: its layers, each the cell of an
-- instance, and the signals of its `DropMarkerSet`.
pub record MountPoint : Type 0 where
  pub layers : List ℕ
  pub markers : List ℕ

-- The heap: the functions in the cells and the signals that are live, with the next of each.
pub record Heap (F : Type 0) : Type 0 where
  pub cells : List (ℕ × F)
  pub next_cell : ℕ
  pub live : List ℕ
  pub next_signal : ℕ

-- `DropTracer::all_dropped`
abbrev pub all_dropped : List ℕ → ℕ → Bool
all_dropped live signal = not (any (λ s. s == signal) live)

-- The live ones of the mount points of an instance.
unfoldable pub live_mount_points : List ℕ → List (MountPointIndex × ℕ) → List (MountPointIndex × ℕ)
live_mount_points live m = keep (λ e. not (all_dropped live e.1)) m

name_eq_sound : (m n : PluginInstanceName) → name_eq m n ≡ true → m ≡ n
name_eq_sound (anon s) (anon t) h = ap anon (str_eq_sound s t h)
name_eq_sound (anon s) (named t) h = ground arith
name_eq_sound (anon s) mono h = ground arith
name_eq_sound (named s) (anon t) h = ground arith
name_eq_sound (named s) (named t) h = ap named (str_eq_sound s t h)
name_eq_sound (named s) mono h = ground arith
name_eq_sound mono (anon t) h = ground arith
name_eq_sound mono (named t) h = ground arith
name_eq_sound mono mono h = refl

name_eq_refl : (n : PluginInstanceName) → name_eq n n ≡ true
name_eq_refl (anon s) = str_eq_refl s
name_eq_refl (named s) = str_eq_refl s
name_eq_refl mono = refl

id_eq_sound : (i j : PluginInstanceId) → id_eq i j ≡ true → i ≡ j
id_eq_sound i j h =
    ap₂ (λ c n. record { code = c; name = n }) (str_eq_sound i.code j.code (ground arith))
      (name_eq_sound i.name j.name (ground arith))

id_eq_refl : (i : PluginInstanceId) → id_eq i i ≡ true
id_eq_refl i = ground (arith, str_eq_refl i.code, name_eq_refl i.name)

pub id_eq_iff : (i j : PluginInstanceId) → (id_eq i j ≡ true) ↔ (i ≡ j)
id_eq_iff i j = (id_eq_sound i j, λ e. rw e (id_eq_refl j))

module _ (J F E : Type 0) where
  pub record PluginConfig : Type 0 where
    pub id : PluginInstanceId
    pub display_name : Option Str
    pub spec : J

  -- A hook reads the instance: its config, mount points and cell.
  abbrev pub Hook : Type 0
  Hook = PluginConfig → List (MountPointIndex × ℕ) → ℕ → Option E

  pub record PluginInstanceHooks : Type 0 where
    pub after_create : Option Hook
    pub before_mount : Option Hook
    pub after_mount : Option Hook
    pub before_destroy : Option Hook

  pub record PluginInstance : Type 0 where
    pub config : PluginConfig
    pub mount_points : List (MountPointIndex × ℕ)
    pub hooks : PluginInstanceHooks
    pub plugin_function : ℕ

  unfoldable pub call_hook : PluginInstance → Option Hook → Option E
  call_hook instance none = none
  call_hook instance (some hook) =
      hook instance.config instance.mount_points instance.plugin_function

  unfoldable pub mount_points_gc : List ℕ → PluginInstance → PluginInstance
  unfolding live_mount_points
  mount_points_gc live instance = record instance {
    mount_points = live_mount_points live instance.mount_points;
  }

  pub record PluginInstanceSnapshot : Type 0 where
    pub config : PluginConfig
    pub mount_points : List MountPointIndex

  unfoldable pub snapshot : List ℕ → PluginInstance → PluginInstanceSnapshot
  unfolding live_mount_points
  snapshot live instance = record {
    config = instance.config;
    mount_points = map (λ e. e.0) (live_mount_points live instance.mount_points);
  }

  -- `MountPoint::mount`, alike for the four kinds of mount points; it does not fail.
  unfoldable pub mount_layer : PluginInstance → MountPoint → Heap F → MountPoint × Heap F × ℕ
  mount_layer instance point heap = (
    record {
      layers = point.layers ++ instance.plugin_function ∷ [];
      markers = heap.next_signal ∷ point.markers;
    },
    record heap { live = heap.next_signal ∷ heap.live; next_signal = suc heap.next_signal },
    heap.next_signal,
  )

  unfoldable pub mount_at :
      PluginInstance → MountPointIndex → MountPoint → Heap F → PluginInstance × MountPoint × Heap F
  unfolding mount_layer put
  mount_at instance index point heap =
      let (point', heap', tracer) = mount_layer instance point heap in
      (
        record instance { mount_points = put index_eq index tracer instance.mount_points },
        point',
        heap',
      )

  -- `PluginFunction::new` and `swap`
  abbrev pub allocate : F → Heap F → Heap F
  allocate f heap = record heap {
    cells = insert heap.next_cell f heap.cells;
    next_cell = suc heap.next_cell;
  }

  abbrev pub swap : ℕ → F → Heap F → Heap F
  swap cell f heap = record heap { cells = insert cell f heap.cells }
