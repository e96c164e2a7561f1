-- ===== src/Plugin/Repository/Mount.antt =====
-- `PluginRepository::mount`: the layer that it adds, and what it leaves alone.
use spacegate.Common.{
  ◌≡◌, refl, ap, ◌∙◌, str_eq, Bool, true, false, if◌then◌else◌, Option, none, some, List, [], ◌∷◌,
  ◌++◌, inl, inr, arith, Option-cases, ℕ,
}
use spacegate.Common.Assoc.{get, put, get-put}
use spacegate.Plugin.Instance.{
  PluginInstanceId, id_eq, id_eq_iff, MountPointIndex, MountPoint, PluginInstance, call_hook,
  mount_points_gc, mount_at, mount_layer,
}
use spacegate.Plugin.Repository.{PluginRepository, Failure, mount}
use spacegate.Plugin.Repository.Laws.{runs, runs_of, get_same}

module _ {J F E : Type 0} where
  replaced_at :
      (same : Bool) (o : Option (PluginInstance J F E)) (a c : PluginInstance J F E)
      (cells : List (ℕ × F))
      → (same ≡ true → o ≡ some a)
      → c.plugin_function ≡ a.plugin_function
      → runs_of (if same then some c else o) cells ≡ runs_of o cells
  replaced_at true o a c cells h e = rw (h refl, e) refl
  replaced_at false o a c cells h e = refl

  -- An instance with the same cell in the place of another.
  replaced :
      (repo : PluginRepository J F E) (id : PluginInstanceId) (a c : PluginInstance J F E)
      → get id_eq id repo.instances ≡ some a
      → c.plugin_function ≡ a.plugin_function
      → (j : PluginInstanceId)
      → runs j (record repo { instances = put id_eq id c repo.instances }) ≡ runs j repo
  replaced repo id a c at e j =
      ap (λ o. runs_of o repo.heap.cells) (get-put id_eq id_eq_iff id j c repo.instances)
      ∙ replaced_at (id_eq j id) (get id_eq j repo.instances) a c repo.heap.cells
          (λ same. get_same repo.instances id j same ∙ at) e

  abbrev pub Mounted :
      MountPoint
      → PluginInstanceId
      → PluginRepository J F E
      → (PluginRepository J F E × MountPoint) × Option (Failure E)
      → Type 0
  Mounted point id repo r =
      (r.1 ≡ none
        → (a : PluginInstance J F E) × ((get id_eq id repo.instances ≡ some a)
            × (r.0.1.layers ≡ point.layers ++ a.plugin_function ∷ [])))
      × ((j : PluginInstanceId) → runs j r.0.0 ≡ runs j repo)

  -- A mount that succeeds finds the instance and puts one layer with its cell behind the layers of
  -- the mount point; whether it succeeds or fails, every id runs what it ran.
  pub mount-Mounted :
      (point : MountPoint) (index : MountPointIndex) (id : PluginInstanceId)
      (repo : PluginRepository J F E)
      → Mounted point id repo (mount J F E point index id repo)
  unfolding mount mount_points_gc mount_at mount_layer
  mount-Mounted point index id repo = elim (Option-cases (get str_eq id.code repo.plugins)) [
    | inl n ↦ rw (n, mount) ((λ h. ground arith), λ j. refl)
    | inr (attr, e) ↦
        rw (e, mount)
          (elim (Option-cases (get id_eq id repo.instances)) [
            | inl n ↦ rw (n, mount) ((λ h. ground arith), λ j. refl)
            | inr (a, at) ↦
                let swept = mount_points_gc J F E repo.heap.live a in
                let mounted = (mount_at J F E swept index point repo.heap).0 in
                rw (at, mount)
                  (elim (Option-cases (call_hook J F E swept a.hooks.before_mount)) [
                    | inr (x, failed) ↦
                        rw (failed, mount) ((λ h. ground arith), replaced repo id a swept at refl)
                    | inl n ↦
                        rw (n, mount)
                          (elim (Option-cases (call_hook J F E mounted a.hooks.after_mount)) [
                            | inl n' ↦
                                rw (n', mount)
                                  ((λ h. (a, (refl, refl))), replaced repo id a mounted at refl)
                            | inr (x, failed) ↦
                                rw (failed, mount)
                                  ((λ h. ground arith), replaced repo id a mounted at refl)
                          ])
                  ])
          ])
  ]
