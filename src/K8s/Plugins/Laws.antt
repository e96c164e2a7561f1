-- ===== src/K8s/Plugins/Laws.antt =====
-- Plugins that are written as filters and read again.
use mathlib.Core.List.{filter_map}
use spacegate.K8s.Plugins.Ranked.{length-sort_bindings}
use spacegate.Common.Int.{ℤ, pos, negsuc}
use spacegate.Common.{
  ℕ, suc, ◌+◌, ◌-◌, ◌*◌, ◌≤◌, leb, length, ◌≡◌, refl, ap, ◌∙◌, arith, Bool, true, false, List, [],
  ◌∷◌, ◌++◌, keep, any, if◌then◌else◌,
}
use spacegate.Plugin.Instance.{PluginInstanceName, named, PluginInstanceId}
use spacegate.K8s.Model.{PluginBinding}
use spacegate.K8s.Kube.{HttpRouteFilter}
use spacegate.K8s.Plugins.{
  to_http_route_filter, from_http_route_filter, sort_bindings, binding_filters, numbered,
  priority_at, is_extension_ref, bindings_of,
}

abbrev pub is_named : PluginInstanceName → Bool
is_named (named name) = true
is_named _ = false

-- The ids of the bindings that have a name.
unfoldable pub named_ids : List PluginBinding → List PluginInstanceId
named_ids [] = []
named_ids (b ∷ bs) = let rest = named_ids bs in if is_named b.id.name then b.id ∷ rest else rest

-- The `n`-th priority from 1000 on in steps of 100.
abbrev pub step_priority : ℕ → ℤ
step_priority n = if leb n 10 then pos (1000 - 100 * n) else negsuc (100 * n - 1001)

abbrev pub renumbered : ℕ → List PluginInstanceId → List PluginBinding
renumbered n [] = []
renumbered n (id ∷ ids) = record { id = id; priority = step_priority n } ∷ renumbered (suc n) ids

-- The bindings that are left, by an order of bindings: those with a name, renumbered.
unfoldable pub kept_bindings :
    (List PluginBinding → List PluginBinding) → List PluginBinding → List PluginBinding
unfolding named_ids
kept_bindings rank bindings = renumbered 0 (named_ids (rank bindings))

-- As many as have priorities in an `i32`.
abbrev pub IsFew : List PluginBinding → Type 0
IsFew bindings = length bindings ≤ 21474846

priority_at-step_priority : (n : ℕ) → n ≤ 21474846 → priority_at n ≡ step_priority n
unfolding priority_at
priority_at-step_priority n h = ground arith

numbered-renumbered :
    (n : ℕ) (ids : List PluginInstanceId)
    → n + length ids ≤ 21474847
    → numbered n ids ≡ renumbered n ids
unfolding numbered
numbered-renumbered n [] h = refl
numbered-renumbered n (id ∷ ids) h =
    rw (priority_at-step_priority n (omega arith), numbered-renumbered (suc n) ids (omega arith))
      refl

length-named_ids : (bs : List PluginBinding) → length (named_ids bs) ≤ length bs
unfolding named_ids
length-named_ids [] = omega arith
length-named_ids (b ∷ bs) = ground (arith, length-named_ids bs)

unfoldable pub ids_of : List HttpRouteFilter → List PluginInstanceId
unfolding filter_map
ids_of filters = filter_map from_http_route_filter (keep is_extension_ref filters)

ids_of-filters :
    (bs : List PluginBinding)
    → ids_of (filter_map (λ b. to_http_route_filter b.id) bs) ≡ named_ids bs
unfolding ids_of filter_map to_http_route_filter from_http_route_filter named_ids
ids_of-filters [] = refl
ids_of-filters (b ∷ bs) = ground (arith, ids_of-filters bs)

no-ids :
    (fs gs : List HttpRouteFilter) → any is_extension_ref fs ≡ false → ids_of (fs ++ gs) ≡ ids_of gs
unfolding ids_of
no-ids [] gs h = refl
no-ids (f ∷ fs) gs h = ground (arith, no-ids fs gs)

-- Filters of other kinds in front play no part.
pub bindings_of-binding_filters :
    (fs : List HttpRouteFilter) (bindings : List PluginBinding)
    → any is_extension_ref fs ≡ false
    → IsFew bindings
    → bindings_of (fs ++ binding_filters bindings) ≡ kept_bindings sort_bindings bindings
unfolding bindings_of binding_filters kept_bindings ids_of filter_map
bindings_of-binding_filters fs bindings h few =
    ap (numbered 0)
      (no-ids fs (binding_filters bindings) h ∙ ids_of-filters (sort_bindings bindings))
    ∙ numbered-renumbered 0 (named_ids (sort_bindings bindings))
        (omega (arith, length-named_ids (sort_bindings bindings), length-sort_bindings bindings))
