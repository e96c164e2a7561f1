-- ===== src/Hostname/Children.antt =====
-- The map of children: a lookup behind an update.
use spacegate.Common.{
  ◌≡◌, Str, str_eq, str_eq_iff, compare_str-eq, compare_str_refl, compare_str_trans, if◌then◌else◌,
  some, arith,
}
use spacegate.Hostname.Node.{Node, Children, no_children, child, find, put}

pub find-put {ℓ} :
    {T : Type ℓ} (j k : Str) (v : Node T) (c : Children T)
    → find j (put k v c) ≡ (if str_eq k j then some v else find j c)
unfolding find put
find-put j k v no_children = ground (arith, str_eq_iff k j, compare_str-eq j k, compare_str_refl k)
find-put j k v (child i n c) = ground (
  arith,
  find-put j k v c,
  str_eq_iff k j,
  compare_str-eq j k,
  compare_str-eq k i,
  compare_str-eq j i,
  compare_str_refl k,
  compare_str_refl j,
  compare_str_trans j k i,
)
