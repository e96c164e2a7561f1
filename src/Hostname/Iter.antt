-- ===== src/Hostname/Iter.antt =====
-- `HostnameMatcherNodeIterMut` driven by `for_each`, which ends at the first `None`.
-- A child is visited by `node.iter_mut().next()`, so only for its first value.
use spacegate.Common.{ℕ, zero, suc, Option, none, some, List, [], ◌∷◌}
use spacegate.Hostname.Node.{Node, node, Children, no_children, child, no_else, else_node}

module _ {ℓ} {T : Type ℓ} (g : T → T) where
  -- `g` on the first value of a node's iterator, or `none` where that iterator is at its end.
  unfoldable pub mut_first : Node T → Option (Node T)
  mut_first (node (some x) c e) = some (node (some (g x)) c e)
  mut_first (node none (child k n c) e) = elim (mut_first n) [
    | none ↦ none
    | some m ↦ some (node none (child k m c) e)
  ]
  mut_first (node none no_children (else_node n)) = elim (mut_first n) [
    | none ↦ none
    | some m ↦ some (node none no_children (else_node m))
  ]
  mut_first (node none no_children no_else) = none

  -- The rest of an iteration: the number of `None`s that its driver still takes without ending, or
  -- `none` where it has ended.
  abbrev pub Left : Type 0
  Left = Option ℕ

  unfoldable pub walk : ℕ → Children T → Children T × Left
  walk stops no_children = (no_children, some stops)
  walk stops (child k n c) = elim (mut_first n) [
    | some m ↦ let (rest, left) = walk stops c in (child k m rest, left)
    | none ↦ elim stops [
      | zero ↦ (child k n c, none)
      | suc fewer ↦ let (rest, left) = walk fewer c in (child k n rest, left)
    ]
  ]

  abbrev pub change_value : Option T → Option T
  change_value none = none
  change_value (some x) = some (g x)

  unfoldable pub for_each_node : ℕ → Node T → Node T
  unfolding walk mut_first
  for_each_node stops (node d c no_else) =
      let (rest, left) = walk stops c in node (change_value d) rest no_else
  for_each_node stops (node d c (else_node n)) =
      let (rest, left) = walk stops c in
      node (change_value d) rest
        (else_node (elim left [ none ↦ n | some more ↦ for_each_node more n ]))

  unfoldable pub map_values : List (ℕ × T) → List (ℕ × T)
  map_values [] = []
  map_values ((k, v) ∷ m) = (k, g v) ∷ map_values m
