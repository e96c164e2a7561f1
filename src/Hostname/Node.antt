-- ===== src/Hostname/Node.antt =====
-- `HostnameMatcherNode`: the tree of host name labels, read from the last label of a name.
-- A `BTreeMap` of children is a list in key order; a search and an update stop at the first larger
-- key. A list of nodes inside a node is a second type of the block, an optional node a third.
use spacegate.Common.{
  Str, codes, str_eq, compare_str, Ordering, Bool, true, false, Option, none, some, List, [], ◌∷◌,
  reverse, split, to_ascii_lowercase,
}

mutual
  pub data Node {ℓ} (T : Type ℓ) : Type ℓ where
    node : Option T → Children T → Else T → Node T

  pub data Children {ℓ} (T : Type ℓ) : Type ℓ where
    no_children : Children T
    child : Str → Node T → Children T → Children T

  pub data Else {ℓ} (T : Type ℓ) : Type ℓ where
    no_else : Else T
    else_node : Node T → Else T

abbrev pub is_star : Str → Bool
is_star s = str_eq s (codes "*")

-- `host.split('.').rev()`
abbrev pub labels : Str → List Str
labels host = reverse (split b'.' host)

module _ {ℓ} {T : Type ℓ} where
  abbrev pub new : Node T
  new = node none no_children no_else

  abbrev pub value_of : Node T → Option T
  value_of (node d c e) = d

  -- `or` of two optional values
  abbrev pub or : Option T → Option T → Option T
  or (some x) o = some x
  or none o = o

  -- `children.get(key)`
  unfoldable pub find : Str → Children T → Option (Node T)
  find k no_children = none
  find k (child j n c) = elim (compare_str k j) [
    | Ordering.lt ↦ none
    | Ordering.eq ↦ some n
    | Ordering.gt ↦ find k c
  ]

  -- The write behind `children.entry(key)`.
  unfoldable pub put : Str → Node T → Children T → Children T
  put k v no_children = child k v no_children
  put k v (child j n c) = elim (compare_str k j) [
    | Ordering.lt ↦ child k v (child j n c)
    | Ordering.eq ↦ child j v c
    | Ordering.gt ↦ child j n (put k v c)
  ]

  abbrev pub or_default : Option (Node T) → Node T
  or_default none = new
  or_default (some n) = n

  abbrev pub else_or_new : Else T → Node T
  else_or_new no_else = new
  else_or_new (else_node n) = n

  unfoldable pub append_by_iter : Node T → List Str → T → Node T
  append_by_iter (node d c e) [] v = node (some v) c e
  append_by_iter (node d c e) (segment ∷ host) v = elim (is_star segment) [
    | true ↦ node d c (else_node (append_by_iter (else_or_new e) host v))
    | false ↦
        let key = to_ascii_lowercase segment in
        node d (put key (append_by_iter (or_default (find key c)) host v) c) e
  ]

  unfoldable pub get_by_iter : Node T → List Str → Option T
  get_by_iter (node d c e) [] = d
  get_by_iter (node d c e) (segment ∷ host) =
      let children_match : Option T = elim (find segment c) [
        | none ↦ none
        | some n ↦ get_by_iter n host
      ] in
      elim children_match [
        | some x ↦ some x
        | none ↦ elim e [ no_else ↦ none | else_node n ↦ or (get_by_iter n host) (value_of n) ]
      ]

  unfoldable pub set : Node T → Str → T → Node T
  unfolding append_by_iter split
  set n host v = append_by_iter n (labels host) v

  unfoldable pub get : Node T → Str → Option T
  unfolding get_by_iter split
  get n host = get_by_iter n (labels (to_ascii_lowercase host))
