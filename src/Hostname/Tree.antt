-- ===== src/Hostname/Tree.antt =====
-- `HostnameTree`: addresses in two maps, names in the tree of labels, and a fallback.
-- How a text is read as an address is `Ipv4Addr::from_str` and `Ipv6Addr::from_str` of the standard
-- library, for which the section takes any two functions; an address is its number.
pub mod Mutation
pub mod Laws
use spacegate.Common.{
  ℕ, Str, codes, str_eq, starts_with_code, split_once, rsplit_once, reverse, ◌==◌, if◌then◌else◌,
  Option, none, some, List, [], ◌∷◌, to_ascii_lowercase,
}
use spacegate.Common.Map.{lookup, insert}
use spacegate.Hostname.Node as Node
use spacegate.Hostname.Node.{Node, new, or, labels}
use spacegate.Hostname.Modify.{get_mut_by_iter}
use spacegate.Hostname.Iter.{for_each_node, map_values, change_value}

pub record HostnameTree {ℓ} (T : Type ℓ) : Type ℓ where
  pub ipv4 : List (ℕ × T)
  pub ipv6 : List (ℕ × T)
  pub host : Node T
  pub fallback : Option T

-- The text behind the first code point.
abbrev pub behind_first : Str → Str
behind_first [] = []
behind_first (c ∷ s) = s

-- `strip_suffix`
abbrev pub strip_suffix_code : ℕ → Str → Option Str
strip_suffix_code d s = elim (reverse s) [
  | [] ↦ none
  | c ∷ r ↦ if c == d then some (reverse r) else none
]

-- A host without its port.
unfoldable pub without_port : Str → Str
without_port host = elim (rsplit_once b':' host) [ none ↦ host | some (name, port) ↦ name ]

module _ {ℓ} {T : Type ℓ} where
  unfoldable pub empty : HostnameTree T
  empty = record { ipv4 = []; ipv6 = []; host = new; fallback = none }

  -- `iter_mut().for_each(g)`
  unfoldable pub for_each_mut : (T → T) → HostnameTree T → HostnameTree T
  unfolding for_each_node map_values
  for_each_mut g t = record {
    ipv4 = map_values g t.ipv4;
    ipv6 = map_values g t.ipv6;
    host = for_each_node g (elim t.fallback [ none ↦ 0 | some x ↦ 1 ]) t.host;
    fallback = change_value g t.fallback;
  }

  -- The change of one entry of an address map.
  unfoldable pub lookup_mut : (T → T) → ℕ → List (ℕ × T) → Option (List (ℕ × T))
  lookup_mut f k m = elim (lookup k m) [ none ↦ none | some x ↦ some (insert k (f x) m) ]

module _ {ℓ} {T : Type ℓ} (parse_ipv4 parse_ipv6 : Str → Option ℕ) where
  unfoldable pub get : HostnameTree T → Str → Option T
  unfolding without_port
  get t host =
      if starts_with_code b'[' host
      then elim (split_once b']' (behind_first host)) [
        | none ↦ none
        | some (inner, rest) ↦ elim (parse_ipv6 inner) [
          | none ↦ none
          | some ipv6 ↦ or (lookup ipv6 t.ipv6) t.fallback
        ]
      ]
      else let name = without_port host in
        elim (parse_ipv4 name) [
          | some ipv4 ↦ or (lookup ipv4 t.ipv4) t.fallback
          | none ↦ or (Node.get t.host name) t.fallback
        ]

  -- The change of the fallback, where nothing else is found.
  abbrev pub fallback_mut : (T → T) → HostnameTree T → Option (HostnameTree T)
  fallback_mut f t = elim t.fallback [
    | none ↦ none
    | some x ↦ some (record t { fallback = some (f x) })
  ]

  -- `get_mut` and a write of `f` through its reference; `none` where it gives no reference.
  unfoldable pub get_mut : (T → T) → HostnameTree T → Str → Option (HostnameTree T)
  unfolding without_port lookup_mut
  get_mut f t host =
      if starts_with_code b'[' host
      then elim (split_once b']' (behind_first host)) [
        | none ↦ none
        | some (inner, rest) ↦ elim (parse_ipv6 inner) [
          | none ↦ none
          | some ipv6 ↦ elim (lookup_mut f ipv6 t.ipv6) [
            | some m ↦ some (record t { ipv6 = m })
            | none ↦ fallback_mut f t
          ]
        ]
      ]
      else let name = without_port host in
        elim (parse_ipv4 name) [
          | some ipv4 ↦ elim (lookup_mut f ipv4 t.ipv4) [
            | some m ↦ some (record t { ipv4 = m })
            | none ↦ fallback_mut f t
          ]
          | none ↦ elim (get_mut_by_iter f t.host (labels (to_ascii_lowercase name))) [
            | some n ↦ some (record t { host = n })
            | none ↦ fallback_mut f t
          ]
        ]

  unfoldable pub set : HostnameTree T → Str → T → HostnameTree T
  set t host v =
      if str_eq host (codes "*")
      then record t { fallback = some v }
      else if starts_with_code b'[' host
      then elim (strip_suffix_code b']' (behind_first host)) [
        | none ↦ t
        | some inner ↦ elim (parse_ipv6 inner) [
          | none ↦ t
          | some ipv6 ↦ record t { ipv6 = insert ipv6 v t.ipv6 }
        ]
      ]
      else elim (parse_ipv4 host) [
        | some ipv4 ↦ record t { ipv4 = insert ipv4 v t.ipv4 }
        | none ↦ record t { host = Node.set t.host host v }
      ]
