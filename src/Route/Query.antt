-- ===== src/Route/Query.antt =====
-- crates/kernel/src/utils/query_kv.rs

pub mod Laws
pub mod Ends
use spacegate.Common.{ℕ, zero, suc, Str, split_once, length, Option, none, some, List, [], ◌∷◌}

-- `QueryKvIter::next`: an item and the text that is left.
abbrev pub Item : Type 0
Item = Str × Option Str

unfoldable pub next : Str → Option (Item × Str)
next [] = none
next (c ∷ s) = elim (split_once b'&' (c ∷ s)) [
  | some (k, rest) ↦ elim (split_once b'=' k) [
    | some (name, value) ↦ some ((name, some value), rest)
    | none ↦ some ((k, none), rest)
  ]
  | none ↦ some ((c ∷ s, none), [])
]

-- The items of the iterator, with fuel.
unfoldable pub items_from : ℕ → Str → List Item
items_from zero s = []
items_from (suc fuel) s = elim (next s) [
  | none ↦ []
  | some (item, rest) ↦ item ∷ items_from fuel rest
]

-- Each item takes a code point at least, so the length of the query is fuel enough.
unfoldable pub items : Str → List Item
unfolding items_from next split_once
items query = items_from (suc (length query)) query
