-- ===== src/Wasm/SharedData.antt =====
-- crates/plugin-wasm/src/shared.rs: the key-value store that the modules share.
-- The lock is held over each operation, so that operations are steps; no thread panics with it.
mod Cas
pub mod Laws
use spacegate.Common.{
  ℕ, ◌+◌, ◌%◌, ◌^◌, max, ◌==◌, if◌then◌else◌, Str, str_eq, Bool, not, ◌&&◌, Option, none, some,
  List, [], ◌∷◌,
}
use spacegate.Common.Assoc.{get, put}

pub record SharedDataEntry : Type 0 where
  pub value : Str
  pub cas : ℕ

-- `SharedDataStore.map`
abbrev pub SharedDataStore : Type 0
SharedDataStore = List (Str × SharedDataEntry)

pub data SharedDataSetResult : Type 0 where
  ok : SharedDataSetResult
  cas_mismatch : SharedDataSetResult

-- `SharedDataEntry::default()`
abbrev pub default_entry : SharedDataEntry
default_entry = record { value = []; cas = 0 }

unfoldable pub shared_data_get : Str → SharedDataStore → Option (Str × ℕ)
unfolding get
shared_data_get key store = elim (get str_eq key store) [
  | none ↦ none
  | some e ↦ some (e.value, e.cas)
]

-- `wrapping_add(1).max(1)` of a `u32`
unfoldable pub next_cas : ℕ → ℕ
next_cas cas = max ((cas + 1) % 2 ^ 32) 1

-- What `entry(key).or_default()` refers to.
unfoldable pub entry_or_default : Str → SharedDataStore → SharedDataEntry
unfolding get
entry_or_default key store = elim (get str_eq key store) [ none ↦ default_entry | some e ↦ e ]

unfoldable pub shared_data_set :
    Str → Str → ℕ → SharedDataStore → SharedDataSetResult × SharedDataStore
unfolding entry_or_default next_cas put
shared_data_set key value cas store =
    let entry = entry_or_default key store in
    if not (cas == 0) && not (cas == entry.cas)
    then (cas_mismatch, put str_eq key entry store)
    else (ok, put str_eq key (record { value = value; cas = next_cas entry.cas }) store)
