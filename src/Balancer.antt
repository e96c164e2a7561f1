-- ===== src/Balancer.antt =====
-- crates/kernel/src/helper_layers/balancer.rs and the policies under it. The hashers and the random
-- sampler come from other crates and are parameters; a request is what the policies read of it.
pub mod Laws
use spacegate.Common.{ℕ, ◌%◌, Str, length, get_elem?, Option, none, some, List, [], ◌∷◌}

-- The canonical IP address of the peer, and the bytes of the header `Mcp-Session-Id`.
pub record Request : Type 0 where
  pub peer : Option ℕ
  pub session : Option Str

pub record Balancer (S : Type 0) : Type 0 where
  pub instances : List S
  pub fallback : S

-- A policy picks from the instances.
abbrev pub BalancePolicy : Type 0 → Type 0
BalancePolicy S = List S → Request → Option S

-- What the policy hashes: the session, else the peer.
unfoldable pub session_hash : (hash_ip : ℕ → ℕ) (hash_bytes : Str → ℕ) → Request → Option ℕ
session_hash hash_ip hash_bytes req = elim req.session [
  | some session_id ↦ some (hash_bytes session_id)
  | none ↦ elim req.peer [ none ↦ none | some ip ↦ some (hash_ip ip) ]
]

module _ {S : Type 0} where
  unfoldable pub ip_hash_pick : (hash_ip : ℕ → ℕ) → BalancePolicy S
  ip_hash_pick hash_ip [] req = none
  ip_hash_pick hash_ip (x ∷ []) req = some x
  ip_hash_pick hash_ip (x ∷ y ∷ xs) req = elim req.peer [
    | none ↦ none
    | some ip ↦ get_elem? (x ∷ y ∷ xs) (hash_ip ip % length (x ∷ y ∷ xs))
  ]

  unfoldable pub mcp_session_pick : (hash_ip : ℕ → ℕ) (hash_bytes : Str → ℕ) → BalancePolicy S
  unfolding session_hash
  mcp_session_pick hash_ip hash_bytes [] req = none
  mcp_session_pick hash_ip hash_bytes (x ∷ []) req = some x
  mcp_session_pick hash_ip hash_bytes (x ∷ y ∷ xs) req =
      elim (session_hash hash_ip hash_bytes req) [
        | none ↦ none
        | some hash ↦ get_elem? (x ∷ y ∷ xs) (hash % length (x ∷ y ∷ xs))
      ]

  -- `sample` is the index that the picker gives.
  unfoldable pub random_pick : (sample : ℕ) → BalancePolicy S
  random_pick sample [] req = none
  random_pick sample (x ∷ []) req = some x
  random_pick sample (x ∷ y ∷ xs) req = get_elem? (x ∷ y ∷ xs) sample

  -- The service that is called.
  unfoldable pub serve : BalancePolicy S → Balancer S → Request → S
  serve pick b req = elim (pick b.instances req) [ none ↦ b.fallback | some s ↦ s ]
