-- ===== src/Hostname/Tree/Mutation.antt =====
-- `get_mut` of the tree against `get`.
use spacegate.Common.{
  ℕ, ◌≡◌, Str, starts_with_code, Bool-cases, Option-cases, inl, inr, split_once, Option, none, some,
  arith, to_ascii_lowercase,
}
use spacegate.Common.Map.{lookup, lookup-insert}
use spacegate.Hostname.Node as Node
use spacegate.Hostname.Node.{labels, get_by_iter, or}
use spacegate.Hostname.Modify.{changed, answer_of-get_mut_by_iter}
use spacegate.Hostname.Tree.{HostnameTree, behind_first, without_port, get, get_mut}

module _ {ℓ} {T : Type ℓ} (parse_ipv4 parse_ipv6 : Str → Option ℕ) (f : T → T) where
  abbrev pub answer_of : Str → Option (HostnameTree T) → Option (Option T)
  answer_of h none = none
  answer_of h (some t) = some (get parse_ipv4 parse_ipv6 t h)

  -- get_mut finds nothing exactly where get finds nothing; else the tree behind the write answers
  -- the same host with the written value, for addresses, names and the fallback.
  pub answer_of-get_mut :
      (t : HostnameTree T) (h : Str)
      → answer_of h (get_mut parse_ipv4 parse_ipv6 f t h)
        ≡ changed f (get parse_ipv4 parse_ipv6 t h)
  unfolding get get_mut Node.get
  answer_of-get_mut t h = elim (Bool-cases (starts_with_code b'[' h)) [
    | inl bracket ↦ elim (Option-cases (split_once b']' (behind_first h))) [
      | inl open_end ↦ ground arith
      | inr ((inner, rest), closed) ↦ elim (Option-cases (parse_ipv6 inner)) [
        | inl bad ↦ ground arith
        | inr (ip, good) ↦ elim (Option-cases (lookup ip t.ipv6)) [
          | inl missing ↦ ground arith
          | inr (x, there) ↦ ground (arith, lookup-insert ip ip (f x) t.ipv6)
        ]
      ]
    ]
    | inr plain ↦ elim (Option-cases (parse_ipv4 (without_port h))) [
      | inr (ip, good) ↦ elim (Option-cases (lookup ip t.ipv4)) [
        | inl missing ↦ ground arith
        | inr (x, there) ↦ ground (arith, lookup-insert ip ip (f x) t.ipv4)
      ]
      | inl name ↦
          ground (
            arith,
            answer_of-get_mut_by_iter f t.host (labels (to_ascii_lowercase (without_port h))),
          )
    ]
  ]
