-- ===== src/Hostname/Tree/Laws.antt =====
-- A host with a port, and an exact rule.
use spacegate.Common.{
  ℕ, ◌≡◌, ◌≢◌, refl, Str, starts_with_code, rsplit_once, Option, none, some, [], ◌∷◌, ◌++◌, arith,
  false, All,
}
use spacegate.Hostname.Tree.{HostnameTree, get}

abbrev pub NoColon : Str → Type 0
NoColon s = All (λ c. c ≢ b':') s

rsplit_once-NoColon : (s : Str) → NoColon s → rsplit_once b':' s ≡ none
unfolding rsplit_once
rsplit_once-NoColon [] h = refl
rsplit_once-NoColon (c ∷ s) h = ground (arith, rsplit_once-NoColon s h.1)

rsplit_once-port :
    (name port : Str) → NoColon port → rsplit_once b':' (name ++ b':' ∷ port) ≡ some (name, port)
unfolding rsplit_once
rsplit_once-port [] port h = ground (arith, rsplit_once-NoColon port h)
rsplit_once-port (c ∷ name) port h = ground (arith, rsplit_once-port name port h)

module _ {ℓ} {T : Type ℓ} (parse_ipv4 parse_ipv6 : Str → Option ℕ) where
  -- A port behind a name or an address plays no part in a lookup, where name and port have no
  -- colon and the name no opening bracket in front.
  get-port :
      (t : HostnameTree T) (name port : Str)
      → starts_with_code b'[' name ≡ false
      → NoColon name
      → NoColon port
      → get parse_ipv4 parse_ipv6 t (name ++ b':' ∷ port) ≡ get parse_ipv4 parse_ipv6 t name
  unfolding get
  get-port t [] port s h k = ground (arith, rsplit_once-NoColon [] h, rsplit_once-port [] port k)
  get-port t (c ∷ name) port s h k =
      ground (arith, rsplit_once-NoColon (c ∷ name) h, rsplit_once-port (c ∷ name) port k)
