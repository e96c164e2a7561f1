-- ===== src/Utils/ParseHost.antt =====
-- `HostAndPort::from_bytes` of crates/kernel/src/utils/parse_host.rs.
use spacegate.Common.{
  length-append, ℕ, zero, suc, ◌+◌, ◌-◌, ◌≡◌, refl, ap, ap₂, ◌∙◌, All-append, arith, ◌==◌, leb,
  if◌then◌else◌, ◌&&◌, length, All, Bool, true, false, Option, none, some, List, [], ◌∷◌, ◌++◌,
  reverse, drop,
}
use mathlib.Core.List.{reverse-append, reverse-cons, append_assoc}

abbrev pub is_ascii_digit : ℕ → Bool
is_ascii_digit c = leb b'0' c && leb c b'9'

-- The loop over the bytes from behind; the index of a byte is the number of those in front of it.
unfoldable pub comma_token_pos : List ℕ → Option ℕ
comma_token_pos [] = none
comma_token_pos (byte ∷ front) =
    let rest = comma_token_pos front in
    if byte == b':' then some (length front) else if is_ascii_digit byte then rest else none

-- `&bytes[..n]`
abbrev pub take : ℕ → List ℕ → List ℕ
take zero s = []
take (suc n) [] = []
take (suc n) (c ∷ s) = c ∷ take n s

pub record HostAndPort : Type 0 where
  pub host : List ℕ
  pub port : Option (List ℕ)

unfoldable pub from_bytes : List ℕ → HostAndPort
unfolding comma_token_pos
from_bytes bytes = elim (comma_token_pos (reverse bytes)) [
  | none ↦ record { host = bytes; port = none }
  | some pos ↦ record {
    host = take pos bytes;
    port = if pos == length bytes - 1 then none else some (drop (suc pos) bytes);
  }
]

abbrev pub Digit : ℕ → Type 0
Digit c = is_ascii_digit c ≡ true

scan-digits :
    (digits rest : List ℕ)
    → All Digit digits
    → comma_token_pos (digits ++ b':' ∷ rest) ≡ some (length rest)
unfolding comma_token_pos
scan-digits [] rest h = refl
scan-digits (d ∷ digits) rest h = ground (arith, scan-digits digits rest)

Digit-reverse : (digits : List ℕ) → All Digit digits → All Digit (reverse digits)
Digit-reverse [] h = tt
Digit-reverse (d ∷ digits) (p, h) =
    rw (reverse-cons d digits)
      (All-append Digit (reverse digits) (d ∷ []) (Digit-reverse digits h) (p, tt))

length-reverse : (s : List ℕ) → length (reverse s) ≡ length s
length-reverse [] = refl
length-reverse (c ∷ s) =
    rw (reverse-cons c s, length-append (reverse s) (c ∷ []), length-reverse s) (omega arith)

take-append : (s t : List ℕ) → take (length s) (s ++ t) ≡ s
take-append [] t = refl
take-append (c ∷ s) t = ap (◌∷◌ c) (take-append s t)

drop-append : (s : List ℕ) (c : ℕ) (t : List ℕ) → drop (suc (length s)) (s ++ c ∷ t) ≡ t
drop-append [] c t = refl
drop-append (d ∷ s) c t = drop-append s c t

reverse-joined :
    (name digits : List ℕ) → reverse (name ++ b':' ∷ digits) ≡ reverse digits ++ b':' ∷ reverse name
reverse-joined name digits =
    reverse-append name (b':' ∷ digits)
    ∙ ap (λ r. r ++ reverse name) (reverse-cons b':' digits)
    ∙ append_assoc (reverse digits) (b':' ∷ []) (reverse name)

pos-joined :
    (name digits : List ℕ)
    → All Digit digits
    → comma_token_pos (reverse (name ++ b':' ∷ digits)) ≡ some (length name)
pos-joined name digits h =
    ap comma_token_pos (reverse-joined name digits)
    ∙ scan-digits (reverse digits) (reverse name) (Digit-reverse digits h)
    ∙ ap some (length-reverse name)

-- The port text behind the colon, if there is one.
abbrev pub port_of : List ℕ → Option (List ℕ)
port_of [] = none
port_of (d ∷ digits) = some (d ∷ digits)

test_last : (n : ℕ) → (n == n + 1 - 1) ≡ true
test_last n = ground arith

test_inner : (n k : ℕ) → (n == n + suc (suc k) - 1) ≡ false
test_inner n k = ground arith

port-joined :
    (name digits : List ℕ)
    → (if length name == length (name ++ b':' ∷ digits) - 1
        then none
        else some (drop (suc (length name)) (name ++ b':' ∷ digits)))
      ≡ port_of digits
port-joined name [] = rw (length-append name (b':' ∷ []), test_last (length name)) refl
port-joined name (d ∷ digits) =
    rw
      (
        length-append name (b':' ∷ d ∷ digits),
        drop-append name b':' (d ∷ digits),
        test_inner (length name) (length digits),
      )
      refl

from_bytes-joined :
    (name digits : List ℕ)
    → All Digit digits
    → from_bytes (name ++ b':' ∷ digits) ≡ record { host = name; port = port_of digits }
unfolding from_bytes
from_bytes-joined name digits h =
    rw (pos-joined name digits h, from_bytes)
      (ap₂ (λ n p. record { host = n; port = p }) (take-append name (b':' ∷ digits))
        (port-joined name digits))

abbrev pub NoColon : List ℕ → Type 0
NoColon s = All (λ c. (c == b':') ≡ false) s

pos-NoColon : (s : List ℕ) → NoColon s → comma_token_pos s ≡ none
unfolding comma_token_pos
pos-NoColon [] h = refl
pos-NoColon (c ∷ s) h = ground (arith, pos-NoColon s h.1)

NoColon-reverse : (s : List ℕ) → NoColon s → NoColon (reverse s)
NoColon-reverse [] h = tt
NoColon-reverse (c ∷ s) (p, h) =
    rw (reverse-cons c s)
      (All-append (λ c. (c == b':') ≡ false) (reverse s) (c ∷ []) (NoColon-reverse s h) (p, tt))

-- For digits behind a colon, from_bytes gives the name in front of the colon and the digits as the
-- port, or no port where there are none; a name without a colon is all host and has no port.
pub from_bytes-name :
    (name digits : List ℕ)
    → All Digit digits
    → (from_bytes (name ++ b':' ∷ digits) ≡ record { host = name; port = port_of digits })
      × (NoColon name → from_bytes name ≡ record { host = name; port = none })
unfolding from_bytes
from_bytes-name name digits h = (
  from_bytes-joined name digits h,
  λ k. rw (pos-NoColon (reverse name) (NoColon-reverse name k), from_bytes) refl,
)
