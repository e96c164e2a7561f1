-- ===== src/Utils/SchemaPort.antt =====
-- crates/kernel/src/utils/schema_port.rs. The macro puts an arm `_ => None` behind the arm of every
-- entry; a `match` takes the first arm that fits.
use mathlib.Core.Option.{some-injective}
use spacegate.Common.{
  ℕ, ◌≡◌, ◌↔◌, sym, ap, refl, arith, ◌==◌, ==_iff, Str, codes, str_eq, str_eq_iff, Bool, true,
  false, Option, none, some, List, [], ◌∷◌,
}

pub data Arm : Type 0 where
  entry : Str → ℕ → Arm
  otherwise : Arm

-- The entries in the macro's call.
abbrev pub entries : List (Str × ℕ)
entries =
    (codes "http", 80)
    ∷ (codes "ws", 80)
    ∷ (codes "https", 443)
    ∷ (codes "wss", 443)
    ∷ (codes "grpc", 50051)
    ∷ []

-- The arms that the macro writes.
abbrev pub arms_of : List (Str × ℕ) → List Arm
arms_of [] = []
arms_of ((schema, port) ∷ rest) = entry schema port ∷ otherwise ∷ arms_of rest

-- The arms of each `match` always fit, so its end is not reached.
unfoldable pub match_schema : List Arm → Str → Option ℕ
match_schema [] s = none
match_schema (entry schema port ∷ arms) s =
    let rest = match_schema arms s in elim (str_eq s schema) [ true ↦ some port | false ↦ rest ]
match_schema (otherwise ∷ arms) s = none

unfoldable pub match_port : List Arm → ℕ → Option Str
match_port [] p = none
match_port (entry schema port ∷ arms) p =
    let rest = match_port arms p in elim (p == port) [ true ↦ some schema | false ↦ rest ]
match_port (otherwise ∷ arms) p = none

unfoldable pub schema_to_port : Str → Option ℕ
unfolding match_schema
schema_to_port s = match_schema (arms_of entries) s

unfoldable pub port_to_schema : ℕ → Option Str
unfolding match_port
port_to_schema p = match_port (arms_of entries) p

port_lem :
    (b : Bool) (s : Str) (p : ℕ)
    → ((b ≡ true) ↔ (s ≡ codes "http"))
    → (elim b [ true ↦ some 80 | false ↦ none ] ≡ some p) ↔ ((s ≡ codes "http") × (p ≡ 80))
port_lem true s p h = (λ e. (h.0 refl, ground arith), λ e. ground (arith, e.1))
port_lem false s p h = (λ e. ground arith, λ e. ground (arith, h.1 e.0))

schema_lem :
    (b : Bool) (s : Str) (p : ℕ)
    → ((b ≡ true) ↔ (p ≡ 80))
    → (elim b [ true ↦ some (codes "http") | false ↦ none ] ≡ some s)
      ↔ ((s ≡ codes "http") × (p ≡ 80))
schema_lem true s p h =
    (λ e. (sym (some-injective (codes "http") s e), h.0 refl), λ e. ap some (sym e.0))
schema_lem false s p h = (λ e. ground arith, λ e. ground (arith, h.1 e.1))

-- The schema `http` and the port 80 are the only ones that the two tables know, in both
-- directions.
schema_to_port_iff :
    (s : Str) (p : ℕ)
    → ((schema_to_port s ≡ some p) ↔ ((s ≡ codes "http") × (p ≡ 80)))
      × ((port_to_schema p ≡ some s) ↔ ((s ≡ codes "http") × (p ≡ 80)))
unfolding schema_to_port port_to_schema match_schema match_port
schema_to_port_iff s p = (
  port_lem (str_eq s (codes "http")) s p (str_eq_iff s (codes "http")),
  schema_lem (p == 80) s p (==_iff p 80),
)
