-- ===== src/Common/Text.antt =====
-- Texts as lists of code points, and what the code uses of Rust's `str`.
use Prim.Native.Char.{code}
use Prim.Native.Nat.{ℕ, ◌+◌, compare, Ordering}
use Prim.Native.String.{String}
use mathlib.Core.Path.{◌≡◌, refl, ap₂}
use mathlib.Core.Logic.{◌↔◌}
use mathlib.Core.Bool.{Bool, true, false, ◌&&◌}
use mathlib.Core.List.{List, [], ◌∷◌}
use mathlib.Core.Option.{Option, none, some}
use native.Mathlib.Omega.{arith}
use spacegate.Common.Tests.{leb, ◌==◌, if◌then◌else◌}

abbrev pub Str : Type 0
Str = List ℕ

-- The code points of a literal. `String` has its own `[]` and `∷`.
abbrev pub codes : String → Str
codes String.[] = []
codes (String.◌∷◌ c s) = code c ∷ codes s

abbrev pub str_eq : Str → Str → Bool
str_eq [] [] = true
str_eq [] (d ∷ t) = false
str_eq (c ∷ s) [] = false
str_eq (c ∷ s) (d ∷ t) = c == d && str_eq s t

pub str_eq_sound : (s t : Str) → str_eq s t ≡ true → s ≡ t
str_eq_sound [] [] h = refl
str_eq_sound [] (d ∷ t) h = ground arith
str_eq_sound (c ∷ s) [] h = ground arith
str_eq_sound (c ∷ s) (d ∷ t) h = ground (arith, str_eq_sound s t)

pub str_eq_refl : (s : Str) → str_eq s s ≡ true
str_eq_refl [] = refl
str_eq_refl (c ∷ s) = ground (arith, str_eq_refl s)

pub str_eq_iff : (s t : Str) → (str_eq s t ≡ true) ↔ (s ≡ t)
str_eq_iff s t = (str_eq_sound s t, λ e. rw e (str_eq_refl t))

-- The order of `String`: by code points, which is the order of the UTF-8 bytes.
abbrev pub compare_str : Str → Str → Ordering
compare_str [] [] = Ordering.eq
compare_str [] (d ∷ t) = Ordering.lt
compare_str (c ∷ s) [] = Ordering.gt
compare_str (c ∷ s) (d ∷ t) =
    let rest = compare_str s t in
    elim (compare c d) [
      | Ordering.lt ↦ Ordering.lt
      | Ordering.eq ↦ rest
      | Ordering.gt ↦ Ordering.gt
    ]

pub compare_str-eq : (s t : Str) → compare_str s t ≡ Ordering.eq → s ≡ t
compare_str-eq [] [] h = refl
compare_str-eq [] (d ∷ t) h = ground arith
compare_str-eq (c ∷ s) [] h = ground arith
compare_str-eq (c ∷ s) (d ∷ t) h = ground (arith, compare_str-eq s t)

pub compare_str_refl : (s : Str) → compare_str s s ≡ Ordering.eq
compare_str_refl [] = refl
compare_str_refl (c ∷ s) = ground (arith, compare_str_refl s)

pub compare_str_trans :
    (r s t : Str)
    → compare_str r s ≡ Ordering.lt
    → compare_str s t ≡ Ordering.lt
    → compare_str r t ≡ Ordering.lt
compare_str_trans [] [] t h k = ground arith
compare_str_trans [] (d ∷ s) [] h k = ground arith
compare_str_trans [] (d ∷ s) (e ∷ t) h k = refl
compare_str_trans (c ∷ r) [] t h k = ground arith
compare_str_trans (c ∷ r) (d ∷ s) [] h k = ground arith
compare_str_trans (c ∷ r) (d ∷ s) (e ∷ t) h k = ground (arith, compare_str_trans r s t)

-- `to_ascii_lowercase`
abbrev pub lower_code : ℕ → ℕ
lower_code c = if leb b'A' c && leb c b'Z' then c + 32 else c

abbrev pub to_ascii_lowercase : Str → Str
to_ascii_lowercase [] = []
to_ascii_lowercase (c ∷ s) = lower_code c ∷ to_ascii_lowercase s

abbrev pub eq_ignore_ascii_case : Str → Str → Bool
eq_ignore_ascii_case s t = str_eq (to_ascii_lowercase s) (to_ascii_lowercase t)

pub lower_code_idempotent : (c : ℕ) → lower_code (lower_code c) ≡ lower_code c
lower_code_idempotent c = ground arith

pub to_ascii_lowercase_idempotent :
    (s : Str) → to_ascii_lowercase (to_ascii_lowercase s) ≡ to_ascii_lowercase s
to_ascii_lowercase_idempotent [] = refl
to_ascii_lowercase_idempotent (c ∷ s) =
    ap₂ ◌∷◌ (lower_code_idempotent c) (to_ascii_lowercase_idempotent s)

-- The first piece of `split(sep)`, and the pieces behind it.
abbrev pub split_cons : ℕ → List Str → List Str
split_cons c [] = (c ∷ []) ∷ []
split_cons c (p ∷ ps) = (c ∷ p) ∷ ps

-- `s.split(sep)`: at least one piece, empty pieces kept.
unfoldable pub split : ℕ → Str → List Str
split sep [] = [] ∷ []
split sep (c ∷ s) = let rest = split sep s in if c == sep then [] ∷ rest else split_cons c rest

-- `split_once(sep)`
unfoldable pub split_once : ℕ → Str → Option (Str × Str)
split_once sep [] = none
split_once sep (c ∷ s) =
    let rest = split_once sep s in
    if c == sep then some ([], s) else elim rest [ none ↦ none | some (a, b) ↦ some (c ∷ a, b) ]

-- `rsplit_once(sep)`
unfoldable pub rsplit_once : ℕ → Str → Option (Str × Str)
rsplit_once sep [] = none
rsplit_once sep (c ∷ s) = elim (rsplit_once sep s) [
  | some (a, b) ↦ some (c ∷ a, b)
  | none ↦ if c == sep then some ([], s) else none
]

abbrev pub starts_with_code : ℕ → Str → Bool
starts_with_code d [] = false
starts_with_code d (c ∷ s) = c == d

abbrev pub ends_with_code : ℕ → Str → Bool
ends_with_code d [] = false
ends_with_code d (c ∷ []) = c == d
ends_with_code d (c ∷ e ∷ s) = ends_with_code d (e ∷ s)

abbrev pub trim_start_matches : ℕ → Str → Str
trim_start_matches d [] = []
trim_start_matches d (c ∷ s) = let rest = trim_start_matches d s in if c == d then rest else c ∷ s

abbrev pub is_empty {ℓ} : {A : Type ℓ} → List A → Bool
is_empty [] = true
is_empty (x ∷ xs) = false

abbrev pub trim_end_matches : ℕ → Str → Str
trim_end_matches d [] = []
trim_end_matches d (c ∷ s) =
    let rest = trim_end_matches d s in if is_empty rest && c == d then [] else c ∷ rest

abbrev pub trim_matches : ℕ → Str → Str
trim_matches d s = trim_end_matches d (trim_start_matches d s)
