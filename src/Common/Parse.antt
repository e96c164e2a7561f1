-- ===== src/Common/Parse.antt =====
-- What the code uses of Rust's `str` and `char` to take texts apart, and of its integers' text form.
pub mod Laws
use Prim.Native.Nat.{ℕ, zero, suc, ◌+◌, ◌-◌, ◌*◌, ◌/◌, ◌%◌}
use mathlib.Core.Bool.{Bool, true, false, ◌&&◌, ◌||◌}
use mathlib.Core.List.{List, [], ◌∷◌}
use mathlib.Core.Option.{Option, none, some}
use spacegate.Common.Tests.{leb, ltb, ◌==◌, if◌then◌else◌}
use spacegate.Common.Lists.{any}
use spacegate.Common.Text.{Str, str_eq, codes, is_empty, split}

-- `char::is_whitespace`: the property White_Space of Unicode.
abbrev pub is_whitespace : ℕ → Bool
is_whitespace c =
    (leb 9 c && leb c 13)
    || c == 32
    || c == 133
    || c == 160
    || c == 5760
    || (leb 8192 c && leb c 8202)
    || c == 8232
    || c == 8233
    || c == 8239
    || c == 8287
    || c == 12288

-- `trim_start_matches` and `trim_end_matches` by a test
abbrev pub trim_start_by : (ℕ → Bool) → Str → Str
trim_start_by p [] = []
trim_start_by p (c ∷ s) = let rest = trim_start_by p s in if p c then rest else c ∷ s

abbrev pub trim_end_by : (ℕ → Bool) → Str → Str
trim_end_by p [] = []
trim_end_by p (c ∷ s) = let rest = trim_end_by p s in if is_empty rest && p c then [] else c ∷ rest

unfoldable pub trim : Str → Str
trim s = trim_end_by is_whitespace (trim_start_by is_whitespace s)

-- `trim_matches` with a set of characters
unfoldable pub trim_chars : Str → Str → Str
trim_chars cs s =
    trim_end_by (λ c. any (λ d. c == d) cs) (trim_start_by (λ c. any (λ d. c == d) cs) s)

-- What stands behind a prefix.
unfoldable pub strip_prefix : Str → Str → Option Str
strip_prefix [] s = some s
strip_prefix (d ∷ p) [] = none
strip_prefix (d ∷ p) (c ∷ s) = let rest = strip_prefix p s in if c == d then rest else none

-- What stands behind the first occurrence: `find`, and the slice from its end on.
unfoldable pub find_behind : Str → Str → Option Str
unfolding strip_prefix
find_behind needle [] = strip_prefix needle []
find_behind needle (c ∷ s) =
    let rest = find_behind needle s in
    elim (strip_prefix needle (c ∷ s)) [ some behind ↦ some behind | none ↦ rest ]

unfoldable pub contains : Str → Str → Bool
unfolding find_behind
contains needle s = elim (find_behind needle s) [ some behind ↦ true | none ↦ false ]

abbrev pub is_ascii_digit : ℕ → Bool
is_ascii_digit c = leb b'0' c && leb c b'9'

abbrev pub take_while : (ℕ → Bool) → Str → Str
take_while p [] = []
take_while p (c ∷ s) = let rest = take_while p s in if p c then c ∷ rest else []

-- The value of digits behind a prefix with the value `acc`, below 2 ^ 64.
unfoldable pub parse_digits : ℕ → Str → Option ℕ
parse_digits acc [] = some acc
parse_digits acc (c ∷ s) =
    let value = acc * 10 + (c - b'0') in
    let rest = parse_digits value s in
    if is_ascii_digit c && ltb value 18446744073709551616 then rest else none

-- `parse::<u64>()`: a sign `+` may stand in front.
unfoldable pub parse_u64 : Str → Option ℕ
unfolding parse_digits
parse_u64 [] = none
parse_u64 (c ∷ []) = parse_digits 0 (c ∷ [])
parse_u64 (c ∷ d ∷ s) = if c == b'+' then parse_digits 0 (d ∷ s) else parse_digits 0 (c ∷ d ∷ s)

-- `parse::<bool>()`
unfoldable pub parse_bool : Str → Option Bool
parse_bool s =
    if str_eq s (codes "true")
    then some true
    else if str_eq s (codes "false")
    then some false
    else none

-- The digits of a number in front of `rest`; the fuel bounds their count.
unfoldable pub decimal_from : ℕ → ℕ → Str → Str
decimal_from zero n rest = rest
decimal_from (suc fuel) n rest =
    let digits = (b'0' + n % 10) ∷ rest in
    let more = decimal_from fuel (n / 10) digits in if ltb n 10 then digits else more

-- `to_string()` of a `u64`, which has 20 digits at most.
unfoldable pub decimal : ℕ → Str
unfolding decimal_from
decimal n = decimal_from 20 n []

-- `lines()`: the pieces between line feeds, without a carriage return at their end, and without an
-- empty last piece.
abbrev pub drop_last_empty : List Str → List Str
drop_last_empty [] = []
drop_last_empty (p ∷ []) = if is_empty p then [] else p ∷ []
drop_last_empty (p ∷ q ∷ ps) = p ∷ drop_last_empty (q ∷ ps)

-- Without one last carriage return.
abbrev pub strip_cr : Str → Str
strip_cr [] = []
strip_cr (c ∷ []) = if c == 13 then [] else c ∷ []
strip_cr (c ∷ d ∷ s) = c ∷ strip_cr (d ∷ s)

abbrev pub strip_each_cr : List Str → List Str
strip_each_cr [] = []
strip_each_cr (p ∷ ps) = strip_cr p ∷ strip_each_cr ps

unfoldable pub lines : Str → List Str
unfolding split
lines s = strip_each_cr (drop_last_empty (split 10 s))
