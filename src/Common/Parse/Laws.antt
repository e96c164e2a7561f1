-- ===== src/Common/Parse/Laws.antt =====
-- Texts that are put together and taken apart again.
use spacegate.Common.Tests.{◌==◌}
use spacegate.Common.Lists.{any}
use spacegate.Common.Text.{Str, split}
use spacegate.Common.Parse.{strip_prefix}
use Prim.Native.Nat.{ℕ}
use mathlib.Core.Path.{◌≡◌, refl}
use mathlib.Core.Bool.{false}
use mathlib.Core.List.{[], ◌∷◌, ◌++◌}
use mathlib.Core.Option.{some}
use native.Mathlib.Omega.{arith}

pub strip_prefix-append : (p s : Str) → strip_prefix p (p ++ s) ≡ some s
unfolding strip_prefix
strip_prefix-append [] s = refl
strip_prefix-append (c ∷ p) s = ground (arith, strip_prefix-append p s)

-- No piece ends inside a text without the separator.
pub split-behind :
    (d : ℕ) (p s : Str) → any (λ c. c == d) p ≡ false → split d (p ++ d ∷ s) ≡ p ∷ split d s
unfolding split
split-behind d [] s h = ground arith
split-behind d (c ∷ p) s h = ground (arith, split-behind d p s)

pub split-whole : (d : ℕ) (p : Str) → any (λ c. c == d) p ≡ false → split d p ≡ p ∷ []
unfolding split
split-whole d [] h = refl
split-whole d (c ∷ p) h = ground (arith, split-whole d p)
