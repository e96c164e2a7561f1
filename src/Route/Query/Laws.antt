-- ===== src/Route/Query/Laws.antt =====
-- The items of a query string.
use spacegate.Common.{
  ℕ, zero, suc, ◌<◌, ◌≡◌, ◌≢◌, refl, ap, Str, split_once, length, map, All, none, some, List, [],
  ◌∷◌, ◌++◌, arith,
}
use spacegate.Route.Query.{Item, next, items_from, items}

abbrev pub NoAmpersand : Str → Type 0
NoAmpersand s = All (λ c. c ≢ b'&') s

split_once-behind :
    (d : ℕ) (s t : Str) → All (λ c. c ≢ d) s → split_once d (s ++ d ∷ t) ≡ some (s, t)
unfolding split_once
split_once-behind d [] t h = ground arith
split_once-behind d (c ∷ s) t h = ground (arith, split_once-behind d s t h.1)

split_once-none : (d : ℕ) (s : Str) → All (λ c. c ≢ d) s → split_once d s ≡ none
unfolding split_once
split_once-none d [] h = refl
split_once-none d (c ∷ s) h = ground (arith, split_once-none d s h.1)

-- The item that a piece in front of `&` gives.
abbrev pub item_of : Str → Item
item_of k = elim (split_once b'=' k) [ none ↦ (k, none) | some (name, value) ↦ (name, some value) ]

-- Pieces with `&` between them.
abbrev pub joined : List Str → Str → Str
joined [] last = last
joined (p ∷ ps) last = p ++ b'&' ∷ joined ps last

items_from-nil : (fuel : ℕ) → items_from (suc fuel) [] ≡ []
unfolding items_from next
items_from-nil fuel = refl

next-ampersand : (p rest : Str) → NoAmpersand p → next (p ++ b'&' ∷ rest) ≡ some (item_of p, rest)
unfolding next split_once
next-ampersand [] rest h = refl
next-ampersand (c ∷ p) rest h = ground (arith, split_once-behind b'&' (c ∷ p) rest h)

next-last : (c : ℕ) (s : Str) → NoAmpersand (c ∷ s) → next (c ∷ s) ≡ some ((c ∷ s, none), [])
unfolding next
next-last c s h = ground (arith, split_once-none b'&' (c ∷ s) h)

length-behind :
    (p rest : Str) (fuel : ℕ) → length (p ++ b'&' ∷ rest) < suc fuel → length rest < fuel
length-behind [] rest fuel h = omega arith
length-behind (c ∷ p) rest fuel h = length-behind p rest fuel (omega arith)

items_from-joined :
    (fuel c : ℕ) (ps : List Str) (last : Str)
    → length (joined ps (c ∷ last)) < fuel
    → All NoAmpersand ps
    → NoAmpersand (c ∷ last)
    → items_from fuel (joined ps (c ∷ last)) ≡ map item_of ps ++ (c ∷ last, none) ∷ []
unfolding items_from
items_from-joined zero c ps last m h k = absurd (omega arith)
items_from-joined (suc zero) c [] last m h k = absurd (omega arith)
items_from-joined (suc (suc fuel)) c [] last m h k =
    rw (next-last c last k, items_from) (ap (◌∷◌ (c ∷ last, none)) (items_from-nil fuel))
items_from-joined (suc fuel) c (p ∷ ps) last m h k =
    rw (next-ampersand p (joined ps (c ∷ last)) h.0, items_from)
      (ap (◌∷◌ (item_of p))
        (items_from-joined fuel c ps last (length-behind p (joined ps (c ∷ last)) fuel m) h.1 k))

-- Of a query whose pieces stand between `&`s every piece but the last is split at its first `=`,
-- and the last, if not empty, is a name without a value.
pub items-joined :
    (ps : List Str) (c : ℕ) (last : Str)
    → All NoAmpersand ps
    → NoAmpersand (c ∷ last)
    → items (joined ps (c ∷ last)) ≡ map item_of ps ++ (c ∷ last, none) ∷ []
unfolding items
items-joined ps c last h k =
    items_from-joined (suc (length (joined ps (c ∷ last)))) c ps last (omega arith) h k
