-- ===== src/Route/Query/Ends.antt =====
-- The iterator over a query ends: each item takes a code point at least.
use spacegate.Common.{
  ℕ, zero, suc, ◌<◌, ◌≡◌, refl, ap, arith, Str, split_once, length, some, [], ◌∷◌, Option-cases,
  inl, inr,
}
use spacegate.Route.Query.{Item, next, items_from, items}

split_once-shorter : (d : ℕ) (s a b : Str) → split_once d s ≡ some (a, b) → length b < length s
unfolding split_once
split_once-shorter d [] a b h = ground arith
split_once-shorter d (c ∷ s) a b h = elim (Option-cases (split_once d s)) [
  | inl e ↦ ground arith
  | inr ((k, r), e) ↦ ground (arith, split_once-shorter d s k r)
]

next-shorter : (s rest : Str) (item : Item) → next s ≡ some (item, rest) → length rest < length s
unfolding next
next-shorter [] rest item h = ground arith
next-shorter (c ∷ s) rest item h = elim (Option-cases (split_once b'&' (c ∷ s))) [
  | inl e ↦ ground arith
  | inr ((k, r), e) ↦ ground (arith, split_once-shorter b'&' (c ∷ s) k r)
]

items_from-same :
    (fuel more : ℕ) (s : Str)
    → length s < fuel
    → length s < more
    → items_from fuel s ≡ items_from more s
unfolding items_from
items_from-same zero more s h k = absurd (omega arith)
items_from-same (suc fuel) zero s h k = absurd (omega arith)
items_from-same (suc fuel) (suc more) s h k = elim (Option-cases (next s)) [
  | inl e ↦ rw (items_from, e) refl
  | inr ((item, rest), e) ↦
      let shorter = next-shorter s rest item e in
      rw (items_from, e)
        (ap (◌∷◌ item) (items_from-same fuel more rest (omega arith) (omega arith)))
]

-- The iterator over a query ends: with any fuel above the query's length it gives the same items
-- as with the fuel of the model, the length and one more.
pub items_from-enough : (fuel : ℕ) (s : Str) → length s < fuel → items_from fuel s ≡ items s
unfolding items
items_from-enough fuel s h = items_from-same fuel (suc (length s)) s h (omega arith)
