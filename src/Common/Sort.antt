-- ===== src/Common/Sort.antt =====
-- `sort_by` of a slice, which is stable: an insertion sort by the test that an element is less.
use mathlib.Core.Path.{◌≡◌, refl}
use mathlib.Core.Logic.{inl, inr}
use mathlib.Core.Bool.{Bool, true, false, not, ◌&&◌}
use mathlib.Core.List.{List, [], ◌∷◌, ◌++◌, map}
use native.Mathlib.Omega.{arith}
use spacegate.Common.Tests.{if◌then◌else◌, Bool-cases}
use spacegate.Common.Lists.{keep}

module _ {ℓ} {A : Type ℓ} (less : A → A → Bool) where
  -- Before the elements that are not less.
  unfoldable pub insert_by : A → List A → List A
  insert_by x [] = x ∷ []
  insert_by x (y ∷ ys) = let rest = insert_by x ys in if less y x then y ∷ rest else x ∷ y ∷ ys

  unfoldable pub sort_by : List A → List A
  unfolding insert_by
  sort_by [] = []
  sort_by (x ∷ xs) = insert_by x (sort_by xs)

module _ {ℓ κ} {A : Type ℓ} {B : Type κ} (less : A → A → Bool) (below : B → B → Bool) (f : A → B)
    (alike : (x y : A) → below (f x) (f y) ≡ less x y) where
  insert_by-map :
      (x : A) (ys : List A) → insert_by below (f x) (map f ys) ≡ map f (insert_by less x ys)
  unfolding insert_by
  insert_by-map x [] = refl
  insert_by-map x (y ∷ ys) = elim (Bool-cases (less y x)) [
    | inl e ↦ rw (alike y x, e, insert_by-map x ys) refl
    | inr e ↦ rw (alike y x, e) refl
  ]

  -- An order that a function keeps.
  pub sort_by-map : (xs : List A) → sort_by below (map f xs) ≡ map f (sort_by less xs)
  unfolding sort_by
  sort_by-map [] = refl
  sort_by-map (x ∷ xs) = rw (sort_by-map xs) (insert_by-map x (sort_by less xs))

-- An order of two classes, the second one behind the first.
module _ {ℓ} {A : Type ℓ} (p : A → Bool) where
  abbrev pub first_class : A → A → Bool
  first_class x y = p x && not (p y)

  insert-first : (x : A) (ys : List A) → p x ≡ true → insert_by first_class x ys ≡ x ∷ ys
  unfolding insert_by
  insert-first x [] h = refl
  insert-first x (y ∷ ys) h = ground arith

  insert-behind :
      (x : A) (xs ys : List A)
      → p x ≡ false
      → insert_by first_class x (keep p xs ++ ys) ≡ keep p xs ++ insert_by first_class x ys
  unfolding insert_by
  insert-behind x [] ys h = refl
  insert-behind x (y ∷ xs) ys h = ground (arith, insert-behind x xs ys h)

  insert-second :
      (x : A) (xs : List A)
      → p x ≡ false
      → insert_by first_class x (keep (λ y. not (p y)) xs) ≡ x ∷ keep (λ y. not (p y)) xs
  unfolding insert_by
  insert-second x [] h = refl
  insert-second x (y ∷ xs) h = ground (arith, insert-second x xs h)

  pub sort_by-classes :
      (xs : List A) → sort_by first_class xs ≡ keep p xs ++ keep (λ x. not (p x)) xs
  unfolding sort_by
  sort_by-classes [] = refl
  sort_by-classes (x ∷ xs) = elim (Bool-cases (p x)) [
    | inl e ↦ rw (sort_by-classes xs, keep, e) (insert-first x _ e)
    | inr e ↦ rw (sort_by-classes xs, insert-behind x xs _ e, insert-second x xs e, keep, e) refl
  ]
