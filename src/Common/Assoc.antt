-- ===== src/Common/Assoc.antt =====
-- A `HashMap` with a Boolean equality of its keys, as an association list.
use mathlib.Core.Path.{◌≡◌, refl, sym}
use mathlib.Core.Logic.{◌↔◌, inl, inr}
use mathlib.Core.Bool.{Bool, true, false}
use mathlib.Core.List.{List, [], ◌∷◌}
use mathlib.Core.Option.{Option, none, some}
use native.Mathlib.Omega.{arith}
use spacegate.Common.Tests.{if◌then◌else◌, Bool-cases}

module _ {ℓ} {K : Type ℓ} (eq : K → K → Bool) (eq_iff : (x y : K) → (eq x y ≡ true) ↔ (x ≡ y)) where
  eq_refl : (x : K) → eq x x ≡ true
  eq_refl x = (eq_iff x x).1 refl

  eq_congruent : (x y z : K) → eq x y ≡ true → eq z y ≡ eq z x
  eq_congruent x y z e = rw ((eq_iff x y).0 e) refl

  eq_false : (x y z : K) → eq x y ≡ false → eq z x ≡ true → eq z y ≡ false
  eq_false x y z e h = rw ((eq_iff z x).0 h) e

if-same {ℓ} : {A : Type ℓ} (b : Bool) (x : A) → x ≡ (if b then x else x)
if-same true x = refl
if-same false x = refl

if-twice {ℓ} :
    {A : Type ℓ} (b : Bool) (x y z : A)
    → (if b then x else (if b then y else z)) ≡ (if b then x else z)
if-twice true x y z = refl
if-twice false x y z = refl

-- Two tests of which at most one holds may change places.
if-swap {ℓ} :
    {A : Type ℓ} (a b : Bool) (x y z : A)
    → (b ≡ true → a ≡ false)
    → (if a then x else (if b then y else z)) ≡ (if b then y else (if a then x else z))
if-swap true true x y z h = ground arith
if-swap true false x y z h = refl
if-swap false b x y z h = refl

module _ {ℓ κ} {K : Type ℓ} {V : Type κ} (eq : K → K → Bool) where
  unfoldable pub get : K → List (K × V) → Option V
  get k [] = none
  get k ((j, v) ∷ m) = if eq k j then some v else get k m

  unfoldable pub put : K → V → List (K × V) → List (K × V)
  put k v [] = (k, v) ∷ []
  put k v ((j, w) ∷ m) = let rest = put k v m in if eq k j then (j, v) ∷ m else (j, w) ∷ rest

  unfoldable pub remove : K → List (K × V) → List (K × V)
  remove k [] = []
  remove k ((j, w) ∷ m) = let rest = remove k m in if eq k j then rest else (j, w) ∷ rest

  module _ (eq_iff : (x y : K) → (eq x y ≡ true) ↔ (x ≡ y)) where
    pub get-put :
        (k j : K) (v : V) (m : List (K × V))
        → get j (put k v m) ≡ (if eq j k then some v else get j m)
    unfolding get put
    get-put k j v [] = refl
    get-put k j v ((i, w) ∷ m) = elim (Bool-cases (eq k i)) [
      | inl same ↦
          rw (same, eq_congruent eq eq_iff k i j same)
            (sym (if-twice (eq j k) (some v) (some w) (get j m)))
      | inr other ↦
          rw (other, get, get-put k j v m)
            (if-swap (eq j i) (eq j k) (some w) (some v) (get j m) (eq_false eq eq_iff k i j other))
    ]

    pub get-remove :
        (k j : K) (m : List (K × V)) → get j (remove k m) ≡ (if eq j k then none else get j m)
    unfolding get remove
    get-remove k j [] = if-same (eq j k) none
    get-remove k j ((i, w) ∷ m) = elim (Bool-cases (eq k i)) [
      | inl same ↦
          rw (same, get-remove k j m, eq_congruent eq eq_iff k i j same)
            (sym (if-twice (eq j k) none (some w) (get j m)))
      | inr other ↦
          rw (other, get, get-remove k j m)
            (if-swap (eq j i) (eq j k) (some w) none (get j m) (eq_false eq eq_iff k i j other))
    ]
