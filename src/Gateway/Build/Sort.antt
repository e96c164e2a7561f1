-- ===== src/Gateway/Build/Sort.antt =====
-- The order of the entries: ascending by key, which is descending by priority.
use mathlib.Core.List.{Perm}
use mathlib.Core.List.Perm
use spacegate.Common.{◌≤◌, ◌≡◌, refl, Bool-cases, inl, inr, true, false, List, [], ◌∷◌, arith, All}
use spacegate.Common.Int.{ℤ, leb_ℤ, ◌≤ℤ◌, pos_part, neg_part, neg_i16}
use spacegate.Gateway.Build.{Entry, key, insert_sorted, sort}

-- Each key is at most all that follow.
abbrev pub IsSorted : List Entry → Type 0
IsSorted [] = Unit
IsSorted (e ∷ es) = All (λ x. key e ≤ℤ key x) es × IsSorted es

leb_ℤ-le : (a b : ℤ) → leb_ℤ a b ≡ true → a ≤ℤ b
leb_ℤ-le a b h = ground arith

leb_ℤ-false : (a b : ℤ) → leb_ℤ a b ≡ false → b ≤ℤ a
leb_ℤ-false a b h = ground arith

≤ℤ_trans : (a b c : ℤ) → a ≤ℤ b → b ≤ℤ c → a ≤ℤ c
≤ℤ_trans a b c h k = omega arith

All-le_trans :
    (a b : ℤ) (es : List Entry) → a ≤ℤ b → All (λ x. b ≤ℤ key x) es → All (λ x. a ≤ℤ key x) es
All-le_trans a b [] h k = tt
All-le_trans a b (e ∷ es) h k = (≤ℤ_trans a b (key e) h k.0, All-le_trans a b es h k.1)

module _ (P : Entry → Type 0) where
  All-insert_sorted : (e : Entry) (es : List Entry) → P e → All P es → All P (insert_sorted e es)
  unfolding insert_sorted
  All-insert_sorted e [] h k = (h, tt)
  All-insert_sorted e (x ∷ xs) h k = elim (Bool-cases (leb_ℤ (key e) (key x))) [
    | inl first ↦ rw first (h, k)
    | inr later ↦ rw later (k.0, All-insert_sorted e xs h k.1)
  ]

  pub All-sort : (es : List Entry) → All P es → All P (sort es)
  unfolding sort
  All-sort [] h = tt
  All-sort (e ∷ es) h = All-insert_sorted e (sort es) h.0 (All-sort es h.1)

insert_sorted-IsSorted : (e : Entry) (es : List Entry) → IsSorted es → IsSorted (insert_sorted e es)
unfolding insert_sorted
insert_sorted-IsSorted e [] h = (tt, tt)
insert_sorted-IsSorted e (x ∷ xs) h = elim (Bool-cases (leb_ℤ (key e) (key x))) [
  | inl first ↦
      let le : key e ≤ℤ key x = leb_ℤ-le (key e) (key x) first in
      rw first ((le, All-le_trans (key e) (key x) xs le h.0), h)
  | inr later ↦ rw later (
    All-insert_sorted (λ y. key x ≤ℤ key y) e xs (leb_ℤ-false (key e) (key x) later) h.0,
    insert_sorted-IsSorted e xs h.1,
  )
]

pub sort-IsSorted : (es : List Entry) → IsSorted (sort es)
unfolding sort
sort-IsSorted [] = tt
sort-IsSorted (e ∷ es) = insert_sorted-IsSorted e (sort es) (sort-IsSorted es)

insert_sorted-perm : (e : Entry) (es : List Entry) → Perm (insert_sorted e es) (e ∷ es)
unfolding insert_sorted
insert_sorted-perm e [] = Perm.refl (e ∷ [])
insert_sorted-perm e (x ∷ xs) = elim (Bool-cases (leb_ℤ (key e) (key x))) [
  | inl first ↦ rw first (Perm.refl (e ∷ x ∷ xs))
  | inr later ↦ rw later (Perm.trans (Perm.cons x (insert_sorted-perm e xs)) (Perm.swap e x xs))
]

pub sort-perm : (es : List Entry) → Perm (sort es) es
unfolding sort
sort-perm [] = Perm.refl []
sort-perm (e ∷ es) = Perm.trans (insert_sorted-perm e (sort es)) (Perm.cons e (sort-perm es))

-- An `i16` whose negation is one.
abbrev pub Negatable : ℤ → Type 0
Negatable p = (pos_part p ≤ 32767) × (neg_part p ≤ 32767)

abbrev HasNegatable : Entry → Type 0
HasNegatable e = Negatable e.1

-- From the highest priority on: each entry's priority is at least that of all that follow.
abbrev pub ByPriority : List Entry → Type 0
ByPriority [] = Unit
ByPriority (e ∷ es) = All (λ x. x.1 ≤ℤ e.1) es × ByPriority es

-- Keys order priorities the other way round.
key-priority : (p q : ℤ) → Negatable p → Negatable q → neg_i16 p ≤ℤ neg_i16 q → q ≤ℤ p
key-priority p q i j e = ground arith

All-key-priority :
    (e : Entry) (es : List Entry)
    → Negatable e.1
    → All HasNegatable es
    → All (λ x. key e ≤ℤ key x) es
    → All (λ x. x.1 ≤ℤ e.1) es
All-key-priority e [] n ns h = tt
All-key-priority e (x ∷ xs) n ns h =
    (key-priority e.1 x.1 n ns.0 h.0, All-key-priority e xs n ns.1 h.1)

IsSorted-ByPriority : (es : List Entry) → All HasNegatable es → IsSorted es → ByPriority es
IsSorted-ByPriority [] ns h = tt
IsSorted-ByPriority (e ∷ es) ns h =
    (All-key-priority e es ns.0 ns.1 h.0, IsSorted-ByPriority es ns.1 h.1)

pub sort-ByPriority : (es : List Entry) → All (λ e. Negatable e.1) es → ByPriority (sort es)
sort-ByPriority es ns =
    IsSorted-ByPriority (sort es) (All-sort HasNegatable es ns) (sort-IsSorted es)

insert_sorted-nonempty :
    (e : Entry) (es : List Entry) → (x : Entry) × (xs : List Entry) × (insert_sorted e es ≡ x ∷ xs)
unfolding insert_sorted
insert_sorted-nonempty e [] = (e, [], refl)
insert_sorted-nonempty e (x ∷ xs) = elim (Bool-cases (leb_ℤ (key e) (key x))) [
  | inl first ↦ (e, x ∷ xs, rw first refl)
  | inr later ↦ (x, insert_sorted e xs, rw later refl)
]

pub sort-nonempty :
    (e : Entry) (es : List Entry) → (x : Entry) × (xs : List Entry) × (sort (e ∷ es) ≡ x ∷ xs)
unfolding sort
sort-nonempty e es = insert_sorted-nonempty e (sort es)
