-- ===== src/Common/Unique.antt =====
-- Association lists in which each key stands once, and those that are built up by `put`.
use mathlib.Core.Path.{◌≡◌, refl, sym, ap, ◌∙◌}
use mathlib.Core.Logic.{◌↔◌, inl, inr}
use mathlib.Core.Bool.{Bool, true, false, true≢false}
use mathlib.Core.List.{List, [], ◌∷◌, ◌++◌, append_assoc, append-nil}
use mathlib.Core.Option.{none, some}
use native.Mathlib.Omega.{arith}
use spacegate.Common.Tests.{if◌then◌else◌, Bool-cases}
use spacegate.Common.Assoc.{get, put, get-put}

module _ {ℓ} {K : Type ℓ} (eq : K → K → Bool) (eq_iff : (x y : K) → (eq x y ≡ true) ↔ (x ≡ y)) where
  eq-false : (s t : K) → eq s t ≡ false → eq t s ≡ false
  eq-false s t h = elim (Bool-cases (eq t s)) [
    | inl e ↦ absurd (true≢false (sym ((eq_iff s t).1 (sym ((eq_iff t s).0 e))) ∙ h))
    | inr e ↦ e
  ]

module _ {ℓ κ} {K : Type ℓ} {V : Type κ} (eq : K → K → Bool) where
  abbrev pub Unique : List (K × V) → Type κ
  Unique [] = Unit
  Unique ((n, v) ∷ m) = (get eq n m ≡ none) × Unique m

  -- One `put` after another.
  unfoldable pub put_all : List (K × V) → List (K × V) → List (K × V)
  unfolding put
  put_all [] m = m
  put_all ((n, v) ∷ vs) m = put_all vs (put eq n v m)

  module _ (eq_iff : (x y : K) → (eq x y ≡ true) ↔ (x ≡ y)) where
    pub put-Unique : (n : K) (v : V) (m : List (K × V)) → Unique m → Unique (put eq n v m)
    unfolding put get
    put-Unique n v [] u = (refl, tt)
    put-Unique n v ((j, w) ∷ m) (free, u) = elim (Bool-cases (eq n j)) [
      | inl e ↦ rw (put, e) (free, u)
      | inr e ↦
          rw (put, e)
            (
              get-put eq eq_iff n j v m
                  ∙ ap (λ b. if b then some v else get eq j m) (eq-false eq eq_iff n j e)
                  ∙ free,
              put-Unique n v m u,
            )
    ]

    -- A key behind others.
    pub split-Unique :
        (p : List (K × V)) (j : K) (v : V) (s : List (K × V))
        → Unique (p ++ (j, v) ∷ s)
        → (put eq j v p ≡ p ++ (j, v) ∷ []) × (get eq j (p ++ (j, v) ∷ s) ≡ some v)
    unfolding put get
    split-Unique [] j v s u = (refl, rw ((eq_iff j j).1 refl) refl)
    split-Unique ((i, w) ∷ p) j v s (free, u) =
        let (a, b) = split-Unique p j v s u in
        elim (Bool-cases (eq j i)) [
          | inl e ↦
              let bad = sym b ∙ ap (λ x. get eq x (p ++ (j, v) ∷ s)) ((eq_iff j i).0 e) ∙ free in
              ground arith
          | inr e ↦ rw e (ap (λ l. (i, w) ∷ l) a, b)
        ]

    -- The entries of such a list, put one after another, give the list.
    put_all-behind : (p s : List (K × V)) → Unique (p ++ s) → put_all s p ≡ p ++ s
    unfolding put_all
    put_all-behind p [] u = sym (append-nil p)
    put_all-behind p ((j, v) ∷ s) u =
        let first = (split-Unique p j v s u).0 in
        let whole = append_assoc p ((j, v) ∷ []) s in
        ap (put_all s) first ∙ put_all-behind (p ++ (j, v) ∷ []) s (rw whole u) ∙ whole

    pub put_all-Unique : (m : List (K × V)) → Unique m → put_all m [] ≡ m
    put_all-Unique m u = put_all-behind [] m u
