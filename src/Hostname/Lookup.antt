-- ===== src/Hostname/Lookup.antt =====
-- `get_by_iter` answers with the most specific rule that covers the host.
use spacegate.Common.{◌≡◌, refl, Str, Option, none, some, List, [], ◌∷◌}
use spacegate.Hostname.Node.{
  Node, node, Children, Else, no_else, else_node, find, get_by_iter, value_of, or,
}
use spacegate.Hostname.Rules.{Label, lit, star, data_at, Covers, Prefer}

Covers-star : (p : List Label) (s : Str) (h : List Str) → Covers p h → Covers (star ∷ p) (s ∷ h)
Covers-star [] s h c = tt
Covers-star (m ∷ p) s h c = c

module _ {ℓ} {T : Type ℓ} where
  -- What the answer for a host means.
  abbrev pub Answers : Node T → List Str → Option T → Type ℓ
  Answers n h none = (q : List Label) → Covers q h → data_at n q ≡ none
  Answers n h (some x) =
      (p : List Label) × Covers p h
      × (data_at n p ≡ some x)
      × ((q : List Label) (y : T) → Covers q h → data_at n q ≡ some y → Prefer p q)

  abbrev child_at : Option (Node T) → List Label → Option T
  child_at o q = elim o [ none ↦ none | some n ↦ data_at n q ]

  data_at_lit :
      (d : Option T) (c : Children T) (e : Else T) (s : Str) (q : List Label)
      → data_at (node d c e) (lit s ∷ q) ≡ child_at (find s c) q
  unfolding data_at
  data_at_lit d c e s q = refl

  end-Answers : (d : Option T) (c : Children T) (e : Else T) → Answers (node d c e) [] d
  unfolding data_at
  end-Answers (some x) c e = ([], tt, refl, most)
    where
      most :
          (q : List Label) (y : T)
          → Covers q []
          → data_at (node (some x) c e) q ≡ some y
          → Prefer [] q
      most [] y k f = tt
      most (l ∷ q) y k f = elim k [ ]
  end-Answers none c e = fails
    where
      fails : (q : List Label) → Covers q [] → data_at (node none c e) q ≡ none
      fails [] k = refl
      fails (l ∷ q) k = elim k [ ]

  module _ (d : Option T) (c : Children T) (s : Str) (h : List Str) where
    -- No rule that goes on by the name answers.
    abbrev NoName : Else T → Type ℓ
    NoName e = (q : List Label) → Covers q h → data_at (node d c e) (lit s ∷ q) ≡ none

    -- The part of the lookup that follows `*`.
    abbrev by_star : Else T → Option T
    by_star e = elim e [ no_else ↦ none | else_node n ↦ or (get_by_iter n h) (value_of n) ]

    none-Answers :
        (e : Else T)
        → NoName e
        → ((q : List Label) → Covers (star ∷ q) (s ∷ h) → data_at (node d c e) (star ∷ q) ≡ none)
        → Answers (node d c e) (s ∷ h) none
    none-Answers e name stars [] k = elim k [ ]
    none-Answers e name stars (lit t ∷ q) k = rw (k.0) (name q k.1)
    none-Answers e name stars (star ∷ q) k = stars q k

    star-Answers :
        (e : Else T) (x : T) (p : List Label)
        → NoName e
        → Covers (star ∷ p) (s ∷ h)
        → data_at (node d c e) (star ∷ p) ≡ some x
        → ((q : List Label) (y : T)
            → Covers (star ∷ q) (s ∷ h)
            → data_at (node d c e) (star ∷ q) ≡ some y
            → Prefer p q)
        → Answers (node d c e) (s ∷ h) (some x)
    star-Answers e x p name cover found most = (star ∷ p, cover, found, best)
      where
        best :
            (q : List Label) (y : T)
            → Covers q (s ∷ h)
            → data_at (node d c e) q ≡ some y
            → Prefer (star ∷ p) q
        best [] y k f = tt
        best (lit t ∷ q) y k f =
            let g : data_at (node d c e) (lit s ∷ q) ≡ some y = rw (k.0) at f in cc (name q k.1)
        best (star ∷ q) y k f = most q y k f

    rest-Answers :
        (n : Node T) (o : Option T)
        → NoName (else_node n)
        → ((q : List Label) → Covers q h → data_at n q ≡ none)
        → value_of n ≡ o
        → Answers (node d c (else_node n)) (s ∷ h) o
    unfolding data_at
    rest-Answers (node v k e) (some x) name fails found =
        star-Answers (else_node (node v k e)) x [] name tt found most
      where
        most :
            (q : List Label) (y : T)
            → Covers (star ∷ q) (s ∷ h)
            → data_at (node v k e) q ≡ some y
            → Prefer [] q
        most [] y cover f = tt
        most (m ∷ q) y cover f = cc (fails (m ∷ q) cover)
    rest-Answers (node v k e) none name fails missing =
        none-Answers (else_node (node v k e)) name stars
      where
        stars : (q : List Label) → Covers (star ∷ q) (s ∷ h) → data_at (node v k e) q ≡ none
        stars [] cover = missing
        stars (m ∷ q) cover = fails (m ∷ q) cover

    else-Answers :
        (n : Node T) (o : Option T)
        → NoName (else_node n)
        → Answers n h o
        → Answers (node d c (else_node n)) (s ∷ h) (or o (value_of n))
    unfolding data_at
    else-Answers n none name fails = rest-Answers n (value_of n) name fails refl
    else-Answers n (some x) name (p, cover, found, best) =
        star-Answers (else_node n) x p name (Covers-star p s h cover) found most
      where
        most :
            (q : List Label) (y : T) → Covers (star ∷ q) (s ∷ h) → data_at n q ≡ some y → Prefer p q
        most [] y k f = tt
        most (m ∷ q) y k f = best (m ∷ q) y k f

    by_star-Answers :
        (e : Else T)
        → ((n : Node T) → Answers n h (get_by_iter n h))
        → NoName e
        → Answers (node d c e) (s ∷ h) (by_star e)
    unfolding data_at
    by_star-Answers no_else ih name = none-Answers no_else name (λ q k. refl)
    by_star-Answers (else_node n) ih name = else-Answers n (get_by_iter n h) name (ih n)

    -- The name's own child answers, whatever follows `*`.
    name-Answers :
        (e : Else T) (n : Node T) (x : T)
        → find s c ≡ some n
        → Answers n h (some x)
        → Answers (node d c e) (s ∷ h) (some x)
    unfolding data_at
    name-Answers e n x found (p, cover, here, best) =
        (lit s ∷ p, (refl, cover), rw (data_at_lit d c e s p, found) here, most)
      where
        most :
            (q : List Label) (y : T)
            → Covers q (s ∷ h)
            → data_at (node d c e) q ≡ some y
            → Prefer (lit s ∷ p) q
        most [] y k f = tt
        most (lit t ∷ q) y k f = best q y k.1 (rw (k.0, data_at_lit d c e s q, found) at f)
        most (star ∷ q) y k f = tt

    -- The lookup behind the search for the name.
    abbrev after_name : Option T → Else T → Option T
    after_name a e = elim a [ some x ↦ some x | none ↦ by_star e ]

    present-Answers :
        (e : Else T) (n : Node T) (a : Option T)
        → find s c ≡ some n
        → ((m : Node T) → Answers m h (get_by_iter m h))
        → Answers n h a
        → Answers (node d c e) (s ∷ h) (after_name a e)
    unfolding data_at
    present-Answers e n none found ih fails =
        by_star-Answers e ih (λ q k. rw (data_at_lit d c e s q, found) (fails q k))
    present-Answers e n (some x) found ih here = name-Answers e n x found here

    search-Answers :
        (e : Else T) (o : Option (Node T))
        → find s c ≡ o
        → ((m : Node T) → Answers m h (get_by_iter m h))
        → Answers
            (node d c e)
            (s ∷ h)
            (after_name (elim o [ none ↦ none | some n ↦ get_by_iter n h ]) e)
    unfolding data_at
    search-Answers e none absent ih =
        by_star-Answers e ih (λ q k. rw (data_at_lit d c e s q, absent) refl)
    search-Answers e (some n) found ih = present-Answers e n (get_by_iter n h) found ih (ih n)

  -- The answer for a host is the value of the most specific rule that covers it; with no answer
  -- there is no value at any rule that covers it.
  pub get_by_iter-Answers : (n : Node T) (h : List Str) → Answers n h (get_by_iter n h)
  unfolding get_by_iter
  get_by_iter-Answers (node none c e) [] = end-Answers none c e
  get_by_iter-Answers (node (some x) c e) [] = end-Answers (some x) c e
  get_by_iter-Answers (node d c e) (s ∷ h) =
      search-Answers d c s h e (find s c) refl (λ n. get_by_iter-Answers n h)
