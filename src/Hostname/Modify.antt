-- ===== src/Hostname/Modify.antt =====
-- `get_mut_by_iter`: the tree after a change of the value that `get_by_iter` finds.
use spacegate.Common.{
  ◌≡◌, refl, Str, str_eq_refl, if◌then◌else◌, Option, none, some, List, [], ◌∷◌, arith, ap, ◌∙◌,
}
use spacegate.Hostname.Node.{
  Node, node, Children, Else, no_else, else_node, find, put, get_by_iter, value_of, or,
}
use spacegate.Hostname.Children.{find-put}

module _ {ℓ} {T : Type ℓ} (f : T → T) where
  abbrev pub change : Option T → Option T
  change none = none
  change (some x) = some (f x)

  -- The change of a node's own value, if it has one.
  abbrev pub change_own : Node T → Option (Node T)
  change_own (node none c e) = none
  change_own (node (some x) c e) = some (node (some (f x)) c e)

  abbrev first : Option (Node T) → Option (Node T) → Option (Node T)
  first (some n) o = some n
  first none o = o

  unfoldable pub get_mut_by_iter : Node T → List Str → Option (Node T)
  get_mut_by_iter n [] = change_own n
  get_mut_by_iter (node d c e) (segment ∷ host) =
      let children_match : Option (Node T) = elim (find segment c) [
        | none ↦ none
        | some n ↦ get_mut_by_iter n host
      ] in
      elim children_match [
        | some n ↦ some (node d (put segment n c) e)
        | none ↦ elim e [
          | no_else ↦ none
          | else_node n ↦ elim (first (get_mut_by_iter n host) (change_own n)) [
            | none ↦ none
            | some m ↦ some (node d c (else_node m))
          ]
        ]
      ]

  -- Nothing is found in both, or the new tree answers with the changed value.
  abbrev pub Changed : List Str → Option T → Option (Node T) → Type ℓ
  Changed h none none = Unit
  Changed h (some x) (some n) = get_by_iter n h ≡ some (f x)
  Changed h (some x) none = none ≡ some (f x)
  Changed h none (some n) = (get_by_iter n h ≡ none) × ⊥

  -- A node's own value plays no part where it is not the answer.
  get_by_iter_own :
      (x : T) (d : Option T) (c : Children T) (e : Else T) (h : List Str)
      → get_by_iter (node (some x) c e) h ≡ none
      → get_by_iter (node d c e) h ≡ none
  unfolding get_by_iter
  get_by_iter_own x d c e [] k = cc
  get_by_iter_own x d c e (s ∷ h) k = k

  module _ (d : Option T) (c : Children T) (s : Str) (h : List Str) where
    abbrev at_child : Option (Node T) → Option T
    at_child o = elim o [ none ↦ none | some n ↦ get_by_iter n h ]

    abbrev by_name : Option T
    by_name = at_child (find s c)

    abbrev with_else : Option (Node T) → Option (Node T)
    with_else o = elim o [ none ↦ none | some m ↦ some (node d c (else_node m)) ]

    get_star :
        (k : Node T)
        → by_name ≡ none
        → get_by_iter (node d c (else_node k)) (s ∷ h) ≡ or (get_by_iter k h) (value_of k)
    unfolding get_by_iter
    get_star k name =
        ap
          (λ o. elim o as (λ x. Option T) [
            | some x ↦ some x
            | none ↦ or (get_by_iter k h) (value_of k)
          ])
          name

    get_name :
        (b : Children T) (e : Else T) (n : Node T)
        → find s b ≡ some n
        → get_by_iter (node d b e) (s ∷ h) ≡ or (get_by_iter n h) (get_by_iter (node d b e) (s ∷ h))
    unfolding get_by_iter
    get_name b e n found = ground arith

    else-Changed :
        (n : Node T) (o : Option T) (m : Option (Node T))
        → by_name ≡ none
        → get_by_iter n h ≡ o
        → Changed h o m
        → Changed (s ∷ h) (or o (value_of n)) (with_else (first m (change_own n)))
    unfolding get_by_iter
    else-Changed n (some x) (some m) name e k = get_star m name ∙ ap (λ o. or o (value_of m)) k
    else-Changed (node none a b) none none name e k = tt
    else-Changed (node (some x) a b) none none name e k =
        get_star (node (some (f x)) a b) name
        ∙ ap (λ o. or o (some (f x))) (get_by_iter_own x (some (f x)) a b h e)
    else-Changed n (some x) none name e k = cc
    else-Changed n none (some m) name e k = absurd k.1

    abbrev get_else : Else T → Option T
    get_else e = elim e [ no_else ↦ none | else_node n ↦ or (get_by_iter n h) (value_of n) ]

    abbrev mut_else : Else T → Option (Node T)
    mut_else e = elim e [
      | no_else ↦ none
      | else_node n ↦ with_else (first (get_mut_by_iter n h) (change_own n))
    ]

    by_star-Changed :
        (e : Else T)
        → by_name ≡ none
        → ((n : Node T) → Changed h (get_by_iter n h) (get_mut_by_iter n h))
        → Changed (s ∷ h) (get_else e) (mut_else e)
    by_star-Changed no_else name ih = tt
    by_star-Changed (else_node n) name ih =
        else-Changed n (get_by_iter n h) (get_mut_by_iter n h) name refl (ih n)

    after-Changed :
        (e : Else T) (o : Option T) (m : Option (Node T))
        → by_name ≡ o
        → ((n : Node T) → Changed h (get_by_iter n h) (get_mut_by_iter n h))
        → Changed h o m
        → Changed
            (s ∷ h)
            (elim o [ some x ↦ some x | none ↦ get_else e ])
            (elim m [ some n ↦ some (node d (put s n c) e) | none ↦ mut_else e ])
    unfolding get_by_iter
    after-Changed e none none name ih k = by_star-Changed e name ih
    after-Changed e (some x) (some n) name ih k =
        get_name (put s n c) e n
          (find-put s s n c ∙ ap (λ b. if b then some n else find s c) (str_eq_refl s))
        ∙ ap (λ o. or o (get_by_iter (node d (put s n c) e) (s ∷ h))) k
    after-Changed e (some x) none name ih k = cc
    after-Changed e none (some n) name ih k = absurd k.1

    abbrev get_search : Else T → Option (Node T) → Option T
    get_search e o = let a : Option T = at_child o in elim a [ some x ↦ some x | none ↦ get_else e ]

    abbrev mut_search : Else T → Option (Node T) → Option (Node T)
    mut_search e o =
        let a : Option (Node T) = elim o [ none ↦ none | some n ↦ get_mut_by_iter n h ] in
        elim a [ some n ↦ some (node d (put s n c) e) | none ↦ mut_else e ]

    search-Changed :
        (e : Else T) (o : Option (Node T))
        → find s c ≡ o
        → ((n : Node T) → Changed h (get_by_iter n h) (get_mut_by_iter n h))
        → Changed (s ∷ h) (get_search e o) (mut_search e o)
    search-Changed e none found ih = by_star-Changed e (ap at_child found) ih
    search-Changed e (some n) found ih =
        after-Changed e (get_by_iter n h) (get_mut_by_iter n h) (ap at_child found) ih (ih n)

  -- A change through `get_mut` is a change of what `get` answers, and finds nothing where `get`
  -- finds nothing.
  pub get_mut_by_iter-Changed :
      (n : Node T) (h : List Str) → Changed h (get_by_iter n h) (get_mut_by_iter n h)
  unfolding get_by_iter get_mut_by_iter
  get_mut_by_iter-Changed (node none c e) [] = tt
  get_mut_by_iter-Changed (node (some x) c e) [] = refl
  get_mut_by_iter-Changed (node d c e) (s ∷ h) =
      search-Changed d c s h e (find s c) refl (λ n. get_mut_by_iter-Changed n h)

  -- The same in one equation: what the changed tree answers, if there is one.
  abbrev pub answer_of : List Str → Option (Node T) → Option (Option T)
  answer_of h none = none
  answer_of h (some n) = some (get_by_iter n h)

  abbrev pub changed : Option T → Option (Option T)
  changed none = none
  changed (some x) = some (some (f x))

  Changed→eq :
      (h : List Str) (o : Option T) (m : Option (Node T))
      → Changed h o m
      → answer_of h m ≡ changed o
  Changed→eq h none none k = refl
  Changed→eq h (some x) (some n) k = ap some k
  Changed→eq h (some x) none k = cc
  Changed→eq h none (some n) k = absurd k.1

  pub answer_of-get_mut_by_iter :
      (n : Node T) (h : List Str) → answer_of h (get_mut_by_iter n h) ≡ changed (get_by_iter n h)
  answer_of-get_mut_by_iter n h =
      Changed→eq h (get_by_iter n h) (get_mut_by_iter n h) (get_mut_by_iter-Changed n h)
