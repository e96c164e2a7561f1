-- ===== src/Hostname/Update.antt =====
-- `append_by_iter` stores a value at the rule that its labels spell, and changes no other rule.
use spacegate.Common.{
  ◌≡◌, refl, Str, to_ascii_lowercase, if◌then◌else◌, Option, none, some, List, [], ◌∷◌, arith,
  str_eq_sound,
}
use spacegate.Hostname.Node.{
  Node, node, Else, no_else, else_node, find, new, or_default, else_or_new, append_by_iter,
}
use spacegate.Hostname.Rules.{Label, lit, star, labels_of, labels_eq, data_at}
use spacegate.Hostname.Children.{find-put}

module _ {ℓ} {T : Type ℓ} where
  pub data_at-new : (p : List Label) → data_at (new {T = T}) p ≡ none
  unfolding data_at find
  data_at-new [] = refl
  data_at-new (lit s ∷ p) = refl
  data_at-new (star ∷ p) = refl

  -- The tree behind an entry, and behind one that is not there yet.
  data_at-or_default :
      (o : Option (Node T)) (p : List Label)
      → data_at (or_default o) p ≡ elim o [ none ↦ none | some n ↦ data_at n p ]
  data_at-or_default none p = data_at-new p
  data_at-or_default (some n) p = refl

  data_at-else_or_new :
      (e : Else T) (p : List Label)
      → data_at (else_or_new e) p ≡ elim e [ no_else ↦ none | else_node n ↦ data_at n p ]
  data_at-else_or_new no_else p = data_at-new p
  data_at-else_or_new (else_node n) p = refl

  -- Storing a value at a rule's labels gives that rule the value and leaves every other rule as it
  -- was.
  pub data_at-append :
      (n : Node T) (host : List Str) (v : T) (p : List Label)
      → data_at (append_by_iter n host v) p
        ≡ (if labels_eq (labels_of host) p then some v else data_at n p)
  unfolding append_by_iter data_at
  data_at-append (node d c e) [] v [] = refl
  data_at-append (node d c e) [] v (lit s ∷ p) = refl
  data_at-append (node d c e) [] v (star ∷ p) = refl
  data_at-append (node d c e) (s ∷ host) v [] = ground arith
  data_at-append (node d c e) (s ∷ host) v (star ∷ p) =
      ground (arith, data_at-append (else_or_new e) host v p, data_at-else_or_new e p)
  data_at-append (node d c e) (s ∷ host) v (lit t ∷ p) =
      let key = to_ascii_lowercase s in
      ground (
        arith,
        find-put t key (append_by_iter (or_default (find key c)) host v) c,
        data_at-append (or_default (find key c)) host v p,
        data_at-or_default (find key c) p,
        str_eq_sound key t,
      )
