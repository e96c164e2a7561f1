-- ===== src/Hostname/Rules.antt =====
-- What a rule means: the labels under which a value is stored, the hosts that a rule covers, and
-- which of two rules for one host is the more specific.
use spacegate.Common.{
  ◌≡◌, Str, str_eq, to_ascii_lowercase, Bool, true, false, ◌&&◌, if◌then◌else◌, Option, none, some,
  List, [], ◌∷◌,
}
use spacegate.Hostname.Node.{Node, node, no_else, else_node, find, is_star}

-- A label of a rule: a name, or `*`.
pub data Label : Type 0 where
  lit : Str → Label
  star : Label

abbrev pub label_of : Str → Label
label_of s = if is_star s then star else lit (to_ascii_lowercase s)

abbrev pub labels_of : List Str → List Label
labels_of [] = []
labels_of (s ∷ ss) = label_of s ∷ labels_of ss

abbrev pub label_eq : Label → Label → Bool
label_eq (lit s) (lit t) = str_eq s t
label_eq star star = true
label_eq _ _ = false

abbrev pub labels_eq : List Label → List Label → Bool
labels_eq [] [] = true
labels_eq (l ∷ p) (m ∷ q) = label_eq l m && labels_eq p q
labels_eq _ _ = false

-- The value that a tree holds for a rule.
unfoldable pub data_at {ℓ} : {T : Type ℓ} → Node T → List Label → Option T
data_at (node d c e) [] = d
data_at (node d c e) (lit s ∷ p) = elim (find s c) [ none ↦ none | some n ↦ data_at n p ]
data_at (node d c e) (star ∷ p) = elim e [ no_else ↦ none | else_node n ↦ data_at n p ]

-- The hosts of a rule, last label first: a name is taken as it stands, `*` in the middle for one
-- label, `*` at the end for one or more.
abbrev pub Covers : List Label → List Str → Type 0
Covers [] [] = Unit
Covers [] (s ∷ h) = ⊥
Covers (l ∷ p) [] = ⊥
Covers (lit t ∷ p) (s ∷ h) = (t ≡ s) × Covers p h
Covers (star ∷ []) (s ∷ h) = Unit
Covers (star ∷ (m ∷ p)) (s ∷ h) = Covers (m ∷ p) h

-- Of two rules for one host the first is at least as specific: at the first place where they
-- differ it has a name where the other has `*`, or goes on where the other ends.
abbrev pub Prefer : List Label → List Label → Type 0
Prefer p [] = Unit
Prefer [] (m ∷ q) = ⊥
Prefer (lit s ∷ p) (lit t ∷ q) = Prefer p q
Prefer (lit s ∷ p) (star ∷ q) = Unit
Prefer (star ∷ p) (lit t ∷ q) = ⊥
Prefer (star ∷ p) (star ∷ q) = Prefer p q
