-- ===== src/Hostname/Exact.antt =====
-- `set` and `get` by host names: the refinement of a list of rules, and an exact rule.
use spacegate.Common.{
  ℕ, ◌≡◌, refl, sym, ap, ap₂, ◌∙◌, Str, str_eq_refl, lower_code, split, split_cons,
  to_ascii_lowercase, if◌then◌else◌, Option, none, some, List, [], ◌∷◌, map, reverse, arith, Bool,
  true, false, All,
}
use mathlib.Core.List.{reverse_aux}
use spacegate.Hostname.Node.{Node, new, or, is_star, labels, append_by_iter, get_by_iter, set, get}
use spacegate.Hostname.Rules.{Label, lit, star, labels_of, labels_eq, data_at, Covers, Prefer}
use spacegate.Hostname.Lookup.{Answers, get_by_iter-Answers}
use spacegate.Hostname.Update.{data_at-append, data_at-new}

module _ {ℓ} {T : Type ℓ} where
  -- Rules set one after the other.
  unfoldable pub set_all : Node T → List (Str × T) → Node T
  set_all n [] = n
  set_all n ((rule, v) ∷ rules) = set_all (set n rule v) rules

  -- The value that a list of rules gives to a rule's labels: that of the last such rule.
  abbrev pub rule_value : List (Str × T) → List Label → Option T
  rule_value [] p = none
  rule_value ((rule, v) ∷ rules) p =
      or (rule_value rules p) (if labels_eq (labels_of (labels rule)) p then some v else none)

  or_assoc : (a b c : Option T) → or (or a b) c ≡ or a (or b c)
  or_assoc none b c = refl
  or_assoc (some x) b c = refl

  or-if :
      (b : Bool) (v : T) (o : Option T)
      → (if b then some v else o) ≡ or (if b then some v else none) o
  or-if true v o = refl
  or-if false v o = refl

  data_at-set_all :
      (n : Node T) (rules : List (Str × T)) (p : List Label)
      → data_at (set_all n rules) p ≡ or (rule_value rules p) (data_at n p)
  unfolding set_all set
  data_at-set_all n [] p = refl
  data_at-set_all n ((rule, v) ∷ rules) p =
      let same = labels_eq (labels_of (labels rule)) p in
      data_at-set_all (set n rule v) rules p
      ∙ ap (or (rule_value rules p))
          (data_at-append n (labels rule) v p ∙ or-if same v (data_at n p))
      ∙ sym (or_assoc (rule_value rules p) (if same then some v else none) (data_at n p))

  or-none : (o : Option T) → or o none ≡ o
  or-none none = refl
  or-none (some x) = refl

  data_at-rules :
      (rules : List (Str × T)) (p : List Label) → data_at (set_all new rules) p ≡ rule_value rules p
  data_at-rules rules p =
      data_at-set_all new rules p
      ∙ ap (or (rule_value rules p)) (data_at-new p)
      ∙ or-none (rule_value rules p)

  -- What an answer means by the list of rules alone.
  abbrev pub Chosen : List (Str × T) → List Str → Option T → Type ℓ
  Chosen rules h none = (q : List Label) → Covers q h → rule_value rules q ≡ none
  Chosen rules h (some x) =
      (p : List Label) × Covers p h
      × (rule_value rules p ≡ some x)
      × ((q : List Label) (y : T) → Covers q h → rule_value rules q ≡ some y → Prefer p q)

  Answers→Chosen :
      (rules : List (Str × T)) (h : List Str) (o : Option T)
      → Answers (set_all new rules) h o
      → Chosen rules h o
  Answers→Chosen rules h none fails = λ q k. sym (data_at-rules rules q) ∙ fails q k
  Answers→Chosen rules h (some x) (p, cover, found, best) = (
    p,
    cover,
    sym (data_at-rules rules p) ∙ found,
    λ q y k e. best q y k (data_at-rules rules q ∙ e),
  )

  -- A tree in which a list of rules was set answers a host with the value of the most specific
  -- rule of the list that covers it, the last one where a rule stands twice, and answers nothing
  -- only where no rule covers the host.
  pub get-set_all :
      (rules : List (Str × T)) (host : Str)
      → Chosen rules (labels (to_ascii_lowercase host)) (get (set_all new rules) host)
  unfolding get
  get-set_all rules host =
      let h = labels (to_ascii_lowercase host) in
      Answers→Chosen rules h (get_by_iter (set_all new rules) h)
        (get_by_iter-Answers (set_all new rules) h)

-- Lower case and the split at the dots.

split_cons-lower :
    (c : ℕ) (ps : List Str)
    → map to_ascii_lowercase (split_cons c ps)
      ≡ split_cons (lower_code c) (map to_ascii_lowercase ps)
split_cons-lower c [] = refl
split_cons-lower c (p ∷ ps) = refl

split-lower : (s : Str) → split b'.' (to_ascii_lowercase s) ≡ map to_ascii_lowercase (split b'.' s)
unfolding split
split-lower [] = refl
split-lower (c ∷ s) = ground (arith, split-lower s, split_cons-lower c (split b'.' s))

-- The labels of a name without `*`.
abbrev lits : List Str → List Label
lits [] = []
lits (s ∷ h) = lit s ∷ lits h

Covers-lits : (h : List Str) → Covers (lits h) h
Covers-lits [] = tt
Covers-lits (s ∷ h) = (refl, Covers-lits h)

Prefer-lits : (p : List Label) (h : List Str) → Covers p h → Prefer p (lits h) → p ≡ lits h
Prefer-lits [] [] c k = refl
Prefer-lits [] (s ∷ h) c k = elim c [ ]
Prefer-lits (l ∷ p) [] c k = elim c [ ]
Prefer-lits (lit t ∷ p) (s ∷ h) c k = ap₂ ◌∷◌ (ap lit c.0) (Prefer-lits p h c.1 k)
Prefer-lits (star ∷ p) (s ∷ h) c k = elim k [ ]

labels_eq_refl : (p : List Label) → labels_eq p p ≡ true
labels_eq_refl [] = refl
labels_eq_refl (lit s ∷ p) = ground (arith, str_eq_refl s, labels_eq_refl p)
labels_eq_refl (star ∷ p) = labels_eq_refl p

abbrev pub NoStar : List Str → Type 0
NoStar ls = All (λ s. is_star s ≡ false) ls

labels_of-lits : (ls : List Str) → NoStar ls → labels_of ls ≡ lits (map to_ascii_lowercase ls)
labels_of-lits [] h = refl
labels_of-lits (s ∷ ls) h = ground (arith, labels_of-lits ls h.1)

map-reverse_aux :
    (f : Str → Str) (xs ys : List Str)
    → map f (reverse_aux xs ys) ≡ reverse_aux (map f xs) (map f ys)
map-reverse_aux f [] ys = refl
map-reverse_aux f (x ∷ xs) ys = map-reverse_aux f xs (x ∷ ys)

labels-lower : (s : Str) → labels (to_ascii_lowercase s) ≡ map to_ascii_lowercase (labels s)
labels-lower s =
    ap reverse (split-lower s) ∙ sym (map-reverse_aux to_ascii_lowercase (split b'.' s) [])

module _ {ℓ} {T : Type ℓ} where
  -- The answer for a host at whose own rule a value stands.
  exact :
      (n : Node T) (h : List Str) (v : T) (o : Option T)
      → data_at n (lits h) ≡ some v
      → Answers n h o
      → o ≡ some v
  exact n h v none found fails = sym (fails (lits h) (Covers-lits h)) ∙ found
  exact n h v (some x) found (p, cover, here, best) =
      let same : p ≡ lits h = Prefer-lits p h cover (best (lits h) v (Covers-lits h) found) in
      sym here ∙ ap (data_at n) same ∙ found

  -- A rule without `*` that was just set answers for its own name in any case of letters, whatever
  -- wildcards the tree holds.
  get-set_exact :
      (n : Node T) (rule host : Str) (v : T)
      → NoStar (labels rule)
      → to_ascii_lowercase host ≡ to_ascii_lowercase rule
      → get (set n rule v) host ≡ some v
  unfolding get set
  get-set_exact n rule host v plain same =
      let h = labels (to_ascii_lowercase host) in
      let m = append_by_iter n (labels rule) v in
      let spelled : labels_of (labels rule) ≡ lits h =
        labels_of-lits (labels rule) plain
        ∙ ap lits (sym (labels-lower rule) ∙ ap labels (sym same)) in
      let found : data_at m (lits h) ≡ some v =
        data_at-append n (labels rule) v (lits h)
        ∙ ap (λ p. if labels_eq p (lits h) then some v else data_at n (lits h)) spelled
        ∙ ap (λ b. if b then some v else data_at n (lits h)) (labels_eq_refl (lits h)) in
      exact m h v (get_by_iter m h) found (get_by_iter-Answers m h)
