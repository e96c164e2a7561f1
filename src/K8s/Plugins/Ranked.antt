-- ===== src/K8s/Plugins/Ranked.antt =====
-- The order in which bindings are written.
use spacegate.Common.{
  ◌≡◌, refl, ap, sym, ◌∙◌, suc, length, arith, Bool, true, false, ◌&&◌, List, [], ◌∷◌, keep, All,
  Bool-cases, inl, inr,
}
use spacegate.Common.Int.{ℤ, leb_ℤ, ◌≤ℤ◌}
use spacegate.Common.Sort.{insert_by, sort_by}
use spacegate.K8s.Model.{PluginBinding}
use spacegate.K8s.Plugins.{higher, sort_bindings}

-- Each binding's priority is at least that of all that follow.
abbrev pub HighestFirst : List PluginBinding → Type 0
HighestFirst [] = Unit
HighestFirst (b ∷ bs) = All (λ x. x.priority ≤ℤ b.priority) bs × HighestFirst bs

abbrev pub has_priority : ℤ → PluginBinding → Bool
has_priority p b = leb_ℤ p b.priority && leb_ℤ b.priority p

-- The same bindings from the highest priority on, those of one priority in their order.
abbrev pub IsRanked : List PluginBinding → List PluginBinding → Type 0
IsRanked bindings ranked =
    HighestFirst ranked × ((p : ℤ) → keep (has_priority p) ranked ≡ keep (has_priority p) bindings)

module _ (P : PluginBinding → Type 0) where
  All-insert_by :
      (b : PluginBinding) (bs : List PluginBinding) → P b → All P bs → All P (insert_by higher b bs)
  unfolding insert_by
  All-insert_by b [] h k = (h, tt)
  All-insert_by b (c ∷ cs) h k = elim (Bool-cases (higher c b)) [
    | inl first ↦ rw (first) (k.0, All-insert_by b cs h k.1)
    | inr later ↦ rw (later) (h, k)
  ]

All-trans :
    (p q : ℤ) (bs : List PluginBinding)
    → p ≤ℤ q
    → All (λ x. x.priority ≤ℤ p) bs
    → All (λ x. x.priority ≤ℤ q) bs
All-trans p q [] h k = tt
All-trans p q (b ∷ bs) h k = let first = k.0 in (omega arith, All-trans p q bs h k.1)

higher-le : (b c : PluginBinding) → higher c b ≡ true → b.priority ≤ℤ c.priority
higher-le b c h = ground arith

higher-false : (b c : PluginBinding) → higher c b ≡ false → c.priority ≤ℤ b.priority
higher-false b c h = ground arith

insert_by-HighestFirst :
    (b : PluginBinding) (bs : List PluginBinding)
    → HighestFirst bs
    → HighestFirst (insert_by higher b bs)
unfolding insert_by
insert_by-HighestFirst b [] h = (tt, tt)
insert_by-HighestFirst b (c ∷ cs) h = elim (Bool-cases (higher c b)) [
  | inl first ↦ rw (first) (
    All-insert_by (λ x. x.priority ≤ℤ c.priority) b cs (higher-le b c first) h.0,
    insert_by-HighestFirst b cs h.1,
  )
  | inr later ↦
      let le = higher-false b c later in
      rw (later) ((le, All-trans c.priority b.priority cs le h.0), h)
]

not_both :
    (p : ℤ) (b c : PluginBinding)
    → higher c b ≡ true
    → has_priority p c ≡ true
    → has_priority p b ≡ false
not_both p b c h k = ground arith

module _ (q : PluginBinding → Bool) (b : PluginBinding) where
  keep-true : (bs : List PluginBinding) → q b ≡ true → keep q (b ∷ bs) ≡ b ∷ keep q bs
  keep-true bs h = rw (keep, h) refl

  keep-false : (bs : List PluginBinding) → q b ≡ false → keep q (b ∷ bs) ≡ keep q bs
  keep-false bs h = rw (keep, h) refl

  keep-cons :
      (bs cs : List PluginBinding) → keep q bs ≡ keep q cs → keep q (b ∷ bs) ≡ keep q (b ∷ cs)
  keep-cons bs cs e = elim (Bool-cases (q b)) [
    | inl h ↦ keep-true bs h ∙ ap (λ l. b ∷ l) e ∙ sym (keep-true cs h)
    | inr h ↦ keep-false bs h ∙ e ∙ sym (keep-false cs h)
  ]

keep-insert_by :
    (p : ℤ) (b : PluginBinding) (bs : List PluginBinding)
    → keep (has_priority p) (insert_by higher b bs) ≡ keep (has_priority p) (b ∷ bs)
unfolding insert_by
keep-insert_by p b [] = refl
keep-insert_by p b (c ∷ cs) =
    let q = has_priority p in
    let behind = insert_by higher b cs in
    elim (Bool-cases (higher c b)) [
      | inr later ↦ rw (later) refl
      | inl first ↦ rw (first) (elim (Bool-cases (q c)) [
        | inl this ↦
            let other = not_both p b c first this in
            keep-true q c behind this
            ∙ ap (λ l. c ∷ l) (keep-insert_by p b cs ∙ keep-false q b cs other)
            ∙ sym (keep-false q b (c ∷ cs) other ∙ keep-true q c cs this)
        | inr other ↦
            keep-false q c behind other
            ∙ keep-insert_by p b cs
            ∙ keep-cons q b cs (c ∷ cs) (sym (keep-false q c cs other))
      ])
    ]

sort-HighestFirst : (bs : List PluginBinding) → HighestFirst (sort_by higher bs)
unfolding sort_by
sort-HighestFirst [] = tt
sort-HighestFirst (b ∷ bs) = insert_by-HighestFirst b (sort_by higher bs) (sort-HighestFirst bs)

keep-sort :
    (p : ℤ) (bs : List PluginBinding)
    → keep (has_priority p) (sort_by higher bs) ≡ keep (has_priority p) bs
unfolding sort_by
keep-sort p [] = refl
keep-sort p (b ∷ bs) =
    keep-insert_by p b (sort_by higher bs)
    ∙ keep-cons (has_priority p) b (sort_by higher bs) bs (keep-sort p bs)

pub sort_bindings-IsRanked : (bs : List PluginBinding) → IsRanked bs (sort_bindings bs)
unfolding sort_bindings
sort_bindings-IsRanked bs = (sort-HighestFirst bs, λ p. keep-sort p bs)

length-insert_by :
    (b : PluginBinding) (bs : List PluginBinding) → length (insert_by higher b bs) ≡ suc (length bs)
unfolding insert_by
length-insert_by b [] = refl
length-insert_by b (c ∷ cs) = elim (Bool-cases (higher c b)) [
  | inl first ↦ rw (first) (ap suc (length-insert_by b cs))
  | inr later ↦ rw (later) refl
]

length-sort : (bs : List PluginBinding) → length (sort_by higher bs) ≡ length bs
unfolding sort_by
length-sort [] = refl
length-sort (b ∷ bs) = length-insert_by b (sort_by higher bs) ∙ ap suc (length-sort bs)

pub length-sort_bindings : (bs : List PluginBinding) → length (sort_bindings bs) ≡ length bs
unfolding sort_bindings
length-sort_bindings bs = length-sort bs
