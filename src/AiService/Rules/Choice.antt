-- ===== src/AiService/Rules/Choice.antt =====
-- The most specific rule for a request, out of rules by their dimensions.
use mathlib.Core.Path.{subst}
use mathlib.Core.Option.{none-ne-some}
use spacegate.Common.{
  ℕ, ◌+◌, ◌≤◌, ◌&&◌, ◌≡◌, ◌↔◌, ◌⊎◌, refl, sym, ap, ◌∙◌, arith, Str, str_eq, str_eq_iff, Bool, true,
  false, Option, none, some, List, [], ◌∷◌, inl, inr, Option-cases,
}
use spacegate.Common.Assoc.{get}
use spacegate.AiService.Bucket.{TenantRateLimit}
use spacegate.AiService.Rules.{Dimensions}
use spacegate.AiService.Rules.Keys.{candidates}

abbrev option_eq : Option Str → Option Str → Bool
option_eq none none = true
option_eq none (some t) = false
option_eq (some s) none = false
option_eq (some s) (some t) = str_eq s t

option_eq_iff : (o p : Option Str) → (option_eq o p ≡ true) ↔ (o ≡ p)
option_eq_iff none none = (λ h. refl, λ h. refl)
option_eq_iff none (some t) = (λ h. cc, λ h. cc)
option_eq_iff (some s) none = (λ h. cc, λ h. cc)
option_eq_iff (some s) (some t) = ground (arith, str_eq_iff s t)

abbrev pub dimensions_eq : Dimensions → Dimensions → Bool
dimensions_eq d e =
    str_eq d.tenant e.tenant
    && option_eq d.model e.model
    && option_eq d.path e.path
    && option_eq d.policy e.policy

pub dimensions_eq_iff : (d e : Dimensions) → (dimensions_eq d e ≡ true) ↔ (d ≡ e)
dimensions_eq_iff d e = ground (
  arith,
  str_eq_iff d.tenant e.tenant,
  option_eq_iff d.model e.model,
  option_eq_iff d.path e.path,
  option_eq_iff d.policy e.policy,
)

-- The rules in force.
abbrev pub Rules : Type 0
Rules = List (Dimensions × TenantRateLimit)

-- The first of the dimensions with a rule.
unfoldable pub first_rule : Rules → List Dimensions → Option (Dimensions × TenantRateLimit)
unfolding get
first_rule rules [] = none
first_rule rules (d ∷ ds) =
    let rest = first_rule rules ds in
    elim (get dimensions_eq d rules) [ none ↦ rest | some limit ↦ some (d, limit) ]

abbrev Agrees : Option Str → Str → Type 0
Agrees none v = Unit
Agrees (some w) v = w ≡ v

-- A rule for the tenant, with no dimension that differs from the request's.
abbrev pub Matches : (tenant model path policy : Str) → Dimensions → Type 0
Matches t m p q d = (d.tenant ≡ t) × Agrees d.model m × Agrees d.path p × Agrees d.policy q

abbrev given : Option Str → ℕ
given none = 0
given (some v) = 1

-- How many dimensions a rule names besides the tenant.
abbrev pub specificity : Dimensions → ℕ
specificity d = given d.model + given d.path + given d.policy

abbrev In : Dimensions → List Dimensions → Type 0
In e [] = ⊥
In e (d ∷ ds) = (e ≡ d) ⊎ In e ds

abbrev NoneAbove : ℕ → List Dimensions → Type 0
NoneAbove n [] = Unit
NoneAbove n (d ∷ ds) = (specificity d ≤ n) × NoneAbove n ds

abbrev Falling : List Dimensions → Type 0
Falling [] = Unit
Falling (d ∷ ds) = NoneAbove (specificity d) ds × Falling ds

none_above :
    (n : ℕ) (ds : List Dimensions) (e : Dimensions) → NoneAbove n ds → In e ds → specificity e ≤ n
none_above n [] e h i = absurd i
none_above n (d ∷ ds) e (h, k) (inl same) = rw same h
none_above n (d ∷ ds) e (h, k) (inr i) = none_above n ds e k i

alike :
    (e d : Dimensions)
    → e.tenant ≡ d.tenant
    → e.model ≡ d.model
    → e.path ≡ d.path
    → e.policy ≡ d.policy
    → e ≡ d
alike e d a b c f i = record { tenant = a i; model = b i; path = c i; policy = f i }

Agrees-cases : (o : Option Str) (v : Str) → Agrees o v → (o ≡ some v) ⊎ (o ≡ none)
Agrees-cases none v h = inr refl
Agrees-cases (some w) v h = inl (ap some h)

In-candidates : (t m p q : Str) (e : Dimensions) → Matches t m p q e → In e (candidates t m p q)
unfolding candidates
In-candidates t m p q e (ht, hm, hp, hq) = elim (Agrees-cases e.model m hm) [
  | inl am ↦ elim (Agrees-cases e.path p hp) [
    | inl at ↦ elim (Agrees-cases e.policy q hq) [
      | inl aq ↦ inl (alike e _ ht am at aq)
      | inr aq ↦ inr (inl (alike e _ ht am at aq))
    ]
    | inr at ↦ elim (Agrees-cases e.policy q hq) [
      | inl aq ↦ inr (inr (inl (alike e _ ht am at aq)))
      | inr aq ↦ inr (inr (inr (inr (inl (alike e _ ht am at aq)))))
    ]
  ]
  | inr am ↦ elim (Agrees-cases e.path p hp) [
    | inl at ↦ elim (Agrees-cases e.policy q hq) [
      | inl aq ↦ inr (inr (inr (inl (alike e _ ht am at aq))))
      | inr aq ↦ inr (inr (inr (inr (inr (inl (alike e _ ht am at aq))))))
    ]
    | inr at ↦ elim (Agrees-cases e.policy q hq) [
      | inl aq ↦ inr (inr (inr (inr (inr (inr (inl (alike e _ ht am at aq)))))))
      | inr aq ↦ inr (inr (inr (inr (inr (inr (inr (inl (alike e _ ht am at aq))))))))
    ]
  ]
]

Matches-candidates :
    (t m p q : Str) (e : Dimensions) → In e (candidates t m p q) → Matches t m p q e
unfolding candidates
Matches-candidates t m p q e (inl h) = subst (Matches t m p q) (sym h) (refl, refl, refl, refl)
Matches-candidates t m p q e (inr (inl h)) = subst (Matches t m p q) (sym h) (refl, refl, refl, tt)
Matches-candidates t m p q e (inr (inr (inl h))) =
    subst (Matches t m p q) (sym h) (refl, refl, tt, refl)
Matches-candidates t m p q e (inr (inr (inr (inl h)))) =
    subst (Matches t m p q) (sym h) (refl, tt, refl, refl)
Matches-candidates t m p q e (inr (inr (inr (inr (inl h))))) =
    subst (Matches t m p q) (sym h) (refl, refl, tt, tt)
Matches-candidates t m p q e (inr (inr (inr (inr (inr (inl h)))))) =
    subst (Matches t m p q) (sym h) (refl, tt, refl, tt)
Matches-candidates t m p q e (inr (inr (inr (inr (inr (inr (inl h))))))) =
    subst (Matches t m p q) (sym h) (refl, tt, tt, refl)
Matches-candidates t m p q e (inr (inr (inr (inr (inr (inr (inr (inl h)))))))) =
    subst (Matches t m p q) (sym h) (refl, tt, tt, tt)
Matches-candidates t m p q e (inr (inr (inr (inr (inr (inr (inr (inr h)))))))) = absurd h

candidates-Falling : (t m p q : Str) → Falling (candidates t m p q)
unfolding candidates
candidates-Falling t m p q = omega arith

-- What a request is answered with: the limit of a rule for it, and no other rule for it is more
-- specific; or the global limit, where there is no rule for it.
abbrev pub MostSpecific :
    Rules → TenantRateLimit → (tenant model path policy : Str) → TenantRateLimit → Type 0
MostSpecific rules global t m p q limit =
    ((d : Dimensions) × Matches t m p q d
      × (get dimensions_eq d rules ≡ some limit)
      × ((e : Dimensions) (l : TenantRateLimit)
          → Matches t m p q e
          → get dimensions_eq e rules ≡ some l
          → specificity e ≤ specificity d))
    ⊎ ((limit ≡ global) × ((e : Dimensions) → Matches t m p q e → get dimensions_eq e rules ≡ none))

abbrev pub limit_or : TenantRateLimit → Option (Dimensions × TenantRateLimit) → TenantRateLimit
limit_or global none = global
limit_or global (some (d, limit)) = limit

-- The same over any dimensions from the most specific to the least.
FirstIn : Rules → TenantRateLimit → List Dimensions → TenantRateLimit → Type 0
FirstIn rules global ds limit =
    ((d : Dimensions) × In d ds
      × (get dimensions_eq d rules ≡ some limit)
      × ((e : Dimensions) (l : TenantRateLimit)
          → In e ds
          → get dimensions_eq e rules ≡ some l
          → specificity e ≤ specificity d))
    ⊎ ((limit ≡ global) × ((e : Dimensions) → In e ds → get dimensions_eq e rules ≡ none))

first_rule-FirstIn :
    (rules : Rules) (global : TenantRateLimit) (ds : List Dimensions)
    → Falling ds
    → FirstIn rules global ds (limit_or global (first_rule rules ds))
unfolding FirstIn first_rule
first_rule-FirstIn rules global [] f = inr (refl, λ e i. absurd i)
first_rule-FirstIn rules global (d ∷ ds) (above, f) =
    elim (Option-cases (get dimensions_eq d rules)) [
      | inr (limit, at) ↦
          rw (first_rule, at)
            (inl (
              d,
              inl refl,
              at,
              λ e l i g. elim i [
                | inl same ↦ rw same (omega arith)
                | inr later ↦ none_above (specificity d) ds e above later
              ],
            ))
      | inl free ↦
          rw (first_rule, free)
            (elim (first_rule-FirstIn rules global ds f) [
              | inl (e, i, at, best) ↦ inl (
                e,
                inr i,
                at,
                λ e' l i' g. elim i' [
                  | inl same ↦ absurd (none-ne-some l (sym free ∙ rw same at g))
                  | inr later ↦ best e' l later g
                ],
              )
              | inr (same, others) ↦
                  inr (same, λ e i. elim i [ inl here ↦ rw here free | inr later ↦ others e later ])
            ])
    ]

pub first_rule-MostSpecific :
    (rules : Rules) (global : TenantRateLimit) (t m p q : Str)
    → MostSpecific rules global t m p q (limit_or global (first_rule rules (candidates t m p q)))
unfolding FirstIn
first_rule-MostSpecific rules global t m p q =
    elim (first_rule-FirstIn rules global (candidates t m p q) (candidates-Falling t m p q)) [
      | inl (d, i, at, best) ↦
          inl (
            d,
            Matches-candidates t m p q d i,
            at,
            λ e l h g. best e l (In-candidates t m p q e h) g,
          )
      | inr (same, others) ↦ inr (same, λ e h. others e (In-candidates t m p q e h))
    ]
