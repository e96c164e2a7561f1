-- ===== src/Gateway/Route/Choice.antt =====
-- The route that the loop chooses is the first candidate with a rule that takes the request.
use spacegate.Common.{
  ℕ, zero, suc, ◌+◌, ◌≡◌, refl, ap, any, get_elem?, Bool, true, false, if◌then◌else◌, Option, none,
  some, List, [], ◌∷◌, ◌++◌, All, arith, Bool-cases, inl, inr, ◌⊎◌,
}
use spacegate.Common.Int.{ℤ}
use spacegate.Route.Request.{Http, Request}
use spacegate.Route.Match.{HttpRouteMatch, match_option, match_request, rewrite_request}
use spacegate.Gateway.Build.{Entry, Rule, HttpRouter}
use spacegate.Gateway.Route.{
  Routed, found, missed, panicked, Verdict, by_match, wildcard, refused, first_match, verdict,
  first_rule, take_route, route_from,
}

module _ (h : Http) where
  -- A rule takes a request where it has no match or one of its matches does.
  abbrev pub takes : Rule h → Request → Bool
  takes rule req = match_option (any (λ m. match_request h m req)) rule

  -- No rule takes the request.
  abbrev pub Refuses : List (Rule h) → Request → Type 0
  Refuses rules req = All (λ rule. takes rule req ≡ false) rules

  -- What a rule that takes the request hands on: no match if it has none, else the first of its
  -- matches that takes the request.
  abbrev pub Picks : Rule h → Option (HttpRouteMatch h) → Request → Type 0
  Picks none none req = Unit
  Picks none (some m) req = ⊥
  Picks (some ms) none req = ⊥
  Picks (some ms) (some m) req =
      (before after : List (HttpRouteMatch h)) × (ms ≡ before ++ m ∷ after)
      × All (λ x. match_request h x req ≡ false) before
      × (match_request h m req ≡ true)

  -- The rules in front of the one at the index refuse the request, and it takes it, with what it
  -- hands on.
  abbrev pub FirstAt : List (Rule h) → ℕ → Option (HttpRouteMatch h) → Request → Type 0
  FirstAt [] j m req = ⊥
  FirstAt (rule ∷ rules) zero m req = Picks rule m req
  FirstAt (rule ∷ rules) (suc j) m req = (takes rule req ≡ false) × FirstAt rules j m req

  abbrev Says : Rule h → Verdict h → Request → Type 0
  Says rule (by_match m) req = Picks rule (some m) req
  Says rule wildcard req = Picks rule none req
  Says rule refused req = takes rule req ≡ false

  Says-later :
      (m : HttpRouteMatch h) (ms : List (HttpRouteMatch h)) (v : Verdict h) (req : Request)
      → match_request h m req ≡ false
      → Says (some ms) v req
      → Says (some (m ∷ ms)) v req
  Says-later m ms (by_match x) req other (bs, cs, split, front, here) =
      (m ∷ bs, cs, ap (λ l. m ∷ l) split, (other, front), here)
  Says-later m ms wildcard req other s = s
  Says-later m ms refused req other s = ground arith

  first_match-Says :
      (ms : List (HttpRouteMatch h)) (req : Request) → Says (some ms) (first_match h ms req) req
  unfolding first_match
  first_match-Says [] req = refl
  first_match-Says (m ∷ ms) req = elim (Bool-cases (match_request h m req)) [
    | inl here ↦ rw (here, first_match) ([], ms, refl, tt, here)
    | inr later ↦
        let rest : Says (some (m ∷ ms)) (first_match h ms req) req =
          Says-later m ms (first_match h ms req) req later (first_match-Says ms req) in
        rw (later, first_match) rest
  ]

  verdict-Says : (rule : Rule h) (req : Request) → Says rule (verdict h rule req) req
  unfolding verdict
  verdict-Says none req = tt
  verdict-Says (some ms) req = first_match-Says ms req

  -- What the search of the rules has found, counting from `j`.
  abbrev pub Finds : List (Rule h) → ℕ → Request → Option (ℕ × Option (HttpRouteMatch h)) → Type 0
  Finds rules j req none = Refuses rules req
  Finds rules j req (some (k, m)) = (n : ℕ) × (k ≡ j + n) × FirstAt rules n m req

  Finds-suc :
      (rule : Rule h) (rules : List (Rule h)) (j : ℕ) (req : Request)
      (o : Option (ℕ × Option (HttpRouteMatch h)))
      → takes rule req ≡ false
      → Finds rules (suc j) req o
      → Finds (rule ∷ rules) j req o
  Finds-suc rule rules j req none t f = (t, f)
  Finds-suc rule rules j req (some (k, m)) t (n, e, f) = (suc n, omega arith, (t, f))

  verdict-Finds :
      (rule : Rule h) (rules : List (Rule h)) (j : ℕ) (req : Request)
      (o : Option (ℕ × Option (HttpRouteMatch h))) (v : Verdict h)
      → Says rule v req
      → Finds rules (suc j) req o
      → Finds
          (rule ∷ rules)
          j
          req
          (elim v [ by_match m ↦ some (j, some m) | wildcard ↦ some (j, none) | refused ↦ o ])
  verdict-Finds rule rules j req o (by_match m) g f = (0, omega arith, g)
  verdict-Finds rule rules j req o wildcard g f = (0, omega arith, g)
  verdict-Finds rule rules j req o refused g f = Finds-suc rule rules j req o g f

  first_rule-Finds :
      (rules : List (Rule h)) (j : ℕ) (req : Request) → Finds rules j req (first_rule h rules j req)
  unfolding first_rule
  first_rule-Finds [] j req = tt
  first_rule-Finds (rule ∷ rules) j req =
      verdict-Finds rule rules j req (first_rule h rules (suc j) req) (verdict h rule req)
        (verdict-Says rule req) (first_rule-Finds rules (suc j) req)

  -- The route of a candidate has no rule that takes the request.
  abbrev pub RefusedBy : List (HttpRouter h) → Request → Entry → Type 0
  RefusedBy routers req e =
      (router : HttpRouter h) × (get_elem? routers e.0 ≡ some router) × Refuses router.rules req

  -- The request that is handed on: rewritten by the match, if there is one.
  abbrev pub HandedOn : Option (HttpRouteMatch h) → Request → Request → Type 0
  HandedOn none req req' = req' ≡ req
  HandedOn (some m) req req' = rewrite_request h m req ≡ (req', true)

  -- What an outcome means: the first candidate with a rule that takes the request, and its first such
  -- rule; no such candidate, or a match that takes the request and cannot rewrite it; or a candidate
  -- that is no route.
  abbrev pub Means : List (HttpRouter h) → List Entry → Request → Routed h → Type 0
  Means routers indices req (found i j req' name m) =
      (before after : List Entry) × (p : _) × (router : HttpRouter h) × (indices
        ≡ before ++ (i, p) ∷ after)
      × All (RefusedBy routers req) before
      × (get_elem? routers i ≡ some router)
      × FirstAt router.rules j m req
      × (name ≡ router.name)
      × HandedOn m req req'
  Means routers indices req (missed req') =
      (All (RefusedBy routers req) indices × (req' ≡ req))
      ⊎ ((before after : List Entry) × (i : ℕ) × (p : ℤ) × (router : HttpRouter h) × (j : ℕ)
          × (m : HttpRouteMatch h) × (indices ≡ before ++ (i, p) ∷ after)
          × All (RefusedBy routers req) before
          × (get_elem? routers i ≡ some router)
          × FirstAt router.rules j (some m) req
          × (rewrite_request h m req ≡ (req', false)))
  Means routers indices req panicked =
      (before after : List Entry) × (e : Entry) × (indices ≡ before ++ e ∷ after)
      × (get_elem? routers e.0 ≡ none)

  module _ (routers : List (HttpRouter h)) (req : Request) where
    Means-later :
        (e : Entry) (es : List Entry) (r : Routed h)
        → RefusedBy routers req e
        → Means routers es req r
        → Means routers (e ∷ es) req r
    Means-later e es (found i j req' name m) refuses
          (bs, cs, p, router, split, front, at, f, n, k) =
        (e ∷ bs, cs, p, router, ap (◌∷◌ e) split, (refuses, front), at, f, n, k)
    Means-later e es (missed req') refuses (inl w) = inl ((refuses, w.0), w.1)
    Means-later e es (missed req') refuses
          (inr (bs, cs, i, p, router, j, m, split, front, at, f, r)) =
        inr (e ∷ bs, cs, i, p, router, j, m, ap (◌∷◌ e) split, (refuses, front), at, f, r)
    Means-later e es panicked refuses (bs, cs, x, split, gone) =
        (e ∷ bs, cs, x, ap (◌∷◌ e) split, gone)

    take_route-Means :
        (i k : ℕ) (p : ℤ) (es : List Entry) (router : HttpRouter h) (m : Option (HttpRouteMatch h))
        → get_elem? routers i ≡ some router
        → FirstAt router.rules k m req
        → Means routers ((i, p) ∷ es) req (take_route h i k router.name m req)
    unfolding take_route
    take_route-Means i k p es router none at f = ([], es, p, router, refl, tt, at, f, refl, refl)
    take_route-Means i k p es router (some m) at f = by_rewrite (rewrite_request h m req) refl
      where
        by_rewrite :
            (o : Request × Bool)
            → rewrite_request h m req ≡ o
            → Means routers
                ((i, p) ∷ es)
                req
                (if o.1 then found i k o.0 router.name (some m) else missed o.0)
        by_rewrite (req', true) e = ([], es, p, router, refl, tt, at, f, refl, e)
        by_rewrite (req', false) e = inr ([], es, i, p, router, k, m, refl, tt, at, f, e)

    rule-Means :
        (i : ℕ) (p : ℤ) (es : List Entry) (router : HttpRouter h)
        (o : Option (ℕ × Option (HttpRouteMatch h)))
        → get_elem? routers i ≡ some router
        → Finds router.rules 0 req o
        → Means routers es req (route_from h routers es req)
        → Means routers ((i, p) ∷ es) req (elim o [
          | some (j, m) ↦ take_route h i j router.name m req
          | none ↦ route_from h routers es req
        ])
    rule-Means i p es router none at refuses later =
        Means-later (i, p) es (route_from h routers es req) (router, at, refuses) later
    rule-Means i p es router (some (k, m)) at (n, e, f) later =
        let same : k ≡ n = omega arith in take_route-Means i k p es router m at (rw same f)

    entry-Means :
        (i : ℕ) (p : ℤ) (es : List Entry) (o : Option (HttpRouter h))
        → get_elem? routers i ≡ o
        → Means routers es req (route_from h routers es req)
        → Means routers ((i, p) ∷ es) req (elim o [
          | none ↦ panicked
          | some router ↦ elim (first_rule h router.rules 0 req) [
            | some (j, m) ↦ take_route h i j router.name m req
            | none ↦ route_from h routers es req
          ]
        ])
    entry-Means i p es none gone later = ([], es, (i, p), refl, gone)
    entry-Means i p es (some router) at later =
        rule-Means i p es router (first_rule h router.rules 0 req) at
          (first_rule-Finds router.rules 0 req) later

    -- The loop over the candidates finds the first candidate with a rule that takes the request
    -- and its first such rule, and hands the request on as the first match of that rule that takes
    -- it rewrites it, or as it is where the rule has no matches; it misses only where all
    -- candidates refuse or that match cannot rewrite, and panics only at an index that is no
    -- route.
    pub route_from-Means :
        (indices : List Entry) → Means routers indices req (route_from h routers indices req)
    unfolding route_from
    route_from-Means [] = inl (tt, refl)
    route_from-Means ((i, p) ∷ es) =
        entry-Means i p es (get_elem? routers i) refl (route_from-Means es)
