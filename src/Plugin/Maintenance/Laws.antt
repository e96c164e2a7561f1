-- ===== src/Plugin/Maintenance/Laws.antt =====
-- Which requests a plugin under maintenance answers itself, and how.
use mathlib.Core.Bool.{true≢false}
use mathlib.Core.Path.{subst}
use mathlib.Core.Option.{some-injective, none-ne-some}
use spacegate.Common.{
  sym, ap, ◌∙◌, not, ◌&&◌, str_eq, str_eq_iff, Option-cases, ℕ, ◌<◌, ◌≡◌, ◌↔◌, ◌⊎◌, inl, inr, refl,
  true, false, none, some, List, Str, Bool-cases, Bool,
}
use spacegate.Plugin.Maintenance.{
  TimeRange, Nets, MaintenancePluginConfig, create, check_by_time, check_ip, response, accepted,
  answer, call, Called, inner, reply, failed, panicked, Response, ContentType, html, json, other,
}
use spacegate.Route.Request.{Request, Http, path_of}
use spacegate.Plugin.Maintenance.Shut.{
  day, OfDay, InTime, Excluded, check_by_time_iff, check_ip_iff,
}

reply_of : Response → Called → Response
reply_of d inner = d
reply_of d failed = d
reply_of d panicked = d
reply_of d (reply r) = r

reply-injective : (r r' : Response) → reply r ≡ reply r' → r ≡ r'
unfolding reply_of
reply-injective r r' e = ap (reply_of r) e

inner-ne-reply : (r : Response) → Called.inner ≡ reply r → ⊥
inner-ne-reply r e = cc

failed-ne-reply : (r : Response) → Called.failed ≡ reply r → ⊥
failed-ne-reply r e = cc

failed-ne-inner : Called.failed ≡ Called.inner → ⊥
failed-ne-inner e = cc

and_not_iff {ℓ κ} :
    {P : Type ℓ} {Q : Type κ} (a b : Bool)
    → (a ≡ true) ↔ P
    → (b ≡ true) ↔ Q
    → ((a && not b) ≡ true) ↔ (P × ¬ Q)
and_not_iff true true p q = (λ i. absurd (true≢false (sym i)), λ i. absurd (i.1 (q.0 refl)))
and_not_iff true false p q = (λ i. (p.0 refl, λ s. true≢false (sym (q.1 s))), λ i. refl)
and_not_iff false b p q = (λ i. absurd (true≢false (sym i)), λ i. p.1 i.0)

module _ (n : Nets) (h : Http) (c : MaintenancePluginConfig n) where
  response-plain :
      (t : ContentType)
      → ((response n (create n c) t).status ≡ 503) × ((response n (create n c) t).location ≡ none)
  unfolding response
  response-plain html = (refl, refl)
  response-plain json = (refl, refl)
  response-plain other = (refl, refl)

  -- How a request is answered in place of the service.
  abbrev pub Answered : Response → Type 0
  Answered r =
      ((c.redirect ≡ none) × (r.status ≡ 503) × (r.location ≡ none))
      ⊎ ((to : Str) × (c.redirect ≡ some to) × (r.status ≡ 307) × (r.location ≡ h.from_str to))

  answer-inner :
      (req : Request)
      → (answer n h (create n c) req ≡ inner) ↔ (c.redirect ≡ some (path_of req.uri))
  unfolding answer create
  answer-inner req = elim (Option-cases c.redirect) [
    | inl e ↦
        rw (answer, create, e)
          (λ i. absurd (inner-ne-reply _ (sym i)), λ i. absurd (none-ne-some _ i))
    | inr (to, e) ↦ elim (Bool-cases (str_eq (path_of req.uri) to)) [
      | inl same ↦
          rw (answer, create, e, same)
            (λ i. ap some (sym ((str_eq_iff (path_of req.uri) to).0 same)), λ i. refl)
      | inr differs ↦
          let not_to : some to ≡ some (path_of req.uri) → ⊥ = λ i.
            true≢false
              (sym ((str_eq_iff (path_of req.uri) to).1 (sym (some-injective to _ i))) ∙ differs) in
          elim (Option-cases (h.from_str to)) [
            | inl f ↦
                rw (answer, create, e, differs, f)
                  (λ i. absurd (failed-ne-inner i), λ i. absurd (not_to i))
            | inr (v, f) ↦
                rw (answer, create, e, differs, f)
                  (λ i. absurd (inner-ne-reply _ (sym i)), λ i. absurd (not_to i))
          ]
    ]
  ]

  answer-plain :
      (req : Request)
      → c.redirect ≡ none
      → answer n h (create n c) req ≡ reply (response n (create n c) (accepted n h req))
  unfolding answer create
  answer-plain req e = rw (answer, create, e) refl

  answer-redirect :
      (req : Request) (to v : Str)
      → c.redirect ≡ some to
      → str_eq (path_of req.uri) to ≡ false
      → h.from_str to ≡ some v
      → answer n h (create n c) req
        ≡ reply (record (response n (create n c) (accepted n h req)) {
          location = some v;
          status = 307;
        })
  unfolding answer create
  answer-redirect req to v e differs f = rw (answer, create, e, differs, f) refl

  answer-Answered :
      (req : Request) (r : Response) → answer n h (create n c) req ≡ reply r → Answered r
  unfolding answer create
  answer-Answered req r i = elim (Option-cases c.redirect) [
    | inl e ↦
        let (status, location) = response-plain (accepted n h req) in
        subst Answered (reply-injective _ r (sym (answer-plain req e) ∙ i))
          (inl (e, status, location))
    | inr (to, e) ↦ elim (Bool-cases (str_eq (path_of req.uri) to)) [
      | inl same ↦ absurd (inner-ne-reply r (rw (answer, create, e, same) at i))
      | inr differs ↦ elim (Option-cases (h.from_str to)) [
        | inl f ↦ absurd (failed-ne-reply r (rw (answer, create, e, differs, f) at i))
        | inr (v, f) ↦
            subst Answered (reply-injective _ r (sym (answer-redirect req to v e differs f) ∙ i))
              (inr (to, e, refl, sym f))
      ]
    ]
  ]

  -- The call is in a maintenance range, from an address that is not excluded.
  abbrev pub Shut : ℕ → n.IpAddr → Type 0
  Shut time ip = InTime n c time × ¬ Excluded n c ip

  check_by_time-Shut :
      (time : ℕ) (ip : n.IpAddr)
      → time < day
      → ((ranges : List TimeRange) → c.enabled_time_range ≡ some ranges → OfDay ranges)
      → ((check_by_time n (create n c) time && not (check_ip n (create n c) ip)) ≡ true)
        ↔ Shut time ip
  check_by_time-Shut time ip t d =
      and_not_iff (check_by_time n (create n c) time) (check_ip n (create n c) ip)
        (check_by_time_iff n c time t d) (check_ip_iff n c ip)

  -- For a time of day, ranges within a day and a request whose address is known, a plugin that is
  -- made of a config passes a request on exactly where it is outside all ranges, one that ends
  -- before it starts going past midnight, or its address is excluded by one of the texts that can
  -- be read, or its path is the redirect's. What it answers itself has the status 503 and no
  -- location where there is no redirect, and 307 and the redirect where there is one.
  pub call_lem :
      (time : ℕ) (ip : n.IpAddr) (req : Request)
      → time < day
      → ((ranges : List TimeRange) → c.enabled_time_range ≡ some ranges → OfDay ranges)
      → ((call n h (create n c) time (some ip) req ≡ inner)
          ↔ (¬ Shut time ip) ⊎ (c.redirect ≡ some (path_of req.uri)))
        × ((r : Response)
            → call n h (create n c) time (some ip) req ≡ reply r
            → Shut time ip × Answered r)
  unfolding call
  call_lem time ip req t d =
      let shut = check_by_time-Shut time ip t d in
      let on = answer-inner req in
      elim (Bool-cases (check_by_time n (create n c) time && not (check_ip n (create n c) ip))) [
        | inl e ↦
            rw (call, e)
              (
                (
                  λ i. inr (on.0 i),
                  λ o. elim o [ inl not_shut ↦ absurd (not_shut (shut.0 e)) | inr i ↦ on.1 i ],
                ),
                λ r i. (shut.0 e, answer-Answered req r i),
              )
        | inr e ↦
            rw (call, e)
              (
                (λ i. inl (λ s. true≢false (sym (shut.1 s) ∙ e)), λ o. refl),
                λ r i. absurd (inner-ne-reply r i),
              )
      ]
