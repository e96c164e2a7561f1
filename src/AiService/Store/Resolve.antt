-- ===== src/AiService/Store/Resolve.antt =====
-- A request gets the most specific of the rules in force.
use spacegate.Common.{
  ◌≡◌, refl, sym, ap, ◌∙◌, Str, str_eq, is_empty, false, Option, none, some, List, [], ◌∷◌, map,
  Option-cases, inl, inr,
}
use spacegate.Common.Assoc.{get}
use spacegate.Common.Result.{Result, ok}
use spacegate.AiService.Bucket.{TenantRateLimit}
use spacegate.AiService.Rules.{
  ServiceError, Config, Json, Dimensions, sanitize_key, global_rate_limit,
}
use spacegate.AiService.Rules.Keys.{
  NoColon, SomeNoColon, IsDimensions, key_of, candidates, candidate_keys-key_of,
}
use spacegate.AiService.Rules.Valid.{sanitize_key-NoColon, sanitize_key-is_empty}
use spacegate.AiService.Rules.Choice.{
  Rules, dimensions_eq, first_rule, MostSpecific, limit_or, first_rule-MostSpecific,
}
use spacegate.AiService.Store.{
  ParsedStoredTenantRateLimit, parsed, Get, first_stored, resolve_rate_limit, Store,
}
use spacegate.AiService.Store.Events.{Event, IsJson, all_happen, all_change}
use spacegate.AiService.Store.Laws.{limit_of, limit_at, Refines, all_happen-Refines}

-- What is read out of a store without failures.
abbrev pub reads : Store → Get
reads store key = ok (get str_eq key store)

module _ (json : Json) (cfg : Config) where
  abbrev AllIsDimensions : List Dimensions → Type 0
  AllIsDimensions [] = Unit
  AllIsDimensions (d ∷ ds) = IsDimensions d × AllIsDimensions ds

  limit_or_global : Option (Str × ParsedStoredTenantRateLimit) → TenantRateLimit
  limit_or_global none = global_rate_limit cfg
  limit_or_global (some (key, s)) = s.limit

  first_stored-first_rule :
      (store : Store) (rules : Rules) (ds : List Dimensions)
      → Refines json cfg store rules
      → AllIsDimensions ds
      → (found : Option (Str × ParsedStoredTenantRateLimit)) × (first_stored json
            (reads store)
            (map (key_of cfg) ds)
          ≡ ok found)
        × (limit_or_global found ≡ limit_or (global_rate_limit cfg) (first_rule rules ds))
  unfolding first_stored first_rule limit_or_global limit_at limit_of
  first_stored-first_rule store rules [] r i = (none, refl, refl)
  first_stored-first_rule store rules (d ∷ ds) r (i, is) =
      let (found, e, same) = first_stored-first_rule store rules ds r is in
      elim (Option-cases (parsed json (get str_eq (key_of cfg d) store))) [
        | inl free ↦
            let none_here : get dimensions_eq d rules ≡ none =
              sym (r.agrees d i) ∙ ap limit_of free in
            (found, rw (first_stored, free) e, rw (first_rule, none_here) same)
        | inr (s, at) ↦
            let here : get dimensions_eq d rules ≡ some s.limit =
              sym (r.agrees d i) ∙ ap limit_of at in
            (some (key_of cfg d, s), rw (first_stored, at) refl, rw (first_rule, here) refl)
      ]

  candidates-IsDimensions :
      (t m p q : Str)
      → is_empty t ≡ false
      → NoColon t
      → NoColon m
      → NoColon p
      → NoColon q
      → AllIsDimensions (candidates t m p q)
  unfolding candidates
  candidates-IsDimensions t m p q g a b c d =
      let with : (m' p' q' : Option Str)
          → SomeNoColon m'
          → SomeNoColon p'
          → SomeNoColon q'
          → IsDimensions (record { tenant = t; model = m'; path = p'; policy = q' }) =
        λ m' p' q' h i j. record {
          tenant_given = g;
          tenant = a;
          model = h;
          path = i;
          policy = j;
        } in
      (
        with (some m) (some p) (some q) b c d,
        (
          with (some m) (some p) none b c tt,
          (
            with (some m) none (some q) b tt d,
            (
              with none (some p) (some q) tt c d,
              (
                with (some m) none none b tt tt,
                (
                  with none (some p) none tt c tt,
                  (with none none (some q) tt tt d, (with none none none tt tt tt, tt)),
                ),
              ),
            ),
          ),
        ),
      )

  answered :
      (found : Option (Str × ParsedStoredTenantRateLimit))
      → (elim found as (λ x. Result ServiceError TenantRateLimit) [
        | none ↦ ok (global_rate_limit cfg)
        | some x ↦ ok x.1.limit
      ])
        ≡ ok (limit_or_global found)
  unfolding limit_or_global
  answered none = refl
  answered (some (key, s)) = refl

  nothing-Refines : Refines json cfg [] []
  unfolding limit_at limit_of parsed get
  nothing-Refines = record { agrees = λ d i. refl }

  -- Where JSON that is written is read back: after any upserts, deletions and expired keys, from
  -- no keys on, a request without colons in its tenant and dimensions resolves without an error to
  -- the limit of a rule in force for its tenant that no dimension keeps from it, with no such rule
  -- more specific, or to the global limit where there is no such rule; texts are compared as keys
  -- have them. The rules in force change by the upserts and deletions that pass the checks and do
  -- not fail, and by the expired keys.
  pub resolve_rate_limit-MostSpecific :
      IsJson json cfg
      → (es : List Event) (tenant model path policy : Str) → is_empty tenant ≡ false
      → NoColon tenant
      → NoColon model
      → NoColon path
      → NoColon policy
      → (limit : TenantRateLimit) × (resolve_rate_limit json cfg
            (reads (all_happen json cfg es []))
            tenant
            model
            path
            policy
          ≡ ok limit)
        × MostSpecific
            (all_change es [])
            (global_rate_limit cfg)
            (sanitize_key tenant)
            (sanitize_key model)
            (sanitize_key path)
            (sanitize_key policy)
            limit
  unfolding resolve_rate_limit
  resolve_rate_limit-MostSpecific j es tenant model path policy g a b c d =
      let t = sanitize_key tenant in
      let m = sanitize_key model in
      let p = sanitize_key path in
      let q = sanitize_key policy in
      let all =
        candidates-IsDimensions t m p q (sanitize_key-is_empty tenant ∙ g)
          (sanitize_key-NoColon tenant a) (sanitize_key-NoColon model b)
          (sanitize_key-NoColon path c) (sanitize_key-NoColon policy d) in
      let (found, e, same) =
        first_stored-first_rule (all_happen json cfg es []) (all_change es []) (candidates t m p q)
          (all_happen-Refines json cfg j es [] [] nothing-Refines) all in
      (
        limit_or (global_rate_limit cfg) (first_rule (all_change es []) (candidates t m p q)),
        rw (resolve_rate_limit, candidate_keys-key_of cfg tenant model path policy, e)
            (answered found ∙ ap ok same),
        first_rule-MostSpecific (all_change es []) (global_rate_limit cfg) t m p q,
      )
