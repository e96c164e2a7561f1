-- ===== src/AiQueue/Parse/Laws.antt =====
-- The configurations that `parse` gives.
use spacegate.Common.{
  ◌≡◌, refl, sym, ap, ◌⊎◌, inl, inr, arith, if◌then◌else◌, Str, codes, str_eq, to_ascii_lowercase,
  to_ascii_lowercase_idempotent, is_empty, starts_with_code, Bool, true, false, ◌||◌, Option, none,
  some, [], ◌∷◌, Bool-cases, Option-cases,
}
use spacegate.Common.Parse.{trim}
use spacegate.AiQueue.Policy.{normalize_policy, normalize_priority}
use spacegate.AiQueue.Config.{
  AiGatewayConfig, default_config, normalize_header_name, normalized, unwrap_or,
}
use spacegate.AiQueue.Json.{Json, apply_json}
use spacegate.AiQueue.Lines.{apply_legacy_lines}
use spacegate.AiQueue.Parse.{parse}

-- A header name as the host looks it up: not empty, no pseudo header, in lower case.
abbrev pub HeaderName : Str → Type 0
HeaderName v = (is_empty v ≡ false) × (starts_with_code b':' v ≡ false) × (to_ascii_lowercase v ≡ v)

abbrev pub Priority : Str → Type 0
Priority v = (v ≡ codes "high") ⊎ ((v ≡ codes "normal") ⊎ (v ≡ codes "low"))

abbrev pub PolicyName : Str → Type 0
PolicyName v = (v ≡ codes "abandon") ⊎ ((v ≡ codes "queue") ⊎ (v ≡ codes "wait"))

pub record IsValid (cfg : AiGatewayConfig) : Type 0 where
  pub policy_header : HeaderName cfg.policy_header
  pub tenant_header : HeaderName cfg.tenant_header
  pub model_header : HeaderName cfg.model_header
  pub priority_header : HeaderName cfg.priority_header
  pub default_priority : Priority cfg.default_priority
  pub default_policy : (v : Str) → cfg.default_policy ≡ some v → PolicyName v

HeaderName-or_fallback :
    (v fallback : Str)
    → to_ascii_lowercase v ≡ v
    → HeaderName fallback
    → HeaderName (if is_empty v || starts_with_code b':' v then fallback else v)
HeaderName-or_fallback v fallback lower h = elim (Bool-cases (is_empty v)) [
  | inl e ↦ rw e h
  | inr e ↦ elim (Bool-cases (starts_with_code b':' v)) [
    | inl p ↦ rw (e, p) h
    | inr p ↦ rw (e, p) (e, p, lower)
  ]
]

normalize_header_name-HeaderName :
    (value fallback : Str) → HeaderName fallback → HeaderName (normalize_header_name value fallback)
unfolding normalize_header_name
normalize_header_name-HeaderName value fallback h =
    HeaderName-or_fallback (to_ascii_lowercase (trim value)) fallback
      (to_ascii_lowercase_idempotent (trim value)) h

Priority-choice :
    (a b c : Bool)
    → Priority (
        unwrap_or
          (if a
            then some (codes "high")
            else if b
            then some (codes "normal")
            else if c
            then some (codes "low")
            else none)
          (codes "normal"))
Priority-choice true b c = inl refl
Priority-choice false true c = inr (inl refl)
Priority-choice false false true = inr (inr refl)
Priority-choice false false false = inr (inl refl)

Priority-or_normal :
    (value : Str) → Priority (unwrap_or (normalize_priority value) (codes "normal"))
unfolding normalize_priority
Priority-or_normal value =
    let v = to_ascii_lowercase (trim value) in
    Priority-choice (str_eq v (codes "high"))
      (str_eq v (codes "normal") || str_eq v (codes "default") || str_eq v (codes "medium"))
      (str_eq v (codes "low"))

some-injective : (s t : Str) → some s ≡ some t → t ≡ s
some-injective s t e = sym (ap (λ o. unwrap_or o s) e)

PolicyName-choice :
    (a b c : Bool) (v : Str)
    → (if a
        then some (codes "abandon")
        else if b
        then some (codes "queue")
        else if c
        then some (codes "wait")
        else none)
      ≡ some v
    → PolicyName v
PolicyName-choice true b c v h = inl (some-injective (codes "abandon") v h)
PolicyName-choice false true c v h = inr (inl (some-injective (codes "queue") v h))
PolicyName-choice false false true v h = inr (inr (some-injective (codes "wait") v h))
PolicyName-choice false false false v h = ground arith

PolicyName-normalized : (value v : Str) → normalize_policy value ≡ some v → PolicyName v
unfolding normalize_policy
PolicyName-normalized value v h =
    let w = to_ascii_lowercase (trim value) in
    PolicyName-choice (str_eq w (codes "abandon")) (str_eq w (codes "queue"))
      (str_eq w (codes "wait")) v h

PolicyName-default :
    (o : Option Str) (v : Str)
    → (let p : Option Str = elim o [ none ↦ none | some value ↦ normalize_policy value ] in
        p ≡ some v)
    → PolicyName v
PolicyName-default none v h = ground arith
PolicyName-default (some value) v h = PolicyName-normalized value v h

normalized-IsValid : (cfg : AiGatewayConfig) → IsValid (normalized cfg)
unfolding normalized
normalized-IsValid cfg = record {
  policy_header =
      normalize_header_name-HeaderName cfg.policy_header (codes "x-ratelimit-policy")
        (refl, refl, refl);
  tenant_header =
      normalize_header_name-HeaderName cfg.tenant_header (codes "x-tenant-id") (refl, refl, refl);
  model_header =
      normalize_header_name-HeaderName cfg.model_header (codes "x-model") (refl, refl, refl);
  priority_header =
      normalize_header_name-HeaderName cfg.priority_header (codes "x-queue-priority")
        (refl, refl, refl);
  default_priority = Priority-or_normal cfg.default_priority;
  default_policy = PolicyName-default cfg.default_policy;
}

default-IsValid : IsValid default_config
default-IsValid = record {
  policy_header = (refl, refl, refl);
  tenant_header = (refl, refl, refl);
  model_header = (refl, refl, refl);
  priority_header = (refl, refl, refl);
  default_priority = inr (inl refl);
  default_policy = λ v h. ground arith;
}

-- Every configuration that parse gives, of an empty text, of JSON or of lines, has header names
-- that are not empty, do not start with a colon and are in lower case, a default priority that is
-- high, normal or low, and as default policy, if any, abandon, queue or wait.
pub parse-IsValid : (j : Json) (lossy : Str → Str) (raw : Str) → IsValid (parse j lossy raw)
unfolding parse
parse-IsValid j lossy [] = default-IsValid
parse-IsValid j lossy (c ∷ raw) = elim (Option-cases (j.from_slice (c ∷ raw))) [
  | inl n ↦ rw (n, parse) (normalized-IsValid (apply_legacy_lines (lossy (c ∷ raw)) default_config))
  | inr (value, e) ↦ rw (e, parse) (normalized-IsValid (apply_json j value default_config))
]
