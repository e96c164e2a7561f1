-- ===== src/AiQueue/Headers.antt =====
-- What the filter reads of a request, and what it sends to the service:
-- plugins/wasm/ai-gateway-queue/src/lib.rs.
use spacegate.Common.{
  if◌then◌else◌, Str, codes, str_eq, eq_ignore_ascii_case, to_ascii_lowercase, starts_with_code,
  is_empty, any, keep, not, Bool, ◌&&◌, ◌||◌, Option, none, some, List, [], ◌∷◌, ◌++◌,
}
use spacegate.Common.Parse.{trim}
use spacegate.AiQueue.Policy.{normalize_policy, normalize_priority}
use spacegate.AiQueue.Config.{AiGatewayConfig, unwrap_or}

pub data Policy : Type 0 where
  abandon : Policy
  queue : Policy
  wait : Policy

abbrev pub policy_name : Policy → Str
policy_name abandon = codes "abandon"
policy_name queue = codes "queue"
policy_name wait = codes "wait"

-- The request as the host shows it to the filter.
pub record Host : Type 0 where
  pub get_http_request_header : Str → Option Str
  pub get_http_request_headers : List (Str × Str)

unfoldable pub should_forward_to_service : Str → Bool
should_forward_to_service name =
    let lower = to_ascii_lowercase name in
    not (starts_with_code b':' lower)
    && not (
        any (str_eq lower) (
          codes "host"
          ∷ codes "connection"
          ∷ codes "content-length"
          ∷ codes "transfer-encoding"
          ∷ codes "x-original-method"
          ∷ codes "x-original-path"
          ∷ codes "x-ratelimit-policy"
          ∷ codes "x-tenant-id"
          ∷ codes "x-model"
          ∷ codes "x-queue-priority"
          ∷ []))

unfoldable pub contains_value : List Str → Str → Bool
contains_value values needle = any (λ value. eq_ignore_ascii_case value needle) values

-- `filter(|value| !value.trim().is_empty())`
abbrev pub not_blank : Option Str → Option Str
not_blank none = none
not_blank (some v) = if is_empty (trim v) then none else some v

module _ (cfg : AiGatewayConfig) (host : Host) where
  unfoldable pub request_policy : Option Policy
  unfolding normalize_policy
  request_policy =
      let value : Option Str = elim (host.get_http_request_header cfg.policy_header) [
        | some v ↦ some v
        | none ↦ cfg.default_policy
      ] in
      elim value [
        | none ↦ none
        | some v ↦ elim (normalize_policy v) [
          | none ↦ none
          | some p ↦
              if str_eq p (codes "abandon")
              then some abandon
              else if str_eq p (codes "queue")
              then some queue
              else if str_eq p (codes "wait")
              then some wait
              else none
        ]
      ]

  unfoldable pub tenant_id : Option Str
  tenant_id = not_blank (host.get_http_request_header cfg.tenant_header)

  unfoldable pub model : Option Str
  model = not_blank (host.get_http_request_header cfg.model_header)

  unfoldable pub queue_priority : (tenant_id model : Str) → Option Str
  unfolding contains_value normalize_priority
  queue_priority tenant_id model =
      let of_header : Option Str = elim (host.get_http_request_header cfg.priority_header) [
        | none ↦ none
        | some v ↦ normalize_priority v
      ] in
      if not cfg.priority_enabled then none else elim of_header [
        | some priority ↦ some priority
        | none ↦
            if contains_value cfg.high_priority_tenants tenant_id
              || contains_value cfg.high_priority_models model
            then some (codes "high")
            else if contains_value cfg.low_priority_tenants tenant_id
                || contains_value cfg.low_priority_models model
            then some (codes "low")
            else normalize_priority cfg.default_priority
      ]

  unfoldable pub service_headers : Str → List (Str × Str)
  unfolding request_policy tenant_id model queue_priority should_forward_to_service
  service_headers path =
      let policy : Str = elim request_policy [ none ↦ codes "abandon" | some p ↦ policy_name p ] in
      let tenant = unwrap_or tenant_id [] in
      let model_name = unwrap_or model (codes "default") in
      let priority : List (Str × Str) = elim (queue_priority tenant model_name) [
        | none ↦ []
        | some p ↦ (codes "x-queue-priority", p) ∷ []
      ] in
      ((codes ":method", codes "POST")
        ∷ (codes ":path", path)
        ∷ (codes ":authority", cfg.service_authority)
        ∷ (
          codes "x-original-method",
          unwrap_or (host.get_http_request_header (codes ":method")) (codes "POST"),
        )
        ∷ (
          codes "x-original-path",
          unwrap_or (host.get_http_request_header (codes ":path")) (codes "/"),
        )
        ∷ (codes "x-ratelimit-policy", policy)
        ∷ (codes "x-tenant-id", tenant)
        ∷ (codes "x-model", model_name)
        ∷ priority)
      ++ keep (λ h. should_forward_to_service h.0) host.get_http_request_headers
