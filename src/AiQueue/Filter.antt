-- ===== src/AiQueue/Filter.antt =====
-- `AiGatewayHttp` of plugins/wasm/ai-gateway-queue/src/lib.rs: the callbacks of one request as a state
-- machine. What a callback does to the host is a list of effects, the newest first; whether a call
-- can be dispatched, and its token, is an argument of the callback.
pub mod Answered
pub mod Body
use spacegate.Common.{
  ℕ, ◌+◌, ◌*◌, ◌/◌, ◌%◌, ◌^◌, max, ◌==◌, if◌then◌else◌, Str, codes, Bool, true, false, not, ◌&&◌,
  ◌||◌, Option, none, some, List, [], ◌∷◌, ◌++◌,
}
use spacegate.Common.Parse.{parse_u64, decimal}
use spacegate.AiQueue.Policy.{contains_allowed_true, extract_json_number}
use spacegate.AiQueue.Config.{AiGatewayConfig, unwrap_or}
use spacegate.AiQueue.Headers.{Policy, Host, request_policy, tenant_id, service_headers}

pub data Pending : Type 0 where
  rate_limit : Policy → Pending
  queue : Pending
  wait : Pending

pub data Action : Type 0 where
  continue : Action
  pause : Action

-- A response to the client, the request let through, or a call to the service.
pub data Effect : Type 0 where
  sent : (status : ℕ) (headers : List (Str × Str)) (body : Str) → Effect
  resumed : Effect
  dispatched :
      (cluster : Str) (headers : List (Str × Str)) (body : Option Str) (timeout_ms : ℕ) → Effect

pub record AiGatewayHttp : Type 0 where
  pub pending : Option (ℕ × Pending)
  pub rate_limited_enqueue : Option Policy
  pub body_pending : Bool
  pub effects : List Effect

-- `create_http_context`
abbrev pub new_context : AiGatewayHttp
new_context = record {
  pending = none;
  rate_limited_enqueue = none;
  body_pending = false;
  effects = [];
}

-- The answer of the service, as the host shows it.
pub record Response : Type 0 where
  pub get_http_call_response_header : Str → Option Str
  pub get_http_call_response_body : Option Str

abbrev pub emit : Effect → AiGatewayHttp → AiGatewayHttp
emit e s = record s { effects = e ∷ s.effects }

unfoldable pub send_json : ℕ → Str → AiGatewayHttp → AiGatewayHttp
send_json status body s =
    emit (sent status ((codes "content-type", codes "application/json") ∷ []) body) s

-- A status of more than 16 bits does not parse.
unfoldable pub service_status : Response → ℕ
unfolding parse_u64
service_status r = elim (r.get_http_call_response_header (codes ":status")) [
  | none ↦ 502
  | some v ↦ elim (parse_u64 v) [ none ↦ 502 | some n ↦ if n / 65536 == 0 then n else 502 ]
]

unfoldable pub response_headers : List Str → Response → List (Str × Str)
response_headers [] r = []
response_headers (name ∷ names) r =
    let rest = response_headers names r in
    elim (r.get_http_call_response_header name) [ none ↦ rest | some value ↦ (name, value) ∷ rest ]

unfoldable pub response_headers_for_client : Response → List (Str × Str)
unfolding response_headers
response_headers_for_client r =
    response_headers
      (codes "content-type"
        ∷ codes "x-job-id"
        ∷ codes "x-queue-wait-ms"
        ∷ codes "x-gateway-job-id"
        ∷ codes "retry-after"
        ∷ codes "location"
        ∷ [])
      r

unfoldable pub forward_service_response : Response → AiGatewayHttp → AiGatewayHttp
forward_service_response r s =
    emit
      (sent (service_status r) (response_headers_for_client r)
        (unwrap_or r.get_http_call_response_body []))
      s

-- The sum wraps at 2 ^ 64.
unfoldable pub send_rate_limited_response : Str → AiGatewayHttp → AiGatewayHttp
send_rate_limited_response text s =
    let retry_after_ms = unwrap_or (extract_json_number text (codes "retry_after_ms")) 1000 in
    let retry_after_secs = max ((retry_after_ms + 999) % 2 ^ 64 / 1000) 1 in
    emit
      (sent 429
        ((codes "content-type", codes "application/json")
          ∷ (codes "retry-after", decimal retry_after_secs)
          ∷ (codes "x-ratelimit-retry-after-ms", decimal retry_after_ms)
          ∷ [])
        (codes "{\"error\":\"rate_limited\",\"retry_after_ms\":"
          ++ (decimal retry_after_ms ++ b'}' ∷ [])))
      s

module _ (lossy : Str → Str) (cfg : AiGatewayConfig) (host : Host) where
  -- `call` is the token of the call, if the host takes it.
  unfoldable pub dispatch_service_call :
      (call : Option ℕ) → Pending → Str → Option Str → AiGatewayHttp → AiGatewayHttp × Bool
  dispatch_service_call none pending path body s = (s, false)
  dispatch_service_call (some token) pending path body s = (
    emit
        (dispatched cfg.service_cluster (service_headers cfg host path) body cfg.service_timeout_ms)
        (record s { pending = some (token, pending) }),
    true,
  )

  abbrev pub enqueue_pending : Policy → Pending
  enqueue_pending Policy.queue = Pending.queue
  enqueue_pending _ = Pending.wait

  abbrev pub enqueue_target : Policy → Str
  enqueue_target Policy.queue = cfg.enqueue_path
  enqueue_target _ = cfg.wait_path

  unfoldable pub dispatch_enqueue : Option ℕ → Policy → Str → AiGatewayHttp → AiGatewayHttp
  unfolding dispatch_service_call send_json
  dispatch_enqueue call policy body s =
      let (s', done) =
        dispatch_service_call call (enqueue_pending policy) (enqueue_target policy) (some body) s in
      if done then s' else send_json 502 (codes "{\"error\":\"queue_service_unavailable\"}") s'

  abbrev pub is_abandon : Policy → Bool
  is_abandon Policy.abandon = true
  is_abandon _ = false

  unfoldable pub on_http_request_headers :
      (end_of_stream : Bool) (call : Option ℕ) → AiGatewayHttp → AiGatewayHttp × Action
  unfolding dispatch_service_call send_json
  on_http_request_headers end_of_stream call s = elim (request_policy cfg host) [
    | none ↦ (send_json 400 (codes "{\"error\":\"missing_or_invalid_rate_limit_policy\"}") s, pause)
    | some policy ↦ elim (tenant_id cfg host) [
      | none ↦ (send_json 400 (codes "{\"error\":\"missing_x_tenant_id\"}") s, pause)
      | some tenant ↦
          let s' = record s { body_pending = not end_of_stream && not (is_abandon policy) } in
          let (s'', done) =
            dispatch_service_call call (rate_limit policy) cfg.rate_limit_path none s' in
          if done
          then (s'', pause)
          else (send_json 502 (codes "{\"error\":\"rate_limit_service_unavailable\"}") s'', pause)
    ]
  ]

  unfoldable pub on_http_request_body :
      (body : Option Str) (end_of_stream : Bool) (call : Option ℕ)
      → AiGatewayHttp
      → AiGatewayHttp × Action
  unfolding dispatch_enqueue
  on_http_request_body body end_of_stream call s =
      let read = record s { body_pending = false } in
      let after : AiGatewayHttp × Action = elim s.rate_limited_enqueue [
        | none ↦ (read, continue)
        | some policy ↦ (
          dispatch_enqueue call policy (unwrap_or body [])
              (record read { rate_limited_enqueue = none }),
          pause,
        )
      ] in
      let waiting : Bool = elim s.rate_limited_enqueue [
        | none ↦ s.body_pending
        | some policy ↦ true
      ] in
      if not waiting then (s, continue) else if not end_of_stream then (s, pause) else after

  unfoldable pub handle_rate_limit_response :
      Response → (call : Option ℕ) → Policy → AiGatewayHttp → AiGatewayHttp
  handle_rate_limit_response r call policy s =
      let text = lossy (unwrap_or r.get_http_call_response_body []) in
      if service_status r == 200 && contains_allowed_true text
      then emit resumed s
      else if service_status r == 200
      then if is_abandon policy
        then send_rate_limited_response text s
        else if s.body_pending
        then record s { rate_limited_enqueue = some policy }
        else dispatch_enqueue call policy [] s
      else send_json 502 (codes "{\"error\":\"rate_limit_service_error\"}") s

  unfoldable pub on_http_call_response :
      (token_id : ℕ) → Response → (call : Option ℕ) → AiGatewayHttp → AiGatewayHttp
  on_http_call_response token_id r call s = elim s.pending [
    | none ↦ s
    | some (token, pending) ↦
        let s' = record s { pending = none } in
        let handled : AiGatewayHttp = elim pending [
          | rate_limit policy ↦ handle_rate_limit_response r call policy s'
          | Pending.queue ↦ forward_service_response r s'
          | Pending.wait ↦ forward_service_response r s'
        ] in
        if token_id == token then handled else s
  ]
