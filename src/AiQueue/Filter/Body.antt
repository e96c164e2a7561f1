-- ===== src/AiQueue/Filter/Body.antt =====
-- What becomes of the body of a request that the rate limit refuses.
use spacegate.Common.{ℕ, ◌≡◌, Str, true, false, Option, none, some, List, [], ◌∷◌, arith}
use spacegate.AiQueue.Policy.{contains_allowed_true}
use spacegate.AiQueue.Config.{AiGatewayConfig, unwrap_or}
use spacegate.AiQueue.Headers.{Policy, Host, request_policy, tenant_id}
use spacegate.AiQueue.Filter.{
  Effect, dispatched, AiGatewayHttp, new_context, Response, service_status, dispatch_enqueue,
  is_abandon, on_http_request_headers, on_http_request_body, handle_rate_limit_response,
  on_http_call_response,
}

-- The body of the newest effect, if it is a call with a body.
abbrev pub body_sent : List Effect → Option Str
body_sent (dispatched cluster headers body timeout ∷ es) = body
body_sent es = none

module _ (lossy : Str → Str) (cfg : AiGatewayConfig) (host : Host) (policy : Policy) (tenant : Str)
    (token : ℕ) (r : Response) where
  -- A request with a body to come, whose policy queues or waits, and an answer that refuses it.
  pub record Refused : Type 0 where
    pub chosen : request_policy cfg host ≡ some policy
    pub queues : is_abandon lossy cfg host policy ≡ false
    pub named : tenant_id cfg host ≡ some tenant
    pub answered : service_status r ≡ 200
    pub refused : contains_allowed_true (lossy (unwrap_or r.get_http_call_response_body [])) ≡ false

  abbrev pub begun : AiGatewayHttp
  begun = (on_http_request_headers lossy cfg host false (some token) new_context).0

  -- The body ends in front of the answer.
  abbrev pub body_first : Option Str → Option ℕ → AiGatewayHttp
  body_first body call =
      on_http_call_response lossy cfg host token r call
        (on_http_request_body lossy cfg host body true none begun).0

  -- The answer comes in front of the end of the body.
  abbrev pub answer_first : Option Str → Option ℕ → AiGatewayHttp
  answer_first body call =
      (on_http_request_body lossy cfg host body true call
        (on_http_call_response lossy cfg host token r none begun)).0

  body_first-sent :
      (body : Option Str) (t : ℕ) → Refused → body_sent (body_first body (some t)).effects ≡ some []
  unfolding on_http_request_headers on_http_request_body on_http_call_response
      handle_rate_limit_response dispatch_enqueue
  body_first-sent body t h = ground arith

  answer_first-sent :
      (body : Option Str) (t : ℕ)
      → Refused
      → body_sent (answer_first body (some t)).effects ≡ some (unwrap_or body [])
  unfolding on_http_request_headers on_http_request_body on_http_call_response
      handle_rate_limit_response dispatch_enqueue
  answer_first-sent body t h = ground arith

  -- For a request that queues or waits and whose body is still to come, and a rate limit that
  -- refuses it: where the answer comes before the end of the body, the queue service gets the body
  -- of the last body callback, or an empty one where the host has none; where the body ends before
  -- the answer, the service gets an empty body, whatever the body was.
  pub body_sent-order :
      (body : Option Str) (t : ℕ)
      → Refused
      → (body_sent (body_first body (some t)).effects ≡ some [])
        × (body_sent (answer_first body (some t)).effects ≡ some (unwrap_or body []))
  body_sent-order body t h = (body_first-sent body t h, answer_first-sent body t h)
