-- ===== src/AiQueue/Filter/Answered.antt =====
-- How often the filter answers a request.
use spacegate.Common.{
  ℕ, suc, ◌+◌, ◌≡◌, Str, Bool, false, Option, none, some, List, [], ◌∷◌, inl, inr, arith,
  Option-cases,
}
use spacegate.AiQueue.Config.{AiGatewayConfig, unwrap_or}
use spacegate.AiQueue.Headers.{Policy, Host}
use spacegate.AiQueue.Filter.{
  Pending, rate_limit, Effect, sent, resumed, dispatched, AiGatewayHttp, new_context, Response,
  send_json, forward_service_response, send_rate_limited_response, dispatch_enqueue,
  on_http_request_headers, on_http_request_body, handle_rate_limit_response, on_http_call_response,
}

-- The answers among the effects: a response, or the request let through.
abbrev pub answers : List Effect → ℕ
answers [] = 0
answers (sent status headers body ∷ es) = suc (answers es)
answers (resumed ∷ es) = suc (answers es)
answers (dispatched cluster headers body timeout ∷ es) = answers es

abbrev pub held {ℓ} : {A : Type ℓ} → Option A → ℕ
held none = 0
held (some a) = 1

-- The request was answered once and nothing is awaited, or it was not, and either a call of the
-- service or the rest of the body is awaited.
abbrev pub Balanced : AiGatewayHttp → Type 0
Balanced s = answers s.effects + held s.pending + held s.rate_limited_enqueue ≡ 1

abbrev Idle : AiGatewayHttp → Type 0
Idle s = answers s.effects + held s.pending + held s.rate_limited_enqueue ≡ 0

-- The callbacks behind that of the headers.
pub data Callback : Type 0 where
  body_read : (body : Option Str) (end_of_stream : Bool) (call : Option ℕ) → Callback
  call_answered : (token_id : ℕ) (response : Response) (call : Option ℕ) → Callback

module _ (lossy : Str → Str) (cfg : AiGatewayConfig) (host : Host) where
  abbrev pub step : Callback → AiGatewayHttp → AiGatewayHttp
  step (body_read body end_of_stream call) s =
      (on_http_request_body lossy cfg host body end_of_stream call s).0
  step (call_answered token_id response call) s =
      on_http_call_response lossy cfg host token_id response call s

  unfoldable pub run : List Callback → AiGatewayHttp → AiGatewayHttp
  run [] s = s
  run (c ∷ cs) s = run cs (step c s)

  dispatch_enqueue-Balanced :
      (call : Option ℕ) (policy : Policy) (body : Str) (s : AiGatewayHttp)
      → Idle s
      → Balanced (dispatch_enqueue lossy cfg host call policy body s)
  unfolding dispatch_enqueue
  dispatch_enqueue-Balanced none policy body s h = ground arith
  dispatch_enqueue-Balanced (some token) policy body s h = ground arith

  on_http_request_headers-Balanced :
      (end_of_stream : Bool) (call : Option ℕ)
      → Balanced (on_http_request_headers lossy cfg host end_of_stream call new_context).0
  unfolding on_http_request_headers
  on_http_request_headers-Balanced end_of_stream none = ground arith
  on_http_request_headers-Balanced end_of_stream (some token) = ground arith

  on_http_request_body-Balanced :
      (body : Option Str) (end_of_stream : Bool) (call : Option ℕ) (s : AiGatewayHttp)
      → Balanced s
      → Balanced (on_http_request_body lossy cfg host body end_of_stream call s).0
  unfolding on_http_request_body
  on_http_request_body-Balanced body end_of_stream call s h =
      elim (Option-cases s.rate_limited_enqueue) [
        | inl n ↦ ground arith
        | inr (policy, e) ↦ ground (
          arith,
          dispatch_enqueue-Balanced call policy (unwrap_or body [])
              (record s { rate_limited_enqueue = none; body_pending = false }),
        )
      ]

  handle_rate_limit_response-Balanced :
      (r : Response) (call : Option ℕ) (policy : Policy) (s : AiGatewayHttp)
      → Idle s
      → Balanced (handle_rate_limit_response lossy cfg host r call policy s)
  unfolding handle_rate_limit_response send_json send_rate_limited_response
  handle_rate_limit_response-Balanced r call policy s h =
      ground (arith, dispatch_enqueue-Balanced call policy [] s)

  on_http_call_response-Balanced :
      (token_id : ℕ) (r : Response) (call : Option ℕ) (s : AiGatewayHttp)
      → Balanced s
      → Balanced (on_http_call_response lossy cfg host token_id r call s)
  unfolding on_http_call_response forward_service_response
  on_http_call_response-Balanced token_id r call s h = elim (Option-cases s.pending) [
    | inl n ↦ ground arith
    | inr ((token, rate_limit policy), e) ↦
        ground
          (arith, handle_rate_limit_response-Balanced r call policy (record s { pending = none }))
    | inr ((token, Pending.queue), e) ↦ ground arith
    | inr ((token, Pending.wait), e) ↦ ground arith
  ]

  step-Balanced : (c : Callback) (s : AiGatewayHttp) → Balanced s → Balanced (step c s)
  step-Balanced (body_read body end_of_stream call) s h =
      on_http_request_body-Balanced body end_of_stream call s h
  step-Balanced (call_answered token_id response call) s h =
      on_http_call_response-Balanced token_id response call s h

  run-Balanced : (cs : List Callback) (s : AiGatewayHttp) → Balanced s → Balanced (run cs s)
  unfolding run
  run-Balanced [] s h = h
  run-Balanced (c ∷ cs) s h = run-Balanced cs (step c s) (step-Balanced c s h)

  -- From the callback of the headers on, after any sequence of body and call callbacks, whichever
  -- calls the host takes, the filter has answered the request exactly once and awaits nothing, or
  -- it has not answered and awaits exactly one thing, a call of the service or the rest of the
  -- body.
  pub run-headers-Balanced :
      (end_of_stream : Bool) (call : Option ℕ) (cs : List Callback)
      → Balanced (run cs (on_http_request_headers lossy cfg host end_of_stream call new_context).0)
  run-headers-Balanced end_of_stream call cs =
      run-Balanced cs (on_http_request_headers lossy cfg host end_of_stream call new_context).0
        (on_http_request_headers-Balanced end_of_stream call)
