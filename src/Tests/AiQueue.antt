-- ===== src/Tests/AiQueue.antt =====
-- The queue filter at a concrete request.
use spacegate.Common.{
  ◌≡◌, refl, Str, codes, str_eq, if◌then◌else◌, true, false, none, some, List, [], ◌∷◌,
}
use spacegate.AiQueue.Config.{AiGatewayConfig, default_config, unwrap_or}
use spacegate.AiQueue.Json.{Json}
use spacegate.AiQueue.Parse.{parse}
use spacegate.AiQueue.Parse.Laws.{IsValid, parse-IsValid}
use spacegate.AiQueue.Headers.{Policy, Host}
use spacegate.AiQueue.Filter.{Response, on_http_request_headers, new_context}
use spacegate.AiQueue.Filter.Answered.{Callback, Balanced, run, run-headers-Balanced}
use spacegate.AiQueue.Filter.Body.{Refused, body_sent, body_first, answer_first, body_sent-order}
use spacegate.Route.Request.{header}

abbrev request_headers : List (Str × Str)
request_headers =
    (codes "x-ratelimit-policy", codes " Queue ") ∷ (codes "x-tenant-id", codes "t1") ∷ []

abbrev queued : Host
queued = record {
  get_http_request_header = λ name. header name request_headers;
  get_http_request_headers = request_headers;
}

abbrev denied : Response
denied = record {
  get_http_call_response_header =
      λ name. if str_eq name (codes ":status") then some (codes "200") else none;
  get_http_call_response_body = some (codes "{\"allowed\":false,\"retry_after_ms\":3000}");
}

abbrev text : Str → Str
text s = s

-- A parser that takes no text for JSON.
abbrev no_json : Json
no_json = record {
  Value = Str;
  from_slice = λ s. none;
  get = λ v k. none;
  as_str = λ v. none;
  as_u64 = λ v. none;
  as_bool = λ v. none;
  as_array = λ v. none;
}

legacy_lines :
    (parse no_json text (codes "tenant_header: X-Org\nhigh_priority_models: a, b,\n")).tenant_header
    ≡ codes "x-org"
unfolding parse spacegate.AiQueue.Config.normalized spacegate.AiQueue.Lines.apply_legacy_lines
legacy_lines = refl

parse-IsValid_example :
    IsValid (parse no_json text (codes "policy_header: :path\ndefault_priority: x\n"))
parse-IsValid_example =
    parse-IsValid no_json text (codes "policy_header: :path\ndefault_priority: x\n")

queued-Refused : Refused text default_config queued Policy.queue (codes "t1") 1 denied
unfolding spacegate.AiQueue.Headers.request_policy header spacegate.AiQueue.Headers.tenant_id
    spacegate.AiQueue.Filter.service_status spacegate.AiQueue.Policy.contains_allowed_true
queued-Refused = record {
  chosen = refl;
  queues = refl;
  named = refl;
  answered = refl;
  refused = refl;
}

body_sent-order_example :
    (body_sent
        (body_first text default_config queued Policy.queue
          (codes "t1")
          1
          denied
          (some (codes "{}"))
          (some 2)).effects
      ≡ some [])
    × (body_sent
          (answer_first text default_config queued Policy.queue
            (codes "t1")
            1
            denied
            (some (codes "{}"))
            (some 2)).effects
        ≡ some (codes "{}"))
body_sent-order_example =
    body_sent-order text default_config queued Policy.queue (codes "t1") 1 denied
      (some (codes "{}")) 2 queued-Refused

run-headers-Balanced_example : Balanced (
    run text default_config queued
      (Callback.call_answered 1 denied none
        ∷ Callback.body_read (some (codes "{}")) true (some 2)
        ∷ [])
      (on_http_request_headers text default_config queued false (some 1) new_context).0)
run-headers-Balanced_example = run-headers-Balanced text default_config queued false (some 1) (
    Callback.call_answered 1 denied none
    ∷ Callback.body_read (some (codes "{}")) true (some 2)
    ∷ [])
