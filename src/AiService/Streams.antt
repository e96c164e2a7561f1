-- ===== src/AiService/Streams.antt =====
-- The streams of the queue by priority: stream_for_request, configured_streams, worker_stream_order
-- and validate_callback_url of binary/ai-gateway-service/src/app/queue.rs, optional_header of util.rs.
pub mod Laws
use spacegate.Common.{
  ℕ, ◌&&◌, ◌||◌, not, if◌then◌else◌, Str, codes, str_eq, is_empty, to_ascii_lowercase,
  eq_ignore_ascii_case, split, any, keep, replicate, map, Bool, true, false, Option, none, some,
  List, [], ◌∷◌, ◌++◌,
}
use spacegate.Common.Assoc.{get}
use spacegate.Common.Parse.{trim, strip_prefix}
use spacegate.Common.Result.{Result, ok, err}
use spacegate.AiService.Rules.{ServiceError, bad_request}

pub data QueuePolicy : Type 0 where
  queue : QueuePolicy
  wait : QueuePolicy

pub data QueuePriority : Type 0 where
  high : QueuePriority
  normal : QueuePriority
  low : QueuePriority

pub record Config : Type 0 where
  pub stream_key : Str
  pub high_priority_stream_key : Str
  pub low_priority_stream_key : Str
  pub enable_priority_streams : Bool
  pub queue_default_priority : Str
  pub queue_high_models : Str
  pub queue_low_models : Str
  pub queue_high_tenants : Str
  pub queue_low_tenants : Str
  pub queue_high_weight : ℕ
  pub queue_normal_weight : ℕ
  pub queue_low_weight : ℕ
  pub require_https_callback : Bool

-- Names in lower case, with values that may not be text; of a name's values the first is read.
abbrev pub HeaderMap : Type 0
HeaderMap = List (Str × Option Str)

unfoldable pub not_blank : Str → Option Str
not_blank value = if is_empty (trim value) then none else some (trim value)

unfoldable pub optional_header : HeaderMap → Str → Option Str
optional_header headers name = elim (get str_eq name headers) [
  | none ↦ none
  | some none ↦ none
  | some (some value) ↦ not_blank value
]

unfoldable pub priority_of : Str → Option QueuePriority
priority_of value =
    if str_eq value (codes "high")
    then some high
    else if any (str_eq value) (codes "normal" ∷ codes "default" ∷ codes "medium" ∷ [])
    then some normal
    else if str_eq value (codes "low")
    then some low
    else none

unfoldable pub parse_queue_priority : Str → Option QueuePriority
unfolding priority_of
parse_queue_priority value = priority_of (to_ascii_lowercase (trim value))

unfoldable pub contains_csv_value : Str → Str → Bool
contains_csv_value csv needle =
    any (λ value. eq_ignore_ascii_case value needle)
      (keep (λ value. not (is_empty value)) (map trim (split b',' csv)))

-- Behind the request's own wish.
unfoldable pub configured_priority : Config → Str → Str → QueuePriority
configured_priority cfg tenant model =
    if contains_csv_value cfg.queue_high_tenants tenant
      || contains_csv_value cfg.queue_high_models model
    then high
    else if contains_csv_value cfg.queue_low_tenants tenant
        || contains_csv_value cfg.queue_low_models model
    then low
    else elim (parse_queue_priority cfg.queue_default_priority) [ none ↦ normal | some p ↦ p ]

unfoldable pub request_priority : Config → HeaderMap → Str → Str → QueuePriority
request_priority cfg headers tenant model =
    elim (optional_header headers (codes "x-queue-priority")) [
      | none ↦ configured_priority cfg tenant model
      | some value ↦ elim (parse_queue_priority value) [
        | none ↦ configured_priority cfg tenant model
        | some p ↦ p
      ]
    ]

unfoldable pub stream_of : Config → QueuePriority → Str
stream_of cfg high = cfg.high_priority_stream_key
stream_of cfg normal = cfg.stream_key
stream_of cfg low = cfg.low_priority_stream_key

unfoldable pub stream_for_request : Config → HeaderMap → Str → Str → Str × QueuePriority
unfolding stream_of
stream_for_request cfg headers tenant model =
    let priority = request_priority cfg headers tenant model in
    if cfg.enable_priority_streams
    then (stream_of cfg priority, priority)
    else (cfg.stream_key, priority)

unfoldable pub configured_streams : Config → List Str
configured_streams cfg =
    if cfg.enable_priority_streams
    then cfg.high_priority_stream_key ∷ cfg.stream_key ∷ cfg.low_priority_stream_key ∷ []
    else cfg.stream_key ∷ []

unfoldable pub push_weighted : List Str → Str → ℕ → List Str
push_weighted out stream weight = out ++ replicate weight stream

unfoldable pub or_one : Str → List Str → List Str
or_one stream [] = stream ∷ []
or_one stream (s ∷ ss) = s ∷ ss

unfoldable pub worker_stream_order : Config → List Str
unfolding push_weighted or_one
worker_stream_order cfg =
    if cfg.enable_priority_streams
    then (let out = push_weighted [] cfg.high_priority_stream_key cfg.queue_high_weight in
        let out = push_weighted out cfg.stream_key cfg.queue_normal_weight in
        let out = push_weighted out cfg.low_priority_stream_key cfg.queue_low_weight in
        or_one cfg.stream_key out)
    else cfg.stream_key ∷ []

unfoldable pub is_https : Str → Bool
is_https url = elim (strip_prefix (codes "https://") url) [ none ↦ false | some rest ↦ true ]

unfoldable pub validate_callback_url : Config → QueuePolicy → Str → Result ServiceError (Unit {0})
validate_callback_url cfg policy callback_url =
    if elim policy [ queue ↦ is_empty callback_url | wait ↦ false ]
    then err (bad_request (codes "missing required header `x-callback-url` for queue policy"))
    else if not (is_empty callback_url)
        && (cfg.require_https_callback && not (is_https callback_url))
    then err (bad_request (codes "x-callback-url must use https"))
    else ok tt
