-- ===== src/AiService/Streams/Laws.antt =====
-- How often a worker reads the stream of a request in one round.
use spacegate.Common.{
  ℕ, zero, suc, ◌+◌, ◌≡◌, ◌≢◌, ◌<◌, refl, sym, ap, ◌∙◌, arith, if◌then◌else◌, Str, str_eq,
  str_eq_iff, str_eq_refl, replicate, Bool, true, false, Bool-cases, inl, inr, List, [], ◌∷◌, ◌++◌,
  length, length-append,
}
use spacegate.AiService.Streams.{
  QueuePriority, high, normal, low, Config, HeaderMap, request_priority, stream_of,
  stream_for_request, or_one, worker_stream_order,
}

-- How often a stream stands in a list.
abbrev pub turns : Str → List Str → ℕ
turns s [] = 0
turns s (t ∷ ts) = let rest = turns s ts in if str_eq s t then suc rest else rest

abbrev pub weight_of : Config → QueuePriority → ℕ
weight_of cfg high = cfg.queue_high_weight
weight_of cfg normal = cfg.queue_normal_weight
weight_of cfg low = cfg.queue_low_weight

turns-append : (s : Str) (l m : List Str) → turns s (l ++ m) ≡ turns s l + turns s m
turns-append s [] m = omega arith
turns-append s (t ∷ l) m = let rest = turns-append s l m in ground arith

turns-replicate : (s : Str) (n : ℕ) → turns s (replicate n s) ≡ n
turns-replicate s zero = refl
turns-replicate s (suc n) = rw (str_eq_refl s) (ap suc (turns-replicate s n))

turns-other : (s t : Str) (n : ℕ) → str_eq s t ≡ false → turns s (replicate n t) ≡ 0
turns-other s t zero h = refl
turns-other s t (suc n) h = rw (h) (turns-other s t n h)

turns-or_one : (s t : Str) (l : List Str) → 0 < length l → turns s (or_one t l) ≡ turns s l
unfolding or_one
turns-or_one s t [] h = omega arith
turns-or_one s t (x ∷ l) h = refl

str_eq-false : (s t : Str) → s ≢ t → str_eq s t ≡ false
str_eq-false s t h = elim (Bool-cases (str_eq s t)) [
  | inl e ↦ elim (h ((str_eq_iff s t).0 e)) [ ]
  | inr e ↦ e
]

if-true {ℓ} : {A : Type ℓ} (b : Bool) (x y : A) → b ≡ true → (if b then x else y) ≡ x
if-true b x y e = rw (e) refl

length-replicate : (s : Str) (n : ℕ) → length (replicate n s) ≡ n
length-replicate s zero = refl
length-replicate s (suc n) = ap suc (length-replicate s n)

turns_in_order :
    (cfg : Config) (s : Str)
    → cfg.enable_priority_streams ≡ true
    → 0 < cfg.queue_high_weight + cfg.queue_normal_weight + cfg.queue_low_weight
    → turns s (worker_stream_order cfg)
      ≡ turns s (replicate cfg.queue_high_weight cfg.high_priority_stream_key)
        + turns s (replicate cfg.queue_normal_weight cfg.stream_key)
        + turns s (replicate cfg.queue_low_weight cfg.low_priority_stream_key)
unfolding worker_stream_order
turns_in_order cfg s on some_weight =
    let h = replicate cfg.queue_high_weight cfg.high_priority_stream_key in
    let n = replicate cfg.queue_normal_weight cfg.stream_key in
    let l = replicate cfg.queue_low_weight cfg.low_priority_stream_key in
    let some_stream : 0 < length ((h ++ n) ++ l) = ground (
      arith,
      length-append (h ++ n) l,
      length-append h n,
      length-replicate cfg.high_priority_stream_key cfg.queue_high_weight,
      length-replicate cfg.stream_key cfg.queue_normal_weight,
      length-replicate cfg.low_priority_stream_key cfg.queue_low_weight,
    ) in
    ap (turns s) (
      if-true cfg.enable_priority_streams (or_one cfg.stream_key ((h ++ n) ++ l))
        (cfg.stream_key ∷ []) on)
    ∙ turns-or_one s cfg.stream_key ((h ++ n) ++ l) some_stream
    ∙ turns-append s (h ++ n) l
    ∙ ap (λ k. k + turns s l) (turns-append s h n)

-- Streams that are not each other's.
abbrev pub Distinct : Config → Type 0
Distinct cfg =
    (cfg.high_priority_stream_key ≢ cfg.stream_key)
    × (cfg.high_priority_stream_key ≢ cfg.low_priority_stream_key)
    × (cfg.stream_key ≢ cfg.low_priority_stream_key)

none_of : (s t : Str) (n : ℕ) → s ≢ t → turns s (replicate n t) ≡ 0
none_of s t n h = turns-other s t n (str_eq-false s t h)

stream_of-turns :
    (cfg : Config) (p : QueuePriority)
    → cfg.enable_priority_streams ≡ true
    → 0 < cfg.queue_high_weight + cfg.queue_normal_weight + cfg.queue_low_weight
    → Distinct cfg
    → turns (stream_of cfg p) (worker_stream_order cfg) ≡ weight_of cfg p
unfolding stream_of
stream_of-turns cfg high on some_weight (hn, hl, nl) =
    let all = turns_in_order cfg cfg.high_priority_stream_key on some_weight in
    let h = turns-replicate cfg.high_priority_stream_key cfg.queue_high_weight in
    let n = none_of cfg.high_priority_stream_key cfg.stream_key cfg.queue_normal_weight hn in
    let l =
      none_of cfg.high_priority_stream_key cfg.low_priority_stream_key cfg.queue_low_weight hl in
    omega arith
stream_of-turns cfg normal on some_weight (hn, hl, nl) =
    let all = turns_in_order cfg cfg.stream_key on some_weight in
    let h =
      none_of cfg.stream_key cfg.high_priority_stream_key cfg.queue_high_weight (λ e. hn (sym e)) in
    let n = turns-replicate cfg.stream_key cfg.queue_normal_weight in
    let l = none_of cfg.stream_key cfg.low_priority_stream_key cfg.queue_low_weight nl in
    omega arith
stream_of-turns cfg low on some_weight (hn, hl, nl) =
    let all = turns_in_order cfg cfg.low_priority_stream_key on some_weight in
    let h =
      none_of cfg.low_priority_stream_key cfg.high_priority_stream_key cfg.queue_high_weight
        (λ e. hl (sym e)) in
    let n =
      none_of cfg.low_priority_stream_key cfg.stream_key cfg.queue_normal_weight
        (λ e. nl (sym e)) in
    let l = turns-replicate cfg.low_priority_stream_key cfg.queue_low_weight in omega arith

stream_for_request-by_priority :
    (cfg : Config) (headers : HeaderMap) (tenant model : Str)
    → cfg.enable_priority_streams ≡ true
    → stream_for_request cfg headers tenant model ≡ (
      stream_of cfg (request_priority cfg headers tenant model),
      request_priority cfg headers tenant model,
    )
unfolding stream_for_request
stream_for_request-by_priority cfg headers tenant model on =
    let p = request_priority cfg headers tenant model in
    if-true cfg.enable_priority_streams (stream_of cfg p, p) (cfg.stream_key, p) on

-- With streams by priority, three different ones, and not all weights zero: in a worker's round,
-- the stream of a request stands as often as the weight of the request's priority says.
pub stream_for_request-turns :
    (cfg : Config) (headers : HeaderMap) (tenant model : Str)
    → cfg.enable_priority_streams ≡ true
    → 0 < cfg.queue_high_weight + cfg.queue_normal_weight + cfg.queue_low_weight
    → Distinct cfg
    → turns ((stream_for_request cfg headers tenant model).0) (worker_stream_order cfg)
      ≡ weight_of cfg ((stream_for_request cfg headers tenant model).1)
stream_for_request-turns cfg headers tenant model on some_weight distinct =
    rw (stream_for_request-by_priority cfg headers tenant model on)
      (stream_of-turns cfg (request_priority cfg headers tenant model) on some_weight distinct)
