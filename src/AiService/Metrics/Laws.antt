-- ===== src/AiService/Metrics/Laws.antt =====
-- What the histograms tell of the values that were observed.
use spacegate.Common.{
  ℕ, suc, ◌*◌, ◌%◌, ◌^◌, ◌≡◌, refl, arith, leb, if◌then◌else◌, length, Str, List, [], ◌∷◌,
}
use spacegate.AiService.Metrics.{
  Metrics, observe_enqueue_latency, observe_body_size, observe_worker_processing,
  record_rate_limited, Shown, latencies_shown, sizes_shown, times_shown,
}

pub data Observation : Type 0 where
  enqueued : ℕ → Str → Str → Observation
  body : ℕ → Observation
  processed : ℕ → Str → Observation
  limited : Str → Str → Observation

unfoldable pub observe : Observation → Metrics → Metrics
observe (enqueued elapsed_ms policy size_bucket) m =
    observe_enqueue_latency elapsed_ms policy size_bucket m
observe (body size) m = observe_body_size size m
observe (processed elapsed_ms model) m = observe_worker_processing elapsed_ms model m
observe (limited policy tenant) m = record_rate_limited policy tenant m

abbrev pub no_metrics : Metrics
no_metrics = record {
  rate_limited_total = 0;
  enqueue_latency_count = 0;
  enqueue_latency_sum_ms = 0;
  enqueue_latency_le_100_ms = 0;
  enqueue_latency_le_500_ms = 0;
  enqueue_latency_le_1000_ms = 0;
  enqueue_latency_gt_1000_ms = 0;
  body_size_le_10kb = 0;
  body_size_le_128kb = 0;
  body_size_le_5mb = 0;
  body_size_gt_5mb = 0;
  body_size_count = 0;
  body_size_sum_bytes = 0;
  worker_processing_count = 0;
  worker_processing_sum_ms = 0;
  worker_processing_le_1000_ms = 0;
  worker_processing_le_5000_ms = 0;
  worker_processing_le_30000_ms = 0;
  worker_processing_gt_30000_ms = 0;
  labeled = [];
}

-- The observations, the last one first.
unfoldable pub observed : List Observation → Metrics
unfolding observe
observed [] = no_metrics
observed (o ∷ os) = observe o (observed os)

abbrev pub latencies : List Observation → List ℕ
latencies [] = []
latencies (enqueued t policy size_bucket ∷ os) = t ∷ latencies os
latencies (body n ∷ os) = latencies os
latencies (processed t model ∷ os) = latencies os
latencies (limited policy tenant ∷ os) = latencies os

abbrev pub sizes : List Observation → List ℕ
sizes [] = []
sizes (enqueued t policy size_bucket ∷ os) = sizes os
sizes (body n ∷ os) = n ∷ sizes os
sizes (processed t model ∷ os) = sizes os
sizes (limited policy tenant ∷ os) = sizes os

abbrev pub times : List Observation → List ℕ
times [] = []
times (enqueued t policy size_bucket ∷ os) = times os
times (body n ∷ os) = times os
times (processed t model ∷ os) = t ∷ times os
times (limited policy tenant ∷ os) = times os

-- How many values are at most a bound.
abbrev pub within : ℕ → List ℕ → ℕ
within b [] = 0
within b (n ∷ ns) = let rest = within b ns in if leb n b then suc rest else rest

abbrev pub Counts : Shown → ℕ → ℕ → ℕ → List ℕ → Type 0
Counts s a b c ns =
    (s.first ≡ within a ns % 2 ^ 64)
    × (s.second ≡ within b ns % 2 ^ 64)
    × (s.third ≡ within c ns % 2 ^ 64)
    × (s.all ≡ length ns % 2 ^ 64)

latencies_shown-Counts :
    (os : List Observation) → Counts (latencies_shown (observed os)) 100 500 1000 (latencies os)
unfolding observed latencies_shown observe_enqueue_latency observe_body_size
    observe_worker_processing record_rate_limited
latencies_shown-Counts [] = (refl, refl, refl, refl)
latencies_shown-Counts (enqueued t policy size_bucket ∷ os) =
    let (a, b, c, n) = latencies_shown-Counts os in ground arith
latencies_shown-Counts (body n ∷ os) = let ih = latencies_shown-Counts os in ground arith
latencies_shown-Counts (processed t model ∷ os) = let ih = latencies_shown-Counts os in ground arith
latencies_shown-Counts (limited policy tenant ∷ os) = latencies_shown-Counts os

sizes_shown-Counts :
    (os : List Observation)
    → Counts (sizes_shown (observed os)) (10 * 1024) (128 * 1024) (5 * 1024 * 1024) (sizes os)
unfolding observed sizes_shown observe_enqueue_latency observe_body_size observe_worker_processing
    record_rate_limited
sizes_shown-Counts [] = (refl, refl, refl, refl)
sizes_shown-Counts (enqueued t policy size_bucket ∷ os) =
    let ih = sizes_shown-Counts os in ground arith
sizes_shown-Counts (body n ∷ os) = let (a, b, c, k) = sizes_shown-Counts os in ground arith
sizes_shown-Counts (processed t model ∷ os) = let ih = sizes_shown-Counts os in ground arith
sizes_shown-Counts (limited policy tenant ∷ os) = sizes_shown-Counts os

times_shown-Counts :
    (os : List Observation) → Counts (times_shown (observed os)) 1000 5000 30000 (times os)
unfolding observed times_shown observe_enqueue_latency observe_body_size observe_worker_processing
    record_rate_limited
times_shown-Counts [] = (refl, refl, refl, refl)
times_shown-Counts (enqueued t policy size_bucket ∷ os) =
    let ih = times_shown-Counts os in ground arith
times_shown-Counts (body n ∷ os) = let ih = times_shown-Counts os in ground arith
times_shown-Counts (processed t model ∷ os) =
    let (a, b, c, k) = times_shown-Counts os in ground arith
times_shown-Counts (limited policy tenant ∷ os) = times_shown-Counts os

-- Whatever values were observed, in any order: what is told of the latencies up to 100, 500 and
-- 1000 ms, of the body sizes up to 10 and 128 KiB and 5 MiB, and of the processing times up to
-- 1000, 5000 and 30000 ms is the number of the observed values of that kind up to the bound, and
-- what is told in all is the number of them, modulo 2^64.
pub observed-Counts :
    (os : List Observation)
    → Counts (latencies_shown (observed os)) 100 500 1000 (latencies os)
      × Counts (sizes_shown (observed os)) (10 * 1024) (128 * 1024) (5 * 1024 * 1024) (sizes os)
      × Counts (times_shown (observed os)) 1000 5000 30000 (times os)
observed-Counts os = (latencies_shown-Counts os, sizes_shown-Counts os, times_shown-Counts os)
