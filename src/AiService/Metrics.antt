-- ===== src/AiService/Metrics.antt =====
-- The counters of binary/ai-gateway-service/src/app/metrics.rs: numbers of 64 bits that wrap around,
-- and labelled ones by their text form.
pub mod Laws
use spacegate.Common.{
  ℕ, ◌+◌, ◌*◌, ◌%◌, ◌^◌, leb, ◌||◌, if◌then◌else◌, Str, codes, str_eq, Option, none, some, List,
  ◌∷◌, ◌++◌, take,
}
use spacegate.Common.Assoc.{get, put}
use spacegate.AiService.Rules.{sanitize_key}

-- `fetch_add` and `+=` on a `u64`
abbrev pub add : ℕ → ℕ → ℕ
add n k = (n + k) % 2 ^ 64

pub record Metrics : Type 0 where
  pub rate_limited_total : ℕ
  pub enqueue_latency_count : ℕ
  pub enqueue_latency_sum_ms : ℕ
  pub enqueue_latency_le_100_ms : ℕ
  pub enqueue_latency_le_500_ms : ℕ
  pub enqueue_latency_le_1000_ms : ℕ
  pub enqueue_latency_gt_1000_ms : ℕ
  pub body_size_le_10kb : ℕ
  pub body_size_le_128kb : ℕ
  pub body_size_le_5mb : ℕ
  pub body_size_gt_5mb : ℕ
  pub body_size_count : ℕ
  pub body_size_sum_bytes : ℕ
  pub worker_processing_count : ℕ
  pub worker_processing_sum_ms : ℕ
  pub worker_processing_le_1000_ms : ℕ
  pub worker_processing_le_5000_ms : ℕ
  pub worker_processing_le_30000_ms : ℕ
  pub worker_processing_gt_30000_ms : ℕ
  pub labeled : List (Str × ℕ)

abbrev pub or_zero : Option ℕ → ℕ
or_zero none = 0
or_zero (some n) = n

unfoldable pub inc_labeled : Str → Metrics → Metrics
inc_labeled key m = record m {
  labeled = put str_eq key (add (or_zero (get str_eq key m.labeled)) 1) m.labeled;
}

unfoldable pub metrics_label : Str → Str
metrics_label value = take 64 (sanitize_key value)

unfoldable pub body_size_bucket : ℕ → Str → Str
body_size_bucket size storage =
    if str_eq storage (codes "object") || str_eq storage (codes "s3")
    then codes "s3"
    else if leb size (10 * 1024)
    then codes "inline_small"
    else if leb size (128 * 1024)
    then codes "inline"
    else codes "inline_large"

-- The texts of the labels.
unfoldable pub latency_label : Str → Str → Str → Str
latency_label policy size_bucket le =
    codes "enqueue_latency_ms_bucket{policy=\""
    ++ policy
    ++ codes "\",size_bucket=\""
    ++ size_bucket
    ++ codes "\",le=\""
    ++ le
    ++ codes "\"}"

unfoldable pub processing_label : Str → Str → Str
processing_label model le =
    codes "worker_processing_time_ms_bucket{model=\""
    ++ model
    ++ codes "\",le=\""
    ++ le
    ++ codes "\"}"

-- The bucket of a latency, with its bound.
unfoldable pub latency_bucket : ℕ → Metrics → Metrics × Str
latency_bucket elapsed_ms m =
    if leb elapsed_ms 100
    then (record m { enqueue_latency_le_100_ms = add m.enqueue_latency_le_100_ms 1 }, codes "100")
    else if leb elapsed_ms 500
    then (record m { enqueue_latency_le_500_ms = add m.enqueue_latency_le_500_ms 1 }, codes "500")
    else if leb elapsed_ms 1000
    then (
      record m { enqueue_latency_le_1000_ms = add m.enqueue_latency_le_1000_ms 1 },
      codes "1000",
    )
    else (
      record m { enqueue_latency_gt_1000_ms = add m.enqueue_latency_gt_1000_ms 1 },
      codes "+Inf",
    )

unfoldable pub observe_enqueue_latency : ℕ → Str → Str → Metrics → Metrics
unfolding latency_bucket inc_labeled
observe_enqueue_latency elapsed_ms policy size_bucket m =
    let m : Metrics = record m {
      enqueue_latency_count = add m.enqueue_latency_count 1;
      enqueue_latency_sum_ms = add m.enqueue_latency_sum_ms elapsed_ms;
    } in
    let (m, le) = latency_bucket elapsed_ms m in inc_labeled (latency_label policy size_bucket le) m

unfoldable pub observe_body_size : ℕ → Metrics → Metrics
observe_body_size size m =
    let m : Metrics = record m {
      body_size_count = add m.body_size_count 1;
      body_size_sum_bytes = add m.body_size_sum_bytes size;
    } in
    if leb size (10 * 1024)
    then record m { body_size_le_10kb = add m.body_size_le_10kb 1 }
    else if leb size (128 * 1024)
    then record m { body_size_le_128kb = add m.body_size_le_128kb 1 }
    else if leb size (5 * 1024 * 1024)
    then record m { body_size_le_5mb = add m.body_size_le_5mb 1 }
    else record m { body_size_gt_5mb = add m.body_size_gt_5mb 1 }

-- The bucket of a time of processing, with its bound.
unfoldable pub processing_bucket : ℕ → Metrics → Metrics × Str
processing_bucket elapsed_ms m =
    if leb elapsed_ms 1000
    then (
      record m { worker_processing_le_1000_ms = add m.worker_processing_le_1000_ms 1 },
      codes "1000",
    )
    else if leb elapsed_ms 5000
    then (
      record m { worker_processing_le_5000_ms = add m.worker_processing_le_5000_ms 1 },
      codes "5000",
    )
    else if leb elapsed_ms 30000
    then (
      record m { worker_processing_le_30000_ms = add m.worker_processing_le_30000_ms 1 },
      codes "30000",
    )
    else (
      record m { worker_processing_gt_30000_ms = add m.worker_processing_gt_30000_ms 1 },
      codes "+Inf",
    )

unfoldable pub observe_worker_processing : ℕ → Str → Metrics → Metrics
unfolding processing_bucket inc_labeled
observe_worker_processing elapsed_ms model m =
    let m : Metrics = record m {
      worker_processing_count = add m.worker_processing_count 1;
      worker_processing_sum_ms = add m.worker_processing_sum_ms elapsed_ms;
    } in
    let (m, le) = processing_bucket elapsed_ms m in
    inc_labeled (processing_label (metrics_label model) le) m

unfoldable pub limited_label : Str → Str → Str
limited_label policy tenant =
    codes "rate_limited_total{policy=\""
    ++ metrics_label policy
    ++ codes "\",tenant=\""
    ++ metrics_label tenant
    ++ codes "\"}"

unfoldable pub record_rate_limited : Str → Str → Metrics → Metrics
unfolding inc_labeled
record_rate_limited policy tenant m =
    inc_labeled (limited_label policy tenant)
      (record m { rate_limited_total = add m.rate_limited_total 1 })

-- What is told of a histogram: up to each bound, and in all.
pub record Shown : Type 0 where
  pub first : ℕ
  pub second : ℕ
  pub third : ℕ
  pub all : ℕ

unfoldable pub latencies_shown : Metrics → Shown
latencies_shown m = record {
  first = m.enqueue_latency_le_100_ms;
  second = add m.enqueue_latency_le_100_ms m.enqueue_latency_le_500_ms;
  third =
      add (add m.enqueue_latency_le_100_ms m.enqueue_latency_le_500_ms)
        m.enqueue_latency_le_1000_ms;
  all = m.enqueue_latency_count;
}

unfoldable pub sizes_shown : Metrics → Shown
sizes_shown m = record {
  first = m.body_size_le_10kb;
  second = add m.body_size_le_10kb m.body_size_le_128kb;
  third = add (add m.body_size_le_10kb m.body_size_le_128kb) m.body_size_le_5mb;
  all = m.body_size_count;
}

unfoldable pub times_shown : Metrics → Shown
times_shown m = record {
  first = m.worker_processing_le_1000_ms;
  second = add m.worker_processing_le_1000_ms m.worker_processing_le_5000_ms;
  third =
      add (add m.worker_processing_le_1000_ms m.worker_processing_le_5000_ms)
        m.worker_processing_le_30000_ms;
  all = m.worker_processing_count;
}
