-- ===== src/Tests/Metrics.antt =====
-- Histograms, by the test of binary/ai-gateway-service/src/app/tests.rs.
use spacegate.Common.{◌*◌, ◌≡◌, refl, codes, str_eq, some, none, List, [], ◌∷◌}
use spacegate.Common.Assoc.{get, put}
use spacegate.AiService.Metrics.{
  latencies_shown, sizes_shown, times_shown, latency_label, processing_label,
  observe_enqueue_latency, observe_body_size, observe_worker_processing,
}
use spacegate.AiService.Metrics.Laws.{
  Observation, enqueued, body, processed, observed, Counts, observed-Counts,
}

abbrev observations : List Observation
observations =
    processed 2000 (codes "gpt-4o-mini")
    ∷ body (256 * 1024)
    ∷ body (8 * 1024)
    ∷ enqueued 800 (codes "wait") (codes "inline")
    ∷ enqueued 80 (codes "queue") (codes "inline")
    ∷ []

observed-Counts_example :
    Counts (latencies_shown (observed observations)) 100 500 1000 (800 ∷ 80 ∷ [])
    × Counts
        (sizes_shown (observed observations))
        (10 * 1024)
        (128 * 1024)
        (5 * 1024 * 1024)
        (256 * 1024 ∷ 8 * 1024 ∷ [])
    × Counts (times_shown (observed observations)) 1000 5000 30000 (2000 ∷ [])
observed-Counts_example = observed-Counts observations

buckets :
    let m = observed observations in
    (m.enqueue_latency_le_100_ms ≡ 1)
    × (m.enqueue_latency_le_1000_ms ≡ 1)
    × (m.body_size_le_5mb ≡ 1)
    × (m.worker_processing_le_5000_ms ≡ 1)
unfolding observed observe_worker_processing observe_body_size observe_enqueue_latency
buckets = (refl, refl, refl, refl)

-- The labelled latency of 800 ms stands at its own bound only: the label of no bound is not counted.
only_own_bucket :
    let m = observed observations in
    (get str_eq (latency_label (codes "wait") (codes "inline") (codes "1000")) m.labeled ≡ some 1)
    × (get str_eq (latency_label (codes "wait") (codes "inline") (codes "+Inf")) m.labeled ≡ none)
unfolding observed get put latency_label processing_label observe_worker_processing
    observe_body_size observe_enqueue_latency
only_own_bucket = (refl, refl)
