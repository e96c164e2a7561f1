-- ===== src/AiService/Jobs/Runs.antt =====
-- The runs of one job's entries, one behind the other. Between them leases end, and the count of the
-- job's attempts, which increment_job_delivery_attempt gives a time to live, may end too.
use spacegate.Common.{
  ℕ, ◌*◌, Str, str_eq, str_eq_iff, Bool-cases, inl, inr, length, ◌+◌, ◌-◌, ◌%◌, ◌^◌, ◌<◌, ◌≤◌, ltb,
  ◌≡◌, refl, ap, ◌∙◌, codes, false, some, List, [], ◌∷◌, ◌++◌, arith,
}
use spacegate.Common.Assoc.{get, remove, get-remove}
use spacegate.Common.Result.{Result}
use spacegate.AiService.Rules.{ServiceError}
use spacegate.AiService.Jobs.Model.{Fields, UpstreamRequest, Codecs, Config, World, Met}
use spacegate.AiService.Jobs.Fields.{field_string, job_lease_key, job_attempt_key, unwrap_or}
use spacegate.AiService.Jobs.Process.{process_stream_entry}
use spacegate.AiService.Jobs.Outcomes.{
  Seen, seen, tries, Outcome, idle, counted, lettered, tried, completed, buried,
}
use spacegate.AiService.Jobs.Ran.{answer}
use spacegate.AiService.Jobs.Laws.{process_stream_entry-Outcome}

pub data Event : Type 0 where
  delivered : Met → Str → Str → Fields → Event
  lease_expired : Str → Event
  attempts_expired : Str → Event

module _ (c : Codecs) (cfg : Config) where
  unfoldable pub step : Event → World → World
  step (delivered met stream entry fields) w =
      (process_stream_entry c cfg met stream entry fields w).0
  step (lease_expired job) w = record w { leases = remove str_eq (job_lease_key job) w.leases }
  step (attempts_expired job) w = record w {
    attempts = remove str_eq (job_attempt_key job) w.attempts;
  }

  unfoldable pub runs : List Event → World → World
  unfolding step
  runs [] w = w
  runs (e ∷ es) w = runs es (step e w)

  abbrev pub IsOf : Str → Event → Type 0
  IsOf job (delivered met stream entry fields) = field_string c fields (codes "job_id") ≡ some job
  IsOf job (lease_expired other) = Unit {0}
  IsOf job (attempts_expired other) = Unit {0}

  abbrev pub AllOf : Str → List Event → Type 0
  AllOf job [] = Unit {0}
  AllOf job (e ∷ es) = IsOf job e × AllOf job es

  -- Whether an event is the end of a count, and how many are.
  abbrev ends : Event → ℕ
  ends (delivered met stream entry fields) = 0
  ends (lease_expired other) = 0
  ends (attempts_expired other) = 1

  abbrev pub expiries : List Event → ℕ
  expiries [] = 0
  expiries (e ∷ es) = ends e + expiries es

  -- What a step does to the numbers: it acknowledges, or sends at most one request, and then only
  -- within the bound.
  data Moves (job : Str) (over : ℕ) (s s' : Seen) : Type 0 where
    acknowledges : length s'.acked ≡ length s.acked + 1 → Moves job over s s'
    sends :
        length s'.acked ≡ length s.acked
        → length s'.sent ≡ length s.sent + 1
        → tries job s' ≡ tries job s + 1
        → ltb cfg.job_max_delivery_attempts ((tries job s + 1) % 2 ^ 32) ≡ false
        → Moves job over s s'
    stays :
        length s'.acked ≡ length s.acked
        → length s'.sent ≡ length s.sent
        → tries job s ≤ tries job s'
        → tries job s' ≤ tries job s + 1
        → Moves job over s s'
    forgets :
        length s'.acked ≡ length s.acked
        → length s'.sent ≡ length s.sent
        → tries job s' ≤ tries job s
        → over ≡ 1
        → Moves job over s s'

  Outcome-Moves :
      (job stream entry key : Str) (answer : UpstreamRequest → Result ServiceError Str)
      (s s' : Seen)
      → Outcome job stream entry cfg.job_max_delivery_attempts key answer s s'
      → Moves job 0 s s'
  Outcome-Moves job stream entry key answer s s' (idle e) =
      stays (ap (λ z. length z.acked) e) (ap (λ z. length z.sent) e) (rw (e) omega arith)
        (rw (e) omega arith)
  Outcome-Moves job stream entry key answer s s' (counted a t f d n) =
      stays (ap length a) (ap length t) (rw (n) omega arith) (rw (n) omega arith)
  Outcome-Moves job stream entry key answer s s' (lettered l a t f d n i) =
      stays (ap length a) (ap length t) (rw (n) omega arith) (rw (n) omega arith)
  Outcome-Moves job stream entry key answer s s' (tried r a t f d n few) =
      sends (ap length a) (ap length t ∙ omega arith) n few
  Outcome-Moves job stream entry key answer s s' (completed r a t f d few) =
      acknowledges (ap length a ∙ omega arith)
  Outcome-Moves job stream entry key answer s s' (buried l a t f d i) =
      acknowledges (ap length a ∙ omega arith)

  -- The count of a job is gone, or it was that of another one.
  removed_le :
      (k j : Str) (l : List (Str × ℕ))
      → unwrap_or 0 (get str_eq k (remove str_eq j l)) ≤ unwrap_or 0 (get str_eq k l)
  removed_le k j l = elim (Bool-cases (str_eq k j)) [
    | inl same ↦ rw (get-remove str_eq str_eq_iff j k l, same) (omega arith)
    | inr other ↦ rw (get-remove str_eq str_eq_iff j k l, other) (omega arith)
  ]

  step-Moves :
      (job : Str) (e : Event) (w : World)
      → IsOf job e
      → Moves job (ends e) (seen w) (seen (step e w))
  unfolding step
  step-Moves job (delivered met stream entry fields) w j =
      Outcome-Moves job stream entry (cfg.result_key_prefix ++ job) (answer c cfg met job) (seen w)
        (seen ((process_stream_entry c cfg met stream entry fields w).0))
        (process_stream_entry-Outcome c cfg met job stream entry fields w j)
  step-Moves job (lease_expired other) w j = stays refl refl (omega arith) (omega arith)
  step-Moves job (attempts_expired other) w j =
      forgets refl refl (removed_le (job_attempt_key job) (job_attempt_key other) w.attempts) refl

  acked_grows :
      (job : Str) (es : List Event) (w : World)
      → AllOf job es
      → length w.acked ≤ length ((runs es w).acked)
  unfolding runs
  acked_grows job [] w all = omega arith
  acked_grows job (e ∷ es) w (one, all) =
      let rest = acked_grows job es (step e w) all in
      elim (step-Moves job e w one) [
        | acknowledges a ↦ omega arith
        | sends a t n few ↦ omega arith
        | stays a t n m ↦ omega arith
        | forgets a t n one ↦ omega arith
      ]

  -- The requests that the bound leaves, with so many counts that end.
  abbrev allowed : ℕ → ℕ → ℕ
  allowed n attempts =
      (cfg.job_max_delivery_attempts - attempts) + n * cfg.job_max_delivery_attempts

  sent_within :
      (job : Str) (es : List Event) (w : World)
      → AllOf job es
      → tries job (seen w) + length es < 2 ^ 32
      → length ((runs es w).acked) ≤ length w.acked
      → length ((runs es w).sent) ≤ length w.sent + allowed (expiries es) (tries job (seen w))
  unfolding runs
  sent_within job [] w all few same = omega arith
  sent_within job (e ∷ es) w (one, all) few same =
      let most = cfg.job_max_delivery_attempts in
      let grown = acked_grows job es (step e w) all in
      let rest = sent_within job es (step e w) all in
      elim (step-Moves job e w one) [
        | acknowledges a ↦ omega arith
        | sends a t n within ↦
            let r = rest (omega arith) (omega arith) in
            let below : tries job (seen w) + 1 ≤ most = ground arith in omega arith
        | stays a t n m ↦ let r = rest (omega arith) (omega arith) in omega arith
        | forgets a t n one ↦
            let r = rest (omega arith) (omega arith) in
            let fresh = ap (λ x. x * most) one in omega arith
      ]

  -- Over any number of runs of entries of one job, one behind the other, with leases and counts of
  -- attempts that expire between them and any commands that fail: where no entry is acknowledged
  -- and the count stays below 2^32, no more requests are sent than the greatest number of attempts
  -- leaves above the attempts counted before, and that number again for each count that expires.
  pub runs-sent :
      (job : Str) (es : List Event) (w : World)
      → AllOf job es
      → tries job (seen w) + length es < 2 ^ 32
      → (runs es w).acked ≡ w.acked
      → length ((runs es w).sent)
        ≤ length w.sent
          + (cfg.job_max_delivery_attempts - tries job (seen w))
          + expiries es * cfg.job_max_delivery_attempts
  runs-sent job es w all few same =
      let bound = sent_within job es w all few (rw (same) omega arith) in omega arith
