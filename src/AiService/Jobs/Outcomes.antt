-- ===== src/AiService/Jobs/Outcomes.antt =====
-- What one run of an entry does to what others see of it.
use spacegate.Common.{ℕ, ◌+◌, ◌%◌, ◌^◌, ltb, ◌≡◌, Str, str_eq, true, false, List, ◌∷◌, ◌⊎◌}
use spacegate.Common.Assoc.{get, put}
use spacegate.Common.Result.{Result, ok}
use spacegate.AiService.Rules.{ServiceError}
use spacegate.AiService.Jobs.Model.{UpstreamRequest, DeadJob, World}
use spacegate.AiService.Jobs.Fields.{unwrap_or, job_attempt_key}

pub record Seen : Type 0 where
  pub acked : List (Str × Str)
  pub sent : List (Str × UpstreamRequest)
  pub attempts : List (Str × ℕ)
  pub results : List (Str × Str)
  pub dead : List DeadJob

abbrev pub seen : World → Seen
seen w = record {
  acked = w.acked;
  sent = w.sent;
  attempts = w.attempts;
  results = w.results;
  dead = w.dead;
}

-- How often a job was tried.
abbrev pub tries : Str → Seen → ℕ
tries job s = unwrap_or 0 (get str_eq (job_attempt_key job) s.attempts)

-- A dead letter for an attempt above the bound.
abbrev pub IsLetter : Str → Str → Str → ℕ → ℕ → DeadJob → Type 0
IsLetter job stream entry most before d =
    (d.job_id ≡ job)
    × (d.source_stream ≡ stream)
    × (d.source_entry_id ≡ entry)
    × (d.attempts ≡ (before + 1) % 2 ^ 32)
    × (ltb most d.attempts ≡ true)

-- The text of a result under its key.
abbrev pub IsStored : Str → Result ServiceError Str → List (Str × Str) → List (Str × Str) → Type 0
IsStored key answer before after =
    (json : Str) × (answer ≡ ok json) × (after ≡ put str_eq key json before)

-- A run of an entry of a job: it does nothing; only counts; counts and writes a dead letter, with the
-- entry left pending; sends the job's request and leaves the entry pending, its result stored or
-- not; sends it, stores its result and acknowledges; or writes a dead letter and acknowledges.
pub data Outcome (job stream entry : Str) (most : ℕ) (key : Str)
    (answer : UpstreamRequest → Result ServiceError Str) (s s' : Seen) : Type 0 where
  idle : s' ≡ s → Outcome job stream entry most key answer s s'
  counted :
      s'.acked ≡ s.acked
      → s'.sent ≡ s.sent
      → s'.results ≡ s.results
      → s'.dead ≡ s.dead
      → tries job s' ≡ tries job s + 1
      → Outcome job stream entry most key answer s s'
  lettered :
      (d : DeadJob)
      → s'.acked ≡ s.acked
      → s'.sent ≡ s.sent
      → s'.results ≡ s.results
      → s'.dead ≡ d ∷ s.dead
      → tries job s' ≡ tries job s + 1
      → IsLetter job stream entry most (tries job s) d
      → Outcome job stream entry most key answer s s'
  tried :
      (r : UpstreamRequest)
      → s'.acked ≡ s.acked
      → s'.sent ≡ (job, r) ∷ s.sent
      → (s'.results ≡ s.results) ⊎ IsStored key (answer r) s.results s'.results
      → s'.dead ≡ s.dead
      → tries job s' ≡ tries job s + 1
      → ltb most ((tries job s + 1) % 2 ^ 32) ≡ false
      → Outcome job stream entry most key answer s s'
  completed :
      (r : UpstreamRequest)
      → s'.acked ≡ (stream, entry) ∷ s.acked
      → s'.sent ≡ (job, r) ∷ s.sent
      → IsStored key (answer r) s.results s'.results
      → s'.dead ≡ s.dead
      → ltb most ((tries job s + 1) % 2 ^ 32) ≡ false
      → Outcome job stream entry most key answer s s'
  buried :
      (d : DeadJob)
      → s'.acked ≡ (stream, entry) ∷ s.acked
      → s'.sent ≡ s.sent
      → s'.results ≡ s.results
      → s'.dead ≡ d ∷ s.dead
      → IsLetter job stream entry most (tries job s) d
      → Outcome job stream entry most key answer s s'
