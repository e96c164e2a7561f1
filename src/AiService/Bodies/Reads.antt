-- ===== src/AiService/Bodies/Reads.antt =====
-- The chunks of a body that is uploaded.
use mathlib.Core.List.{append_assoc, append-nil}
use mathlib.Core.Option.{some-injective, none-ne-some}
use spacegate.Common.{
  ℕ, ◌+◌, ◌^◌, ltb, Str, ◌≡◌, refl, sym, ◌≤◌, ◌<◌, arith, Option, none, some, List, [], ◌∷◌, ◌++◌,
  length, length-append, Bool-cases, Option-cases, inl, inr, ◌⊎◌,
}
use spacegate.Common.Result.{Result, ok, err, Result-cases}
use spacegate.AiService.Rules.{ServiceError}
use spacegate.AiService.Effects.{◌>>=◌, ◌>>◌}
use spacegate.AiService.Bodies.{
  Config, CompletedPart, Objects, Answers, Body, both, add_size, upload_full, abort_upload, read_on,
}
use spacegate.AiService.Bodies.Uploads.{IsUploaded, Refused, Held, upload_full-Full}

-- The bytes of a body whose chunks are all read.
abbrev pub whole_of : Body → Option (List ℕ)
whole_of [] = some []
whole_of (err e ∷ chunks) = none
whole_of (ok b ∷ chunks) = both (some b) (whole_of chunks)

pub both-some :
    (b : List ℕ) (r : Option (List ℕ)) (c : List ℕ)
    → both (some b) r ≡ some c
    → (d : List ℕ) × (r ≡ some d) × (b ++ d ≡ c)
both-some b none c e = elim (none-ne-some c e) [ ]
both-some b (some d) c e = (d, refl, some-injective (b ++ d) c e)

pub add_size-none : (m t n : ℕ) → add_size m t n ≡ none → m < 2 ^ 64 → m < t + n
unfolding add_size
add_size-none m t n e h = ground arith

pub add_size-some : (m t n s : ℕ) → add_size m t n ≡ some s → (s ≡ t + n) × (s ≤ m)
unfolding add_size
add_size-some m t n s e = ground arith

module _ (cfg : Config) (met : Answers) where
  pub abort-objects :
      (w : Objects)
      → ((abort_upload cfg met w).1 ≡ ok tt) × (((abort_upload cfg met w).0).objects ≡ w.objects)
  unfolding abort_upload
  abort-objects w = elim (Result-cases met.abort) [
    | inl (_, e) ↦ rw (abort_upload, e) (refl, refl)
    | inr (_, e) ↦ rw (abort_upload, e) (refl, refl)
  ]

  -- A body that is longer than the bound, behind so many bytes, or has a chunk that is not read.
  abbrev pub Excess : Body → ℕ → Type 0
  Excess chunks total =
      (b : List ℕ) → whole_of chunks ≡ some b → cfg.max_body_bytes < total + length b

  pub Excess-later :
      (chunk : List ℕ) (chunks : Body) (total t : ℕ)
      → t ≡ total + length chunk
      → Excess chunks t
      → Excess (ok chunk ∷ chunks) total
  Excess-later chunk chunks total t e h b k =
      let (d, m, j) = both-some chunk (whole_of chunks) b k in
      let more = h d m in rw (sym j, length-append chunk d) omega arith

  pub Excess-now :
      (chunk : List ℕ) (chunks : Body) (total : ℕ)
      → cfg.max_body_bytes < total + length chunk
      → Excess (ok chunk ∷ chunks) total
  Excess-now chunk chunks total h b k =
      let (d, m, j) = both-some chunk (whole_of chunks) b k in
      rw (sym j, length-append chunk d) omega arith

  abbrev pub Read :
      List (Str × List ℕ)
      → List ℕ
      → ℕ
      → Body
      → Objects
      → Result ServiceError (List ℕ × List CompletedPart)
      → Type 0
  Read objects whole total chunks w' (ok r) =
      (more : List ℕ) × (whole_of chunks ≡ some more)
      × (total + length more ≤ cfg.max_body_bytes)
      × Held cfg met objects (whole ++ more) w' r
  Read objects whole total chunks w' (err e) =
      (w'.objects ≡ objects) × (Refused cfg met e ⊎ Excess chunks total)

  Read-later :
      (objects : List (Str × List ℕ)) (whole chunk : List ℕ) (total t : ℕ) (chunks : Body)
      (w' : Objects) (r : Result ServiceError (List ℕ × List CompletedPart))
      → t ≡ total + length chunk
      → Read objects (whole ++ chunk) t chunks w' r
      → Read objects whole total (ok chunk ∷ chunks) w' r
  Read-later objects whole chunk total t chunks w' (ok r) e (more, m, h, held) = (
    chunk ++ more,
    rw (m) refl,
    rw (length-append chunk more) omega arith,
    rw (append_assoc whole chunk more) at held,
  )
  Read-later objects whole chunk total t chunks w' (err x) e (same, inl refused) =
      (same, inl refused)
  Read-later objects whole chunk total t chunks w' (err x) e (same, inr excess) =
      (same, inr (Excess-later chunk chunks total t e excess))

  pub read_on-Read :
      (chunks : Body) (total : ℕ) (pending : List ℕ) (cs : List CompletedPart) (w : Objects)
      (b : List ℕ)
      → cfg.max_body_bytes < 2 ^ 64
      → total ≤ cfg.max_body_bytes
      → IsUploaded w.parts cs b
      → Read w.objects
          (b ++ pending)
          total
          chunks
          ((read_on cfg met chunks total pending cs w).0)
          ((read_on cfg met chunks total pending cs w).1)
  unfolding read_on
  read_on-Read [] total pending cs w b bound few h =
      ([], refl, omega arith, (b, h, sym (append-nil (b ++ pending)), refl))
  read_on-Read (err e ∷ chunks) total pending cs w b bound few h =
      (refl, inr (λ d k. elim (none-ne-some d k) [ ]))
  read_on-Read (ok chunk ∷ chunks) total pending cs w b bound few h =
      let max = cfg.max_body_bytes in
      elim (Option-cases (add_size max total (length chunk))) [
        | inl a ↦
            let excess =
              Excess-now chunk chunks total (add_size-none max total (length chunk) a bound) in
            elim (Bool-cases (ltb (total + length chunk) (2 ^ 64))) [
              | inl e ↦
                  let (aborted, same) = abort-objects w in
                  rw (read_on, a, e, ◌>>◌, ◌>>=◌, aborted) (same, inr excess)
              | inr e ↦ rw (read_on, a, e) (refl, inr excess)
            ]
        | inr (t, a) ↦
            let (sum, within) = add_size-some max total (length chunk) t a in
            let pending' = pending ++ chunk in
            let full = upload_full-Full cfg met (length pending') pending' cs w b h (omega arith) in
            let w₁ = (upload_full cfg met (length pending') pending' cs w).0 in
            elim (Result-cases ((upload_full cfg met (length pending') pending' cs w).1)) [
              | inr (x, u) ↦
                  let (same, refused) = rw u at full in
                  rw (read_on, a, ◌>>=◌, u) (same, inl refused)
              | inl (r, u) ↦
                  let ((b', h', e', same), _) = rw u at full in
                  let rest = read_on-Read chunks t (r.0) (r.1) w₁ b' bound within h' in
                  rw (read_on, a, ◌>>=◌, u)
                    (Read-later w.objects (b ++ pending) chunk total t chunks
                      ((read_on cfg met chunks t (r.0) (r.1) w₁).0)
                      ((read_on cfg met chunks t (r.0) (r.1) w₁).1) sum
                      (rw (same, e', sym (append_assoc b pending chunk)) at rest))
            ]
      ]
