-- ===== src/AiService/Bodies/Laws.antt =====
-- Where a body is, once it is stored.
use mathlib.Core.List.{append_assoc, append-nil}
use mathlib.Core.Option.{none-ne-some}
use spacegate.Common.{
  ℕ, ◌+◌, ◌^◌, ltb, Str, codes, ◌≡◌, refl, sym, ap, ◌∙◌, ◌≤◌, ◌<◌, arith, str_eq, Option, none,
  some, List, [], ◌∷◌, ◌++◌, length, length-append, Bool-cases, Option-cases, inl, inr, ◌⊎◌,
}
use spacegate.Common.Assoc.{get}
use spacegate.Common.Result.{Result, ok, err, Result-cases}
use spacegate.AiService.Rules.{ServiceError, bad_request}
use spacegate.AiService.Effects.{◌>>=◌, ◌>>◌, fail}
use spacegate.AiService.Bodies.{
  too_large, Config, Objects, Answers, Body, BodyLocation, add_size, finish_offload_upload,
  store_chunks, offload, waited, body_ref, store_body, joined, store_whole_body,
}
use spacegate.AiService.Bodies.Uploads.{Refused, at_initiate}
use spacegate.AiService.Bodies.Reads.{
  whole_of, both-some, add_size-none, add_size-some, Excess, Excess-now, Excess-later,
}
use spacegate.AiService.Bodies.Finish.{finish_offload_upload-Finished}

module _ (cfg : Config) (met : Answers) (encode : List ℕ → Str) (ref : Str) where
  -- A body in the entry, or an object.
  abbrev pub Loads : List ℕ → Objects → BodyLocation → Type 0
  Loads whole w' location =
      ((location.storage ≡ codes "inline")
        × (location.body_base64 ≡ encode whole)
        × (location.size ≡ length whole))
      ⊎ ((location.storage ≡ codes "object")
          × (location.object_ref ≡ ref)
          × (get str_eq ref w'.objects ≡ some whole))

  -- A body with no room in the entry, and no object store.
  abbrev pub NoRoom : Body → ℕ → Type 0
  NoRoom chunks total =
      (cfg.object_store_endpoint ≡ none)
      × ((b : List ℕ) → whole_of chunks ≡ some b → cfg.inline_threshold < total + length b)

  abbrev pub Stored :
      List (Str × List ℕ) → List ℕ → Body → Objects → Result ServiceError BodyLocation → Type 0
  Stored objects whole chunks w' (ok location) =
      (more : List ℕ) × (whole_of chunks ≡ some more)
      × (length whole + length more ≤ cfg.max_body_bytes)
      × Loads (whole ++ more) w' location
  Stored objects whole chunks w' (err e) =
      (w'.objects ≡ objects)
      × (Refused cfg met e ⊎ (Excess cfg met chunks (length whole) ⊎ NoRoom chunks (length whole)))

  Stored-later :
      (objects : List (Str × List ℕ)) (whole chunk : List ℕ) (chunks : Body) (w' : Objects)
      (r : Result ServiceError BodyLocation)
      → Stored objects (whole ++ chunk) chunks w' r
      → Stored objects whole (ok chunk ∷ chunks) w' r
  Stored-later objects whole chunk chunks w' (ok location) (more, m, within, loads) = (
    chunk ++ more,
    rw (m) refl,
    rw (length-append chunk more) (ground (arith, length-append whole chunk)),
    rw (append_assoc whole chunk more) at loads,
  )
  Stored-later objects whole chunk chunks w' (err e) (same, inl refused) = (same, inl refused)
  Stored-later objects whole chunk chunks w' (err e) (same, inr (inl excess)) = (
    same,
    inr (
        inl (
          Excess-later cfg met chunk chunks (length whole) (length (whole ++ chunk))
            (length-append whole chunk) excess)),
  )
  Stored-later objects whole chunk chunks w' (err e) (same, inr (inr (unset, over))) = (
    same,
    inr (
        inr (
          unset,
          λ b k.
              let (d, m, j) = both-some chunk (whole_of chunks) b k in
              let more = over d m in
              rw (sym j, length-append chunk d) (ground (arith, length-append whole chunk)),
        )),
  )

  offload-Stored :
      (endpoint : Option Str) (started : Result ServiceError Str) (chunks : Body) (total : ℕ)
      (whole : List ℕ) (w : Objects)
      → cfg.object_store_endpoint ≡ endpoint
      → met.initiate ≡ started
      → cfg.max_body_bytes < 2 ^ 64
      → total ≤ cfg.max_body_bytes
      → total ≡ length whole
      → cfg.inline_threshold < length whole
      → Stored w.objects whole chunks
          ((waited cfg met (offload endpoint started ref whole chunks total) w).0)
          ((waited cfg met (offload endpoint started ref whole chunks total) w).1)
  unfolding waited offload joined
  offload-Stored none started chunks total whole w unset i bound few sum big =
      (refl, inr (inr (unset, λ b k. omega arith)))
  offload-Stored (some endpoint) (err e) chunks total whole w set i bound few sum big =
      (refl, inl (at_initiate i))
  offload-Stored (some endpoint) (ok upload_id) chunks total whole w set i bound few sum big =
      let w₁ = record w { parts = [] } in
      let result = finish_offload_upload-Finished cfg met ref whole chunks total w₁ bound few in
      elim (Result-cases ((finish_offload_upload cfg met ref whole chunks total w₁).1)) [
        | inr (x, e) ↦
            let (same, why) = rw e at result in
            rw (waited, offload, joined, ◌>>=◌, ◌>>◌, e)
              (
                same,
                elim why [
                  | inl r ↦ inl r
                  | inr over ↦ inr (inl (λ b k. let more = over b k in omega arith))
                ],
              )
        | inl (_, e) ↦
            let (more, m, within, found) = rw e at result in
            rw (waited, offload, joined, ◌>>=◌, ◌>>◌, e)
              (more, m, omega arith, inr (refl, refl, found))
      ]

  -- An error before the upload.
  waited-fail :
      (e : ServiceError) (chunks : Body) (whole : List ℕ) (w : Objects)
      → Excess cfg met chunks (length whole)
      → Stored w.objects whole chunks
          ((waited cfg met (fail e) w).0)
          ((waited cfg met (fail e) w).1)
  unfolding waited
  waited-fail e chunks whole w excess = (refl, inr (inl excess))

  waited-inline :
      (total : ℕ) (whole : List ℕ) (w : Objects)
      → total ≤ cfg.max_body_bytes
      → total ≡ length whole
      → Stored w.objects whole []
          ((waited cfg met (store_chunks cfg met encode ref [] total whole) w).0)
          ((waited cfg met (store_chunks cfg met encode ref [] total whole) w).1)
  unfolding waited store_chunks joined
  waited-inline total whole w few sum = (
    [],
    refl,
    omega arith,
    inl (refl, ap encode (sym (append-nil whole)), sum ∙ ap length (sym (append-nil whole))),
  )

  store_chunks-Stored :
      (chunks : Body) (total : ℕ) (pending : List ℕ) (w : Objects)
      → cfg.max_body_bytes < 2 ^ 64
      → total ≤ cfg.max_body_bytes
      → total ≡ length pending
      → Stored w.objects pending chunks
          ((waited cfg met (store_chunks cfg met encode ref chunks total pending) w).0)
          ((waited cfg met (store_chunks cfg met encode ref chunks total pending) w).1)
  unfolding store_chunks
  store_chunks-Stored [] total pending w bound few sum = waited-inline total pending w few sum
  store_chunks-Stored (err e ∷ chunks) total pending w bound few sum =
      waited-fail (bad_request e) (err e ∷ chunks) pending w (λ d k. elim (none-ne-some d k) [ ])
  store_chunks-Stored (ok chunk ∷ chunks) total pending w bound few sum =
      let most = cfg.max_body_bytes in
      elim (Option-cases (add_size most total (length chunk))) [
        | inl a ↦
            let more = add_size-none most total (length chunk) a bound in
            rw (store_chunks, a)
              (waited-fail (too_large (total + length chunk)) (ok chunk ∷ chunks) pending w
                (Excess-now cfg met chunk chunks (length pending) (omega arith)))
        | inr (t, a) ↦
            let (sum', within) = add_size-some most total (length chunk) t a in
            let sum'' : t ≡ length (pending ++ chunk) =
              rw (length-append pending chunk) omega arith in
            elim (Bool-cases (ltb cfg.inline_threshold (length pending + length chunk))) [
              | inl big ↦
                  rw (store_chunks, a, big)
                    (Stored-later w.objects pending chunk chunks
                      ((waited cfg met
                        (offload cfg.object_store_endpoint met.initiate ref (pending ++ chunk)
                          chunks t)
                        w).0)
                      ((waited cfg met
                        (offload cfg.object_store_endpoint met.initiate ref (pending ++ chunk)
                          chunks t)
                        w).1)
                      (offload-Stored cfg.object_store_endpoint met.initiate chunks t
                        (pending ++ chunk) w refl refl bound within sum''
                        (ground (arith, length-append pending chunk))))
              | inr small ↦
                  rw (store_chunks, a, small)
                    (Stored-later w.objects pending chunk chunks
                      ((waited cfg met (store_chunks cfg met encode ref chunks t (pending ++ chunk))
                        w).0)
                      ((waited cfg met (store_chunks cfg met encode ref chunks t (pending ++ chunk))
                        w).1)
                      (store_chunks-Stored chunks t (pending ++ chunk) w bound within sum''))
            ]
      ]

module _ (cfg : Config) (met : Answers) (encode : List ℕ → Str) where
  -- Where the bound of bodies is a number of 64 bits, and whatever the object store refuses: a
  -- body that is stored, its upload waited for, had all its chunks read and is within the bound,
  -- and it is whole, in the location as base 64 with its size, or in the object store under the
  -- job's name; where it is an error, no object changes, and the object store refused a call with
  -- that error, or the body is above the bound or not read to its end, or there is no object store
  -- and the body is too long for the entry.
  pub store_whole_body-Stored :
      (job_id : Str) (chunks : Body) (w : Objects)
      → cfg.max_body_bytes < 2 ^ 64
      → Stored cfg met encode
          (body_ref cfg job_id)
          w.objects
          []
          chunks
          ((store_whole_body cfg met encode job_id chunks w).0)
          ((store_whole_body cfg met encode job_id chunks w).1)
  unfolding store_whole_body store_body
  store_whole_body-Stored job_id chunks w bound =
      store_chunks-Stored cfg met encode (body_ref cfg job_id) chunks 0 [] w bound (omega arith)
        refl
