-- ===== src/AiService/Bodies/Finish.antt =====
-- The end of an upload: a whole object, or none.
use mathlib.Core.Path.{subst}
use mathlib.Core.List.{append-nil}
use spacegate.Common.{
  ℕ, ◌+◌, ◌^◌, ◌||◌, not, Str, ◌≡◌, refl, sym, ap, ◌∙◌, ◌≤◌, ◌<◌, arith, str_eq, str_eq_iff,
  str_eq_refl, is_empty, some, List, [], ◌∷◌, ◌++◌, length, Bool-cases, inl, inr, ◌⊎◌, false, Bool,
}
use spacegate.Common.Assoc.{get, get-put}
use spacegate.Common.Result.{Result, ok, err, Result-cases}
use spacegate.AiService.Rules.{ServiceError}
use spacegate.AiService.Effects.{◌>>=◌, ◌>>◌}
use spacegate.AiService.Bodies.{
  Config, CompletedPart, Objects, Answers, Body, upload_full, read_on, upload_multipart_part,
  upload_last, complete_multipart_upload, upload_result, or_abort, finish_offload_upload,
}
use spacegate.AiService.Bodies.Uploads.{
  IsUploaded, IsUploaded-one_more, Refused, at_part, at_complete, upload_full-Full,
}
use spacegate.AiService.Bodies.Reads.{whole_of, abort-objects, Excess, read_on-Read}

module _ (cfg : Config) (met : Answers) where
  no_pending :
      (pending : List ℕ) (t : Bool) (b : List ℕ)
      → (not (is_empty pending) || t) ≡ false
      → b ≡ b ++ pending
  no_pending [] t b e = sym (append-nil b)
  no_pending (x ∷ pending) t b e = cc

  abbrev Last :
      List (Str × List ℕ) → List ℕ → Objects → Result ServiceError (List CompletedPart) → Type 0
  Last objects whole w' (ok cs) = IsUploaded w'.parts cs whole × (w'.objects ≡ objects)
  Last objects whole w' (err e) = (w'.objects ≡ objects) × Refused cfg met e

  upload_last-Last :
      (pending : List ℕ) (cs : List CompletedPart) (w : Objects) (b : List ℕ)
      → IsUploaded w.parts cs b
      → Last w.objects
          (b ++ pending)
          ((upload_last cfg met pending cs w).0)
          ((upload_last cfg met pending cs w).1)
  unfolding upload_last upload_multipart_part
  upload_last-Last pending cs w b h = elim (Bool-cases (not (is_empty pending) || is_empty cs)) [
    | inl e ↦ elim (Result-cases (met.upload_part (length cs + 1))) [
      | inl (etag, u) ↦
          rw (upload_last, e, upload_multipart_part, u)
            (IsUploaded-one_more w.parts cs b pending etag h, refl)
      | inr (x, u) ↦ rw (upload_last, e, upload_multipart_part, u) (refl, at_part (length cs + 1) u)
    ]
    | inr e ↦
        rw (upload_last, e)
          (subst (λ l. IsUploaded w.parts cs l) (no_pending pending (is_empty cs) b e) h, refl)
  ]

  -- A whole object, or none.
  abbrev Completed :
      Str → List (Str × List ℕ) → List ℕ → Objects → Result ServiceError (Unit {0}) → Type 0
  Completed ref objects whole w' (ok done) = get str_eq ref w'.objects ≡ some whole
  Completed ref objects whole w' (err e) = (w'.objects ≡ objects) × Refused cfg met e

  complete-Completed :
      (ref : Str) (cs : List CompletedPart) (w : Objects) (b : List ℕ)
      → IsUploaded w.parts cs b
      → Completed ref w.objects b
          ((complete_multipart_upload cfg met ref cs w).0)
          ((complete_multipart_upload cfg met ref cs w).1)
  unfolding complete_multipart_upload
  complete-Completed ref cs w b h = elim (Result-cases met.complete) [
    | inr (x, e) ↦
        let refused : complete_multipart_upload cfg met ref cs w ≡ (w, err x) =
          rw (complete_multipart_upload, e) refl in
        rw (refused) (refl, at_complete e)
    | inl (_, e) ↦
        rw (complete_multipart_upload, e, h.whole)
          (rw (get-put str_eq str_eq_iff ref ref b w.objects, str_eq_refl ref) refl)
  ]

  abbrev pub Finished :
      Str
      → List (Str × List ℕ)
      → List ℕ
      → ℕ
      → Body
      → Objects
      → Result ServiceError (Unit {0})
      → Type 0
  Finished ref objects whole total chunks w' (ok done) =
      (more : List ℕ) × (whole_of chunks ≡ some more)
      × (total + length more ≤ cfg.max_body_bytes)
      × (get str_eq ref w'.objects ≡ some (whole ++ more))
  Finished ref objects whole total chunks w' (err e) =
      (w'.objects ≡ objects) × (Refused cfg met e ⊎ Excess cfg met chunks total)

  upload_result-Finished :
      (ref : Str) (pending : List ℕ) (chunks : Body) (total : ℕ) (w : Objects)
      → cfg.max_body_bytes < 2 ^ 64
      → total ≤ cfg.max_body_bytes
      → Finished ref w.objects pending total chunks
          ((upload_result cfg met ref pending chunks total w).0)
          ((upload_result cfg met ref pending chunks total w).1)
  unfolding upload_result
  upload_result-Finished ref pending chunks total w bound few =
      let nothing : IsUploaded w.parts [] [] = record { numbered = tt; whole = refl } in
      let full = upload_full-Full cfg met (length pending) pending [] w [] nothing (omega arith) in
      let w₁ = (upload_full cfg met (length pending) pending [] w).0 in
      elim (Result-cases ((upload_full cfg met (length pending) pending [] w).1)) [
        | inr (x, u) ↦
            let (same, refused) = rw u at full in rw (upload_result, ◌>>=◌, u) (same, inl refused)
        | inl (r, u) ↦
            let ((b, h, e, same), _) = rw u at full in
            let read = read_on-Read cfg met chunks total (r.0) (r.1) w₁ b bound few h in
            let w₂ = (read_on cfg met chunks total (r.0) (r.1) w₁).0 in
            elim (Result-cases ((read_on cfg met chunks total (r.0) (r.1) w₁).1)) [
              | inr (x, v) ↦
                  let (same', why) = rw v at read in
                  rw (upload_result, ◌>>=◌, u, v) (same' ∙ same, why)
              | inl (q, v) ↦
                  let (more, m, within, (b', h', e', same')) = rw v at read in
                  let last = upload_last-Last (q.0) (q.1) w₂ b' h' in
                  let w₃ = (upload_last cfg met (q.0) (q.1) w₂).0 in
                  elim (Result-cases ((upload_last cfg met (q.0) (q.1) w₂).1)) [
                    | inr (x, y) ↦
                        let (same'', refused) = rw y at last in
                        rw (upload_result, ◌>>=◌, u, v, y) (same'' ∙ same' ∙ same, inl refused)
                    | inl (cs, y) ↦
                        let (h'', same'') = rw y at last in
                        let done = complete-Completed ref cs w₃ (b' ++ q.0) h'' in
                        elim (Result-cases ((complete_multipart_upload cfg met ref cs w₃).1)) [
                          | inr (x, z) ↦
                              let (same''', refused) = rw z at done in
                              rw (upload_result, ◌>>=◌, ◌>>◌, u, v, y, z)
                                (same''' ∙ same'' ∙ same' ∙ same, inl refused)
                          | inl (_, z) ↦
                              rw (upload_result, ◌>>=◌, ◌>>◌, u, v, y, z)
                                (
                                  more,
                                  m,
                                  within,
                                  (rw z at done) ∙ ap some (e' ∙ ap (λ l. l ++ more) e),
                                )
                        ]
                  ]
            ]
      ]

  pub finish_offload_upload-Finished :
      (ref : Str) (pending : List ℕ) (chunks : Body) (total : ℕ) (w : Objects)
      → cfg.max_body_bytes < 2 ^ 64
      → total ≤ cfg.max_body_bytes
      → Finished ref w.objects pending total chunks
          ((finish_offload_upload cfg met ref pending chunks total w).0)
          ((finish_offload_upload cfg met ref pending chunks total w).1)
  unfolding finish_offload_upload or_abort
  finish_offload_upload-Finished ref pending chunks total w bound few =
      let result = upload_result-Finished ref pending chunks total w bound few in
      let w₁ = (upload_result cfg met ref pending chunks total w).0 in
      elim (Result-cases ((upload_result cfg met ref pending chunks total w).1)) [
        | inl (_, e) ↦ rw (finish_offload_upload, or_abort, e) (rw e at result)
        | inr (x, e) ↦
            let (same, why) = rw e at result in
            let (aborted, same') = abort-objects cfg met w₁ in
            rw (finish_offload_upload, or_abort, e, ◌>>◌, ◌>>=◌, aborted) (same' ∙ same, why)
      ]
