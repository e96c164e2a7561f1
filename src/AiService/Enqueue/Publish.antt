-- ===== src/AiService/Enqueue/Publish.antt =====
-- The append of an entry, beside the upload of its body.
use spacegate.Common.{◌≡◌, refl, sym, ap, ◌∙◌, Str, ◌∷◌, inl, inr, ◌⊎◌}
use spacegate.Common.Result.{Result, ok, err, Result-cases}
use spacegate.AiService.Rules.{ServiceError}
use spacegate.AiService.Effects.{◌>>=◌}
use spacegate.AiService.Bodies.{
  BodyStoreOutcome, stored, pending_upload, finish_offload_upload, joined,
}
use spacegate.AiService.Jobs.Model.{Fields, Codecs}
use spacegate.AiService.Enqueue.{Config, Call, Queue, location_of, append_entry, publish}

module _ (c : Codecs) (cfg : Config) (met : Call) where
  abbrev Appended : Str → Fields → Queue → Queue → Result ServiceError Str → Type 0
  Appended stream fields q q' (ok id) =
      (q'.entries ≡ (stream, fields) ∷ q.entries) × (q'.objects ≡ q.objects)
  Appended stream fields q q' (err e) =
      (q'.entries ≡ q.entries) ⊎ (q'.entries ≡ (stream, fields) ∷ q.entries)

  append_entry-Appended :
      (stream : Str) (fields : Fields) (q : Queue)
      → Appended stream fields q
          ((append_entry c cfg met stream fields q).0)
          ((append_entry c cfg met stream fields q).1)
  unfolding append_entry
  append_entry-Appended stream fields q = elim (Result-cases met.xadd) [
    | inr (_, e) ↦ rw (append_entry, e) (inl refl)
    | inl (id, e) ↦ elim (Result-cases met.trim) [
      | inl (_, t) ↦ rw (append_entry, e, t) (refl, refl)
      | inr (_, t) ↦ rw (append_entry, e, t) (inr refl)
    ]
  ]

  abbrev pub Published :
      BodyStoreOutcome → Str → Fields → Queue → Queue → Result ServiceError Str → Type 0
  Published outcome stream fields q q' (ok id) =
      (q'.entries ≡ (stream, fields) ∷ q.entries)
      × (joined cfg.bodies met.answers outcome q.objects ≡ (q'.objects, ok (location_of outcome)))
  Published outcome stream fields q q' (err e) =
      (q'.entries ≡ q.entries) ⊎ (q'.entries ≡ (stream, fields) ∷ q.entries)

  pub publish-Published :
      (outcome : BodyStoreOutcome) (stream : Str) (fields : Fields) (q : Queue)
      → Published outcome stream fields q
          ((publish c cfg met outcome stream fields q).0)
          ((publish c cfg met outcome stream fields q).1)
  unfolding publish joined
  publish-Published (stored location) stream fields q =
      let appended = append_entry-Appended stream fields q in
      elim (Result-cases ((append_entry c cfg met stream fields q).1)) [
        | inl (id, e) ↦
            let (grown, same) = rw e at appended in
            rw (publish, e) (grown, ap (λ o. (o, ok location)) (sym same))
        | inr (_, e) ↦ let why = rw e at appended in rw (publish, e) why
      ]
  publish-Published (pending_upload location upload_id pending stream_left total_size) stream fields
        q =
      let w =
        (finish_offload_upload cfg.bodies met.answers location.object_ref pending stream_left
          total_size q.objects).0 in
      let q₁ = record q { objects = w } in
      let appended = append_entry-Appended stream fields q₁ in
      elim (Result-cases (
        (finish_offload_upload cfg.bodies met.answers location.object_ref pending stream_left
          total_size q.objects).1)) [
            | inr (_, f) ↦ elim (Result-cases ((append_entry c cfg met stream fields q₁).1)) [
              | inl (_, e) ↦ let (grown, same) = rw e at appended in rw (publish, f) (inr grown)
              | inr (_, e) ↦ let why = rw e at appended in rw (publish, f) why
            ]
            | inl (_, f) ↦ elim (Result-cases ((append_entry c cfg met stream fields q₁).1)) [
              | inl (id, e) ↦
                  let (grown, same) = rw e at appended in
                  let waits : joined cfg.bodies met.answers
                        (pending_upload location upload_id pending stream_left total_size) q.objects
                      ≡ (w, ok location) =
                    rw (joined, ◌>>=◌, f) refl in
                  rw (publish, f, e) (grown, waits ∙ ap (λ o. (o, ok location)) (sym same))
              | inr (_, e) ↦ let why = rw e at appended in rw (publish, f, e) why
            ]
          ]
