-- ===== src/AiService/Enqueue/Entered.antt =====
-- The entry of a request whose body is stored.
use spacegate.Common.{ℕ, ◌^◌, ◌<◌, ◌≡◌, refl, ◌∙◌, Str, codes, some, List, [], ◌∷◌, inl, inr, ◌⊎◌}
use spacegate.Common.Result.{Result, ok, err, Result-cases}
use spacegate.AiService.Metrics.{add}
use spacegate.AiService.Rules.{ServiceError}
use spacegate.AiService.Effects.{◌>>=◌, ◌>>◌, lift, change}
use spacegate.AiService.Bodies.{
  Objects, Body, BodyLocation, BodyStoreOutcome, store_body, joined, waited, store_whole_body,
  body_ref,
}
use spacegate.AiService.Bodies.Reads.{whole_of}
use spacegate.AiService.Bodies.Laws.{Loads, store_whole_body-Stored}
use spacegate.AiService.Streams.{
  QueuePolicy, queue, wait, QueuePriority, high, normal, low, stream_for_request, optional_header,
  validate_callback_url,
}
use spacegate.AiService.Jobs.Model.{Fields, Codecs}
use spacegate.AiService.Jobs.Fields.{unwrap_or}
use spacegate.AiService.Enqueue.{
  Config, Request, Call, Queue, AcceptedJob, Asked, location_of, fields_of, count_policy,
  count_priority, required_header, header_texts, ask, publish, accept, observe_enqueued,
  store_asked, enqueue_permitted, with_permit,
}
use spacegate.AiService.Enqueue.Publish.{publish-Published}

-- What the headers ask for.
abbrev pub asked_of : Request → Str → Str → Asked
asked_of request tenant_id request_headers = record {
  tenant_id = tenant_id;
  model = unwrap_or (codes "default") (optional_header request.headers (codes "x-model"));
  callback_url = unwrap_or [] (optional_header request.headers (codes "x-callback-url"));
  original_method =
      unwrap_or (codes "POST") (optional_header request.headers (codes "x-original-method"));
  original_path =
      unwrap_or request.path (optional_header request.headers (codes "x-original-path"));
  request_headers = request_headers;
}

module _ (c : Codecs) (cfg : Config) (met : Call) where
  ask_lem :
      (policy : QueuePolicy) (request : Request)
      → ((e : ServiceError) × (ask c cfg met policy request ≡ err e))
        ⊎ ((tenant_id : Str) × (text : Str) × (ask c cfg met policy request
              ≡ ok (asked_of request tenant_id text))
            × (c.fields_to_string (header_texts request.headers) ≡ ok text))
  unfolding ask
  ask_lem policy request =
      let url = unwrap_or [] (optional_header request.headers (codes "x-callback-url")) in
      elim (Result-cases (required_header request.headers (codes "x-tenant-id"))) [
        | inr (x, t) ↦ inl (x, rw (ask, t) refl)
        | inl (tenant_id, t) ↦ elim (Result-cases (validate_callback_url cfg.streams policy url)) [
          | inr (x, v) ↦ inl (x, rw (ask, t, v) refl)
          | inl (_, v) ↦ elim (Result-cases (c.fields_to_string (header_texts request.headers))) [
            | inr (x, h) ↦ inl (x, rw (ask, t, v, h) refl)
            | inl (text, h) ↦ inr (tenant_id, text, rw (ask, t, v, h) refl, h)
          ]
        ]
      ]

  -- An entry for a body that is stored.
  abbrev pub Entered :
      QueuePolicy → Request → Queue → Queue → Result ServiceError AcceptedJob → Type 0
  Entered policy request q q' (ok accepted) =
      (whole : List ℕ) × (tenant_id : Str) × (text : Str) × (priority : QueuePriority)
      × (location : BodyLocation) × (whole_of request.body ≡ some whole)
      × (c.fields_to_string (header_texts request.headers) ≡ ok text)
      × (accepted.job_id ≡ met.job_id)
      × (q'.entries
          ≡ (
            accepted.stream_key,
            fields_of c cfg met policy (asked_of request tenant_id text) priority location,
          )
            ∷ q.entries)
      × Loads cfg.bodies met.answers c.encode_base64 (body_ref cfg.bodies met.job_id) whole
          q'.objects location
  Entered policy request q q' (err e) =
      (q'.entries ≡ q.entries)
      ⊎ ((stream_key : Str) × (fields : Fields) × (q'.entries ≡ (stream_key, fields) ∷ q.entries))

  counts_keep :
      (policy : QueuePolicy) (priority : QueuePriority) (q : Queue)
      → ((count_policy policy (count_priority priority q)).entries ≡ q.entries)
        × ((count_policy policy (count_priority priority q)).objects ≡ q.objects)
  counts_keep queue high q = (refl, refl)
  counts_keep queue normal q = (refl, refl)
  counts_keep queue low q = (refl, refl)
  counts_keep wait high q = (refl, refl)
  counts_keep wait normal q = (refl, refl)
  counts_keep wait low q = (refl, refl)

  store_whole_body-waits :
      (body : Body) (w : Objects) (outcome : BodyStoreOutcome)
      → (store_body cfg.bodies met.answers c.encode_base64 met.job_id body w).1 ≡ ok outcome
      → store_whole_body cfg.bodies met.answers c.encode_base64 met.job_id body w
        ≡ joined cfg.bodies met.answers outcome
            ((store_body cfg.bodies met.answers c.encode_base64 met.job_id body w).0)
  unfolding store_whole_body waited
  store_whole_body-waits body w outcome e = rw (store_whole_body, waited, ◌>>=◌, e) refl

  accept-Entered :
      (policy : QueuePolicy) (request : Request) (tenant_id text : Str) (outcome : BodyStoreOutcome)
      (q : Queue)
      → cfg.bodies.max_body_bytes < 2 ^ 64
      → c.fields_to_string (header_texts request.headers) ≡ ok text
      → (store_body cfg.bodies met.answers c.encode_base64 met.job_id request.body q.objects).1
        ≡ ok outcome
      → Entered policy request q
          ((accept c cfg met policy request (asked_of request tenant_id text) outcome (record q {
            objects =
                (store_body cfg.bodies met.answers c.encode_base64 met.job_id request.body
                  q.objects).0;
          })).0)
          ((accept c cfg met policy request (asked_of request tenant_id text) outcome (record q {
            objects =
                (store_body cfg.bodies met.answers c.encode_base64 met.job_id request.body
                  q.objects).0;
          })).1)
  unfolding accept observe_enqueued
  accept-Entered policy request tenant_id text outcome q bound h e =
      let asked = asked_of request tenant_id text in
      let w =
        (store_body cfg.bodies met.answers c.encode_base64 met.job_id request.body q.objects).0 in
      let q₁ : Queue = record q { objects = w } in
      let stream = (stream_for_request cfg.streams request.headers tenant_id asked.model).0 in
      let priority = (stream_for_request cfg.streams request.headers tenant_id asked.model).1 in
      let location = location_of outcome in
      let fields = fields_of c cfg met policy asked priority location in
      let published = publish-Published c cfg met outcome stream fields q₁ in
      let q₂ = (publish c cfg met outcome stream fields q₁).0 in
      let stored_whole =
        store_whole_body-Stored cfg.bodies met.answers c.encode_base64 met.job_id request.body
          q.objects bound in
      elim (Result-cases ((publish c cfg met outcome stream fields q₁).1)) [
        | inr (_, x) ↦
            let why = rw x at published in
            rw (accept, ◌>>=◌, x)
              (elim why [ inl none_new ↦ inl none_new | inr grown ↦ inr (stream, fields, grown) ])
        | inl (id, x) ↦
            let (grown, joins) = rw x at published in
            let (more, m, within, loads) =
              rw (store_whole_body-waits request.body q.objects outcome e ∙ joins) at
                stored_whole in
            let (same_entries, same_objects) = counts_keep policy priority (
              observe_enqueued c cfg met policy location
                (record q₂ { enqueue_total = add q₂.enqueue_total 1 })) in
            rw (accept, ◌>>=◌, ◌>>◌, change, x)
              (
                more,
                tenant_id,
                text,
                priority,
                location,
                m,
                h,
                refl,
                same_entries ∙ grown,
                rw (same_objects) loads,
              )
      ]

  enqueue_permitted-Entered :
      (policy : QueuePolicy) (request : Request) (q : Queue)
      → cfg.bodies.max_body_bytes < 2 ^ 64
      → Entered policy request q
          ((enqueue_permitted c cfg met policy request q).0)
          ((enqueue_permitted c cfg met policy request q).1)
  unfolding enqueue_permitted store_asked
  enqueue_permitted-Entered policy request q bound = elim (ask_lem policy request) [
    | inl (_, a) ↦ rw (enqueue_permitted, ◌>>=◌, lift, a) (inl refl)
    | inr (tenant_id, text, a, h) ↦
        let w = q.objects in
        elim (Result-cases
          ((store_body cfg.bodies met.answers c.encode_base64 met.job_id request.body w).1)) [
            | inr (_, e) ↦ rw (enqueue_permitted, ◌>>=◌, lift, a, store_asked, e) (inl refl)
            | inl (outcome, e) ↦
                rw (enqueue_permitted, ◌>>=◌, lift, a, store_asked, e)
                  (accept-Entered policy request tenant_id text outcome q bound h e)
          ]
  ]

  pub with_permit-Entered :
      (permit : Result ServiceError (Unit {0})) (policy : QueuePolicy) (request : Request)
      (q : Queue)
      → cfg.bodies.max_body_bytes < 2 ^ 64
      → Entered policy request q
          ((with_permit c cfg met permit (enqueue_permitted c cfg met policy request) q).0)
          ((with_permit c cfg met permit (enqueue_permitted c cfg met policy request) q).1)
  unfolding with_permit
  with_permit-Entered (ok done) policy request q bound =
      enqueue_permitted-Entered policy request q bound
  with_permit-Entered (err e) policy request q bound = inl refl
