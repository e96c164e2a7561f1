-- ===== src/AiService/Enqueue/Laws.antt =====
-- What a worker reads of the entry of a request that is accepted.
use spacegate.Common.{
  ℕ, ◌^◌, ◌<◌, ◌≡◌, refl, sym, ap, ◌∙◌, Str, codes, trim_end_matches, some, List, ◌∷◌, ◌++◌, ◌⊎◌,
}
use spacegate.Common.Result.{Result, ok, err}
use spacegate.AiService.Rules.{ServiceError}
use spacegate.AiService.Bodies.Reads.{whole_of}
use spacegate.AiService.Streams.{QueuePolicy, optional_header}
use spacegate.AiService.Jobs.Model.{Fields, Codecs, UpstreamRequest}
use spacegate.AiService.Jobs.Model
use spacegate.AiService.Jobs.Fields.{unwrap_or, field_string, load_body, kept_headers}
use spacegate.AiService.Jobs.Process.{upstream_request}
use spacegate.AiService.Enqueue.{
  Config, Request, Call, Queue, AcceptedJob, fields_of, header_texts, enqueue_job,
}
use spacegate.AiService.Enqueue.Read.{
  ReadsObjects, fields_of-load_body, fields_of-job_id, fields_of-upstream_request,
}
use spacegate.AiService.Enqueue.Entered.{asked_of, Entered, with_permit-Entered}

module _ (c : Codecs) (cfg : Config) (met : Call) where
  -- The request that is sent for a job, by the request that was accepted.
  abbrev pub relayed : Str → Request → List ℕ → UpstreamRequest
  relayed base request whole = record {
    method = unwrap_or (codes "POST") (
        c.parse_method
          (unwrap_or (codes "POST") (optional_header request.headers (codes "x-original-method"))));
    url =
        trim_end_matches b'/' base
        ++ unwrap_or request.path (optional_header request.headers (codes "x-original-path"));
    headers = kept_headers (header_texts request.headers);
    body = whole;
  }

  -- An entry that a worker reads as the request, or an error.
  abbrev pub Enqueued :
      Request
      → spacegate.AiService.Jobs.Model.Config
      → spacegate.AiService.Jobs.Model.Met
      → Str
      → Queue
      → Queue
      → Result ServiceError AcceptedJob
      → Type 0
  Enqueued request jobs worker base q q' (ok accepted) =
      (whole : List ℕ) × (fields : Fields) × (whole_of request.body ≡ some whole)
      × (q'.entries ≡ (accepted.stream_key, fields) ∷ q.entries)
      × (field_string c fields (codes "job_id") ≡ some accepted.job_id)
      × (load_body c worker fields ≡ ok whole)
      × (upstream_request c jobs worker base fields whole ≡ relayed base request whole)
  Enqueued request jobs worker base q q' (err e) =
      (q'.entries ≡ q.entries)
      ⊎ ((stream_key : Str) × (fields : Fields) × (q'.entries ≡ (stream_key, fields) ∷ q.entries))

  Entered-Enqueued :
      (policy : QueuePolicy) (request : Request) (jobs : spacegate.AiService.Jobs.Model.Config)
      (worker : spacegate.AiService.Jobs.Model.Met) (base : Str) (q q' : Queue)
      (r : Result ServiceError AcceptedJob)
      → ((b : List ℕ) → c.decode_base64 (c.encode_base64 b) ≡ ok b)
      → ((text : Str)
          → c.fields_to_string (header_texts request.headers) ≡ ok text
          → c.headers_from_str text ≡ some (header_texts request.headers))
      → ReadsObjects c cfg met q'.objects worker
      → Entered c cfg met policy request q q' r
      → Enqueued request jobs worker base q q' r
  Entered-Enqueued policy request jobs worker base q q' (err e) decodes parses reads why = why
  Entered-Enqueued policy request jobs worker base q q' (ok accepted) decodes parses reads
        (whole, tenant_id, text, priority, location, m, h, j, grown, loads) =
      let asked = asked_of request tenant_id text in
      (
        whole,
        fields_of c cfg met policy asked priority location,
        m,
        grown,
        fields_of-job_id c cfg met policy asked priority location ∙ ap some (sym j),
        fields_of-load_body c cfg met policy asked priority location whole q'.objects worker decodes
            loads reads,
        fields_of-upstream_request c cfg met policy asked priority location jobs worker base whole
            ∙ rw (parses text h) refl,
      )

  -- Where the bound of bodies is a number of 64 bits, base 64 and the JSON of the request's
  -- headers are read back, and a worker has the object store that is left: where a request is
  -- accepted, one entry is new, in the stream that the answer names; the worker reads from it the
  -- answer's id and the whole body, and makes the request to the upstream with the method and the
  -- path that the headers ask for, or POST and the request's own path, with those of its headers
  -- that are forwarded and with the body. Where it is not accepted, at most one entry is new.
  pub enqueue_job-Enqueued :
      (policy : QueuePolicy) (request : Request) (jobs : spacegate.AiService.Jobs.Model.Config)
      (worker : spacegate.AiService.Jobs.Model.Met) (base : Str) (q : Queue)
      → cfg.bodies.max_body_bytes < 2 ^ 64
      → ((b : List ℕ) → c.decode_base64 (c.encode_base64 b) ≡ ok b)
      → ((text : Str)
          → c.fields_to_string (header_texts request.headers) ≡ ok text
          → c.headers_from_str text ≡ some (header_texts request.headers))
      → ReadsObjects c cfg met (((enqueue_job c cfg met policy request q).0).objects) worker
      → Enqueued request jobs worker base q
          ((enqueue_job c cfg met policy request q).0)
          ((enqueue_job c cfg met policy request q).1)
  unfolding enqueue_job
  enqueue_job-Enqueued policy request jobs worker base q bound decodes parses reads =
      Entered-Enqueued policy request jobs worker base q
        ((enqueue_job c cfg met policy request q).0) ((enqueue_job c cfg met policy request q).1)
        decodes parses reads (with_permit-Entered c cfg met met.permit policy request q bound)
