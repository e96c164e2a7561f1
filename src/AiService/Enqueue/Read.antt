-- ===== src/AiService/Enqueue/Read.antt =====
-- What a worker reads of the fields of an entry.
use spacegate.Common.{
  ℕ, ◌≡◌, refl, Str, codes, str_eq, trim_end_matches, some, List, [], ◌++◌, inl, inr,
}
use spacegate.Common.Assoc.{get}
use spacegate.Common.Result.{ok}
use spacegate.AiService.Bodies.{Objects, BodyLocation, body_ref}
use spacegate.AiService.Bodies.Laws.{Loads}
use spacegate.AiService.Streams.{QueuePolicy, QueuePriority}
use spacegate.AiService.Jobs.Model.{Fields, Codecs, UpstreamRequest}
use spacegate.AiService.Jobs.Model
use spacegate.AiService.Jobs.Fields.{unwrap_or, field_string, load_body, kept_headers}
use spacegate.AiService.Jobs.Process.{upstream_request}
use spacegate.AiService.Enqueue.{Config, Call, Asked, fields_of}

module _ (c : Codecs) (cfg : Config) (met : Call) where
  -- The object store as a worker meets it.
  abbrev pub ReadsObjects : Objects → spacegate.AiService.Jobs.Model.Met → Type 0
  ReadsObjects w worker =
      (object_ref : Str) (b : List ℕ)
      → get str_eq object_ref w.objects ≡ some b
      → worker.object object_ref ≡ ok b

  pub fields_of-load_body :
      (policy : QueuePolicy) (asked : Asked) (priority : QueuePriority) (location : BodyLocation)
      (whole : List ℕ) (w : Objects) (worker : spacegate.AiService.Jobs.Model.Met)
      → ((b : List ℕ) → c.decode_base64 (c.encode_base64 b) ≡ ok b)
      → Loads cfg.bodies met.answers c.encode_base64
          (body_ref cfg.bodies met.job_id)
          whole
          w
          location
      → ReadsObjects w worker
      → load_body c worker (fields_of c cfg met policy asked priority location) ≡ ok whole
  unfolding field_string load_body get
  fields_of-load_body policy asked priority location whole w worker decodes
        (inl (inline, text, size)) reads =
      rw (load_body, inline, text) (decodes whole)
  fields_of-load_body policy asked priority location whole w worker decodes
        (inr (object, name, found)) reads =
      rw (load_body, object, name) (reads (body_ref cfg.bodies met.job_id) whole found)

  pub fields_of-job_id :
      (policy : QueuePolicy) (asked : Asked) (priority : QueuePriority) (location : BodyLocation)
      → field_string c (fields_of c cfg met policy asked priority location) (codes "job_id")
        ≡ some met.job_id
  unfolding field_string get
  fields_of-job_id policy asked priority location = refl

  -- The request that a job asks for, by what its request asked for.
  pub fields_of-upstream_request :
      (policy : QueuePolicy) (asked : Asked) (priority : QueuePriority) (location : BodyLocation)
      (jobs : spacegate.AiService.Jobs.Model.Config) (worker : spacegate.AiService.Jobs.Model.Met)
      (base : Str) (whole : List ℕ)
      → upstream_request c jobs worker base
          (fields_of c cfg met policy asked priority location)
          whole
        ≡ record {
          method = unwrap_or (codes "POST") (c.parse_method asked.original_method);
          url = trim_end_matches b'/' base ++ asked.original_path;
          headers = kept_headers (unwrap_or [] (c.headers_from_str asked.request_headers));
          body = whole;
        }
  unfolding upstream_request field_string get
  fields_of-upstream_request policy asked priority location jobs worker base whole = refl
