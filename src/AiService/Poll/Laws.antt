-- ===== src/AiService/Poll/Laws.antt =====
-- What a client reads of a job that was processed.
use spacegate.Common.{
  Bool, true, ℕ, length, ◌≡◌, refl, ap, ◌∙◌, Str, codes, str_eq, str_eq_iff, str_eq_refl, false,
  if◌then◌else◌, Option, none, some, List, [], ◌∷◌, ◌++◌, Bool-cases, inl, inr, arith,
}
use spacegate.Common.Assoc.{get, put, get-put}
use spacegate.Common.Unique.{Unique, put_all, put-Unique}
use spacegate.Common.Result.{Result, ok, err}
use spacegate.AiService.Dates.{format_completed_at_rfc3339}
use spacegate.AiService.Jobs.Model.{
  Fields, StoredResult, UpstreamRequest, UpstreamResponse, Codecs, Config, World, Met,
}
use spacegate.AiService.Jobs.Fields.{field_string}
use spacegate.AiService.Jobs.Process.{process_stream_entry, result_of}
use spacegate.AiService.Jobs.Outcomes.{
  seen, Outcome, idle, counted, lettered, tried, completed, buried,
}
use spacegate.AiService.Jobs.Ran.{answer}
use spacegate.AiService.Jobs.Laws.{process_stream_entry-Outcome}
use spacegate.AiService.Poll.{
  Crates, Answer, octets, not_completed, should_return_upstream_header, insert_header,
  returned_headers, insert_checked, response_of, poll_result_to_response, load_result, job_answer,
  get_job,
}

-- The first of two that is there.
abbrev pub or_else : Option Str → Option Str → Option Str
or_else none b = b
or_else (some a) b = some a

module _ (k : Crates) (c : Codecs) (cfg : Config) where
  -- Names and values that the crate reads as they are.
  abbrev pub AreHeaders : List (Str × Str) → Type 0
  AreHeaders [] = Unit {0}
  AreHeaders ((n, v) ∷ hs) =
      (k.header_name n ≡ some n) × (k.header_value v ≡ some v) × AreHeaders hs

  get-returned_headers :
      (hs headers : List (Str × Str)) (name : Str)
      → AreHeaders hs
      → Unique str_eq hs
      → get str_eq name (returned_headers k c cfg hs headers) ≡ (
          if should_return_upstream_header name
          then or_else (get str_eq name hs) (get str_eq name headers)
          else get str_eq name headers)
  unfolding returned_headers insert_header get
  get-returned_headers [] headers name are u =
      elim (Bool-cases (should_return_upstream_header name)) [
        | inl h ↦ rw (h) refl
        | inr h ↦ rw (h) refl
      ]
  get-returned_headers ((n, v) ∷ hs) headers name (is_name, is_value, are) (free, u) =
      let ih = λ (headers : List (Str × Str)). get-returned_headers hs headers name are u in
      elim (Bool-cases (str_eq name n)) [
        | inl same ↦
            let e : name ≡ n = (str_eq_iff name n).0 same in
            let gone : get str_eq name hs ≡ none = rw (e) free in
            let alike : should_return_upstream_header name ≡ should_return_upstream_header n =
              ap should_return_upstream_header e in
            elim (Bool-cases (should_return_upstream_header n)) [
              | inl kept ↦
                  rw (kept, is_name, is_value)
                    (ih (put str_eq n v headers)
                      ∙ rw (alike, kept, get-put str_eq str_eq_iff n name v headers, same, gone)
                          refl)
              | inr dropped ↦ rw (dropped) (ih headers ∙ rw (alike, dropped) refl)
            ]
        | inr other ↦ elim (Bool-cases (should_return_upstream_header n)) [
          | inl kept ↦
              rw (kept, is_name, is_value)
                (ih (put str_eq n v headers)
                  ∙ rw (get-put str_eq str_eq_iff n name v headers, other) refl)
          | inr dropped ↦ rw (dropped, other) (ih headers)
        ]
      ]

-- The last value of a name.
abbrev pub last_of : Str → List (Str × Str) → Option Str
last_of name [] = none
last_of name ((n, v) ∷ hs) = or_else (last_of name hs) (if str_eq name n then some v else none)

or_else_if :
    (o : Option Str) (b : Bool) (v : Str) (x : Option Str)
    → or_else o (if b then some v else x) ≡ or_else (or_else o (if b then some v else none)) x
or_else_if none true v x = refl
or_else_if none false v x = refl
or_else_if (some w) b v x = refl

get-put_all :
    (name : Str) (hs m : List (Str × Str))
    → get str_eq name (put_all str_eq hs m) ≡ or_else (last_of name hs) (get str_eq name m)
unfolding put_all
get-put_all name [] m = refl
get-put_all name ((n, v) ∷ hs) m =
    get-put_all name hs (put str_eq n v m)
    ∙ ap (or_else (last_of name hs)) (get-put str_eq str_eq_iff n name v m)
    ∙ or_else_if (last_of name hs) (str_eq name n) v (get str_eq name m)

put_all-Unique : (hs m : List (Str × Str)) → Unique str_eq m → Unique str_eq (put_all str_eq hs m)
unfolding put_all
put_all-Unique [] m u = u
put_all-Unique ((n, v) ∷ hs) m u =
    put_all-Unique hs (put str_eq n v m) (put-Unique str_eq str_eq_iff n v m u)

module _ (k : Crates) (c : Codecs) (cfg : Config) where
  put-AreHeaders :
      (n v : Str) (m : List (Str × Str))
      → k.header_name n ≡ some n
      → k.header_value v ≡ some v
      → AreHeaders k c cfg m
      → AreHeaders k c cfg (put str_eq n v m)
  unfolding put
  put-AreHeaders n v [] is_name is_value are = (is_name, is_value, tt)
  put-AreHeaders n v ((j, w) ∷ m) is_name is_value (x, y, are) = elim (Bool-cases (str_eq n j)) [
    | inl e ↦ rw (put, e) (x, is_value, are)
    | inr e ↦ rw (put, e) (x, y, put-AreHeaders n v m is_name is_value are)
  ]

  put_all-AreHeaders :
      (hs m : List (Str × Str))
      → AreHeaders k c cfg hs
      → AreHeaders k c cfg m
      → AreHeaders k c cfg (put_all str_eq hs m)
  unfolding put_all
  put_all-AreHeaders [] m are are' = are'
  put_all-AreHeaders ((n, v) ∷ hs) m (is_name, is_value, are) are' =
      put_all-AreHeaders hs (put str_eq n v m) are (put-AreHeaders n v m is_name is_value are')

  or_else-none : (o : Option Str) → or_else o none ≡ o
  or_else-none none = refl
  or_else-none (some s) = refl

  -- The headers of a response, collected and returned.
  get-returned :
      (hs headers : List (Str × Str)) (name : Str)
      → AreHeaders k c cfg hs
      → get str_eq name (returned_headers k c cfg (put_all str_eq hs []) headers) ≡ (
          if should_return_upstream_header name
          then or_else (last_of name hs) (get str_eq name headers)
          else get str_eq name headers)
  unfolding get
  get-returned hs headers name are =
      get-returned_headers k c cfg (put_all str_eq hs []) headers name
        (put_all-AreHeaders hs [] are tt) (put_all-Unique hs [] tt)
      ∙ ap
          (λ o.
            if should_return_upstream_header name
            then or_else o (get str_eq name headers)
            else get str_eq name headers)
          (get-put_all name hs [] ∙ or_else-none (last_of name hs))

-- What the crates for texts read back.
pub record ReadsBack (k : Crates) (c : Codecs) : Type 0 where
  pub result_back :
      (r : StoredResult) (text : Str)
      → c.result_to_string r ≡ ok text
      → k.result_from_str text ≡ some r
  pub base64_back : (b : List ℕ) → c.decode_base64 (c.encode_base64 b) ≡ ok b

module _ (k : Crates) (c : Codecs) (cfg : Config) (met : Met) (job : Str) where
  -- An upstream's response, as the crates give it.
  abbrev pub IsResponse : Result Str UpstreamResponse → Type 0
  IsResponse (err e) = Unit {0}
  IsResponse (ok r) = (k.status_from_u16 r.status ≡ some r.status) × AreHeaders k c cfg r.headers

  -- The answer for what the upstream gave: its status, its body and its headers, without those of
  -- the connection, and the job's id; or that the job failed.
  abbrev pub Polled : Result Str UpstreamResponse → Answer → Type 0
  Polled (err e) a =
      a ≡ not_completed job (codes "failed") 502 (some e) (format_completed_at_rfc3339 met.now_ms)
  Polled (ok r) a =
      (headers : List (Str × Str)) × (a ≡ octets r.status headers r.body)
      × (get str_eq (codes "x-job-id") headers ≡ some job)
      × ((name : Str)
          → str_eq name (codes "x-job-id") ≡ false
          → get str_eq name headers ≡ (
              if should_return_upstream_header name
              then or_else (last_of name r.headers) (get str_eq name k.octets_headers)
              else get str_eq name k.octets_headers))

  job_answer-Polled :
      (r : Result Str UpstreamResponse)
      → ReadsBack k c
      → k.header_value job ≡ some job
      → IsResponse r
      → (a : Answer) × (job_answer k c cfg job (ok (some (result_of c cfg met job r))) ≡ ok a)
        × Polled r a
  unfolding job_answer result_of poll_result_to_response response_of insert_checked
  job_answer-Polled (err e) back is_job h = (_, refl, refl)
  job_answer-Polled (ok r) back is_job (status, are) =
      let rest = returned_headers k c cfg (put_all str_eq r.headers []) k.octets_headers in
      let x_job_id = codes "x-job-id" in
      (
        octets r.status (put str_eq x_job_id job rest) r.body,
        rw
            (
              poll_result_to_response,
              response_of,
              back.base64_back r.body,
              insert_checked,
              is_job,
              status,
            )
            refl,
        (
          put str_eq x_job_id job rest,
          refl,
          rw (get-put str_eq str_eq_iff x_job_id x_job_id job rest) refl,
          λ name other.
              rw (get-put str_eq str_eq_iff x_job_id name job rest, other)
                (get-returned k c cfg r.headers k.octets_headers name are),
        ),
      )

  load_result-back :
      (w : World) (r : StoredResult) (text : Str)
      → ReadsBack k c
      → get str_eq (cfg.result_key_prefix ++ job) w.results ≡ some text
      → c.result_to_string r ≡ ok text
      → load_result k c cfg (ok tt) w job ≡ ok (some r)
  unfolding load_result
  load_result-back w r text back found written =
      rw (load_result, found, back.result_back r text written) refl

  -- An entry that was acknowledged behind a request has the text of its result stored.
  completed-stored :
      (stream entry : Str) (req : UpstreamRequest) (w w' : World)
      → Outcome job stream entry cfg.job_max_delivery_attempts
          (cfg.result_key_prefix ++ job)
          (answer c cfg met job)
          (seen w)
          (seen w')
      → w'.acked ≡ (stream, entry) ∷ w.acked
      → w'.sent ≡ (job, req) ∷ w.sent
      → (text : Str) × (answer c cfg met job req ≡ ok text)
        × (get str_eq (cfg.result_key_prefix ++ job) w'.results ≡ some text)
  completed-stored stream entry req w w' (idle same) acked sent =
      absurd (omega (arith, ap (λ z. length z.acked) same, ap length acked))
  completed-stored stream entry req w w' (counted a t f d n) acked sent =
      absurd (omega (arith, ap length a, ap length acked))
  completed-stored stream entry req w w' (lettered l a t f d n i) acked sent =
      absurd (omega (arith, ap length a, ap length acked))
  completed-stored stream entry req w w' (tried r a t f d n few) acked sent =
      absurd (omega (arith, ap length a, ap length acked))
  completed-stored stream entry req w w' (completed r a t (json, written, stored) d few) acked
        sent =
      let same : req ≡ r = cc in
      let key = cfg.result_key_prefix ++ job in
      (
        json,
        ap (answer c cfg met job) same ∙ written,
        ap (get str_eq key) stored
            ∙ rw (get-put str_eq str_eq_iff key key json w.results, str_eq_refl key) refl,
      )
  completed-stored stream entry req w w' (buried l a t f d i) acked sent =
      absurd (omega (arith, ap length t, ap length sent))

  -- Where base 64 and the JSON of results are read back, a job's id can stand in a header, and the
  -- upstream's response has a status and headers as the crates give them: behind a run of a job's
  -- entry that sends a request and acknowledges the entry, a poll answers with the upstream's
  -- status and body for that request, the job's id in x-job-id, and for every other name the last
  -- of the upstream's headers of that name, but for those of the connection; where there is none,
  -- or the name is one of the connection, the header is that of an answer made of bytes; where the
  -- upstream could not be reached, it answers that the job failed with 502, the upstream's error
  -- and the time of the run.
  pub get_job-Polled :
      (stream entry : Str) (fields : Fields) (w : World) (req : UpstreamRequest)
      → ReadsBack k c
      → field_string c fields (codes "job_id") ≡ some job
      → k.header_value job ≡ some job
      → IsResponse (met.upstream req)
      → (process_stream_entry c cfg met stream entry fields w).0.acked ≡ (stream, entry) ∷ w.acked
      → (process_stream_entry c cfg met stream entry fields w).0.sent ≡ (job, req) ∷ w.sent
      → (a : Answer) × (get_job k c cfg
            (ok tt)
            ((process_stream_entry c cfg met stream entry fields w).0)
            job
          ≡ ok a)
        × Polled (met.upstream req) a
  unfolding get_job
  get_job-Polled stream entry fields w req back j is_job response acked sent =
      let w' = (process_stream_entry c cfg met stream entry fields w).0 in
      let (text, written, found) =
        completed-stored stream entry req w w'
          (process_stream_entry-Outcome c cfg met job stream entry fields w j) acked sent in
      let (a, answered, polled) = job_answer-Polled (met.upstream req) back is_job response in
      let loaded =
        load_result-back w' (result_of c cfg met job (met.upstream req)) text back found written in
      (a, ap (job_answer k c cfg job) loaded ∙ answered, polled)
