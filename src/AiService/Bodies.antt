-- ===== src/AiService/Bodies.antt =====
-- The body of a request on its way to the queue: store_body and finish_offload_upload of
-- binary/ai-gateway-service/src/app/object_store.rs. The object store keeps the parts of the upload
-- under way and puts together what the completion names; which calls it refuses is an argument.
pub mod Uploads
pub mod Reads
pub mod Finish
pub mod Laws
use spacegate.Common.{
  ℕ, zero, suc, ◌+◌, ◌*◌, ◌^◌, max, ltb, leb, ◌==◌, ◌&&◌, ◌||◌, not, if◌then◌else◌, Str, codes,
  str_eq, is_empty, trim_matches, Option, none, some, List, [], ◌∷◌, ◌++◌, length, take, drop,
}
use spacegate.Common.Assoc.{get, put}
use spacegate.Common.Result.{Result, ok, err}
use spacegate.AiService.Rules.{ServiceError, bad_request, internal, payload_too_large, sanitize_key}
use spacegate.AiService.Metrics.{add}
use spacegate.AiService.Effects.{M, ◌>>=◌, ◌>>◌, pure, fail, lift, change}

pub record Config : Type 0 where
  pub object_store_endpoint : Option Str
  pub object_store_prefix : Str
  pub object_multipart_part_size : ℕ
  pub max_body_bytes : ℕ
  pub inline_threshold : ℕ

pub record CompletedPart : Type 0 where
  pub part_number : ℕ
  pub etag : Str

-- The last part of a number counts.
pub record Objects : Type 0 where
  pub parts : List (ℕ × List ℕ)
  pub objects : List (Str × List ℕ)
  pub object_offload_total : ℕ
  pub object_multipart_abort_total : ℕ

-- What the object store answers: the id of an upload and the tag of a part, or a refusal.
pub record Answers : Type 0 where
  pub initiate : Result ServiceError Str
  pub upload_part : ℕ → Result ServiceError Str
  pub complete : Result ServiceError (Unit {0})
  pub abort : Result ServiceError (Unit {0})

pub record BodyLocation : Type 0 where
  pub body_base64 : Str
  pub object_ref : Str
  pub size : ℕ
  pub storage : Str

-- A body by its chunks, of which one may not be read.
abbrev pub Body : Type 0
Body = List (Result Str (List ℕ))

-- A body that is in the entry, or what is left to be uploaded.
pub data BodyStoreOutcome : Type 0 where
  stored : BodyLocation → BodyStoreOutcome
  pending_upload : BodyLocation → Str → List ℕ → Body → ℕ → BodyStoreOutcome

abbrev pub both : Option (List ℕ) → Option (List ℕ) → Option (List ℕ)
both none rest = none
both (some b) none = none
both (some b) (some rest) = some (b ++ rest)

abbrev pub assemble : List (ℕ × List ℕ) → List CompletedPart → Option (List ℕ)
assemble parts [] = some []
assemble parts (p ∷ ps) = both (get (λ a b. a == b) p.part_number parts) (assemble parts ps)

-- The size with one more chunk, on 64 bits and within the bound.
unfoldable pub add_size : ℕ → ℕ → ℕ → Option ℕ
add_size bound total n =
    if ltb (total + n) (2 ^ 64) && not (ltb bound (total + n)) then some (total + n) else none

-- By the size: it overflows, or is above the bound.
abbrev pub too_large : ℕ → ServiceError
too_large size = payload_too_large (
    if ltb size (2 ^ 64)
    then codes "request body exceeds max size"
    else codes "request body is too large")

-- Where a body gets too long for the entry: by the address of the object store and its answer.
unfoldable pub offload :
    Option Str → Result ServiceError Str → Str → List ℕ → Body → ℕ → M Objects BodyStoreOutcome
offload none started object_ref pending stream total_size =
    fail (payload_too_large (codes "request body exceeds inline threshold"))
offload (some endpoint) started object_ref pending stream total_size = do
  upload_id ← lift started
  change λ w. record w { parts = [] }
  pure (
      pending_upload
        (record {
          body_base64 = [];
          object_ref = object_ref;
          size = total_size;
          storage = codes "object";
        })
        upload_id pending stream total_size)

unfoldable pub body_ref : Config → Str → Str
body_ref cfg job_id =
    trim_matches b'/' cfg.object_store_prefix ++ b'/' ∷ sanitize_key job_id ++ codes "/body.bin"

module _ (cfg : Config) (met : Answers) where
  abbrev pub part_size : ℕ
  part_size = max cfg.object_multipart_part_size (5 * 1024 * 1024)

  unfoldable pub upload_multipart_part : ℕ → List ℕ → M Objects CompletedPart
  upload_multipart_part part_number body w = elim (met.upload_part part_number) [
    | err e ↦ (w, err e)
    | ok etag ↦ (
      record w { parts = (part_number, body) ∷ w.parts },
      ok (record { part_number = part_number; etag = etag }),
    )
  ]

  unfoldable pub complete_multipart_upload : Str → List CompletedPart → M Objects (Unit {0})
  complete_multipart_upload object_ref parts w = elim met.complete [
    | err e ↦ (w, err e)
    | ok done ↦ elim (assemble w.parts parts) [
      | none ↦ (w, err (internal (codes "InvalidPart")))
      | some b ↦ (record w { parts = []; objects = put str_eq object_ref b w.objects }, ok tt)
    ]
  ]

  unfoldable pub abort_upload : M Objects (Unit {0})
  abort_upload w =
      let w = record w { object_multipart_abort_total = add w.object_multipart_abort_total 1 } in
      elim met.abort [ err e ↦ (w, ok tt) | ok done ↦ (record w { parts = [] }, ok tt) ]

  -- Parts of the full size, on fuel.
  unfoldable pub upload_full :
      ℕ → List ℕ → List CompletedPart → M Objects (List ℕ × List CompletedPart)
  upload_full zero pending parts = pure (pending, parts)
  upload_full (suc n) pending parts =
      if leb part_size (length pending)
      then (do
        part ← upload_multipart_part (length parts + 1) (take part_size pending)
        upload_full n (drop part_size pending) (parts ++ part ∷ []))
      else pure (pending, parts)

  -- The chunks behind those that are pending.
  unfoldable pub read_on :
      Body → ℕ → List ℕ → List CompletedPart → M Objects (List ℕ × List CompletedPart)
  read_on [] total_size pending parts = pure (pending, parts)
  read_on (err e ∷ stream) total_size pending parts = fail (bad_request e)
  read_on (ok chunk ∷ stream) total_size pending parts =
      elim (add_size cfg.max_body_bytes total_size (length chunk)) [
        | none ↦
            if ltb (total_size + length chunk) (2 ^ 64)
            then (do abort_upload; fail (payload_too_large (codes "request body exceeds max size")))
            else fail (payload_too_large (codes "request body is too large"))
        | some total_size ↦ do
          let pending = pending ++ chunk
          r ← upload_full (length pending) pending parts
          read_on stream total_size (r.0) (r.1)
      ]

  unfoldable pub upload_last : List ℕ → List CompletedPart → M Objects (List CompletedPart)
  upload_last pending parts =
      if not (is_empty pending) || is_empty parts
      then (do part ← upload_multipart_part (length parts + 1) pending; pure (parts ++ part ∷ []))
      else pure parts

  unfoldable pub upload_result : Str → List ℕ → Body → ℕ → M Objects (Unit {0})
  upload_result object_ref pending stream total_size = do
    first ← upload_full (length pending) pending []
    r ← read_on stream total_size (first.0) (first.1)
    parts ← upload_last (r.0) (r.1)
    complete_multipart_upload object_ref parts
    change λ w. record w { object_offload_total = add w.object_offload_total 1 }

  -- Behind the upload: a failed one is given up.
  unfoldable pub or_abort :
      Objects × Result ServiceError (Unit {0}) → Objects × Result ServiceError (Unit {0})
  or_abort (w, ok done) = (w, ok done)
  or_abort (w, err e) = (do abort_upload; fail e) w

  unfoldable pub finish_offload_upload : Str → List ℕ → Body → ℕ → M Objects (Unit {0})
  finish_offload_upload object_ref pending stream total_size w =
      or_abort (upload_result object_ref pending stream total_size w)

  -- Behind the size of a chunk.
  unfoldable pub store_chunks :
      (List ℕ → Str) → Str → Body → ℕ → List ℕ → M Objects BodyStoreOutcome
  store_chunks encode object_ref [] total_size pending = pure (
      stored (record {
        body_base64 = encode pending;
        object_ref = [];
        size = total_size;
        storage = codes "inline";
      }))
  store_chunks encode object_ref (err e ∷ stream) total_size pending = fail (bad_request e)
  store_chunks encode object_ref (ok chunk ∷ stream) total_size pending =
      elim (add_size cfg.max_body_bytes total_size (length chunk)) [
        | none ↦ fail (too_large (total_size + length chunk))
        | some total_size ↦
            if ltb cfg.inline_threshold (length pending + length chunk)
            then offload cfg.object_store_endpoint met.initiate object_ref (pending ++ chunk) stream
                total_size
            else store_chunks encode object_ref stream total_size (pending ++ chunk)
      ]

  unfoldable pub store_body : (List ℕ → Str) → Str → Body → M Objects BodyStoreOutcome
  store_body encode job_id body = store_chunks encode (body_ref cfg job_id) body 0 []

  -- The wait for the upload.
  unfoldable pub joined : BodyStoreOutcome → M Objects BodyLocation
  joined (stored location) = pure location
  joined (pending_upload location upload_id pending stream total_size) = do
    finish_offload_upload location.object_ref pending stream total_size
    pure location

  unfoldable pub waited : M Objects BodyStoreOutcome → M Objects BodyLocation
  waited storing = do outcome ← storing; joined outcome

  unfoldable pub store_whole_body : (List ℕ → Str) → Str → Body → M Objects BodyLocation
  store_whole_body encode job_id body = waited (store_body encode job_id body)
