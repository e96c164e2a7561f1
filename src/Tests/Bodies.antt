-- ===== src/Tests/Bodies.antt =====
-- Bodies on their way to the queue.
use spacegate.Common.{◌≡◌, refl, arith, codes, some, [], ◌∷◌}
use spacegate.Common.Assoc.{get, put}
use spacegate.Common.Result.{ok}
use spacegate.AiService.Rules.{sanitize_key, sanitize_code}
use spacegate.AiService.Bodies.{
  Config, Objects, Answers, Body, body_ref, store_whole_body, waited, store_body, store_chunks,
  offload, joined, finish_offload_upload, or_abort, upload_result, upload_full, read_on,
  upload_last, abort_upload, upload_multipart_part, complete_multipart_upload, add_size,
}
use spacegate.AiService.Bodies.Laws.{Stored, store_whole_body-Stored}

abbrev small : Config
small = record {
  object_store_endpoint = some (codes "http://o");
  object_store_prefix = codes "ai";
  object_multipart_part_size = 0;
  max_body_bytes = 3;
  inline_threshold = 1;
}

abbrev works : Answers
works = record {
  initiate = ok (codes "u");
  upload_part = λ n. ok (codes "e");
  complete = ok tt;
  abort = ok tt;
}

abbrev empty : Objects
empty = record {
  parts = [];
  objects = [];
  object_offload_total = 0;
  object_multipart_abort_total = 0;
}

abbrev three_bytes : Body
three_bytes = ok (1 ∷ []) ∷ ok (2 ∷ []) ∷ ok (3 ∷ []) ∷ []

store_whole_body-Stored_example :
    Stored small works
      (λ b. b)
      (body_ref small (codes "j"))
      []
      []
      three_bytes
      ((store_whole_body small works (λ b. b) (codes "j") three_bytes empty).0)
      ((store_whole_body small works (λ b. b) (codes "j") three_bytes empty).1)
store_whole_body-Stored_example =
    store_whole_body-Stored small works (λ b. b) (codes "j") three_bytes empty (omega arith)

-- The whole body is an object; the size that is told is the one of its first two chunks.
told_size :
    let r = store_whole_body small works (λ b. b) (codes "j") three_bytes empty in
    ((r.0).objects ≡ (codes "ai/j/body.bin", 1 ∷ 2 ∷ 3 ∷ []) ∷ [])
    × (r.1
        ≡ ok (record {
          body_base64 = [];
          object_ref = codes "ai/j/body.bin";
          size = 2;
          storage = codes "object";
        }))
unfolding store_whole_body waited store_body store_chunks offload joined finish_offload_upload
    or_abort upload_result upload_full read_on upload_last upload_multipart_part
    complete_multipart_upload add_size body_ref sanitize_key sanitize_code get put
told_size = (refl, refl)

-- A body that gets too long while it is uploaded is given up twice.
aborted_twice :
    ((store_whole_body small works
      (λ b. b)
      (codes "j")
      (ok (1 ∷ 2 ∷ []) ∷ ok (3 ∷ 4 ∷ []) ∷ [])
      empty).0
    ).object_multipart_abort_total
    ≡ 2
unfolding store_whole_body waited store_body store_chunks offload joined finish_offload_upload
    or_abort upload_result upload_full read_on abort_upload add_size body_ref
aborted_twice = refl
