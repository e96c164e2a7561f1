-- ===== src/Tests/StoredText.antt =====
-- A text form of stored results that is read back.
use spacegate.Common.{
  ℕ, zero, suc, length, take, drop, ◌≡◌, refl, ap, Str, Option, none, some, List, [], ◌∷◌, ◌++◌,
}
use spacegate.AiService.Jobs.Model.{StoredResult}

abbrev put_text : Str → Str → Str
put_text s rest = length s ∷ (s ++ rest)

abbrev get_text : Str → Str × Str
get_text [] = ([], [])
get_text (n ∷ t) = (take n t, drop n t)

abbrev put_pairs : List (Str × Str) → Str → Str
put_pairs [] rest = rest
put_pairs ((n, v) ∷ hs) rest = put_text n (put_text v (put_pairs hs rest))

abbrev get_pairs : ℕ → Str → List (Str × Str) × Str
get_pairs zero t = ([], t)
get_pairs (suc k) t =
    let (n, t) = get_text t in
    let (v, t) = get_text t in let (hs, t) = get_pairs k t in ((n, v) ∷ hs, t)

abbrev put_error : Option Str → Str
put_error none = []
put_error (some e) = 0 ∷ e

abbrev get_error : Str → Option Str
get_error [] = none
get_error (n ∷ e) = some e

unfoldable pub text_of : StoredResult → Str
text_of r =
    r.http_status
    ∷ r.completed_at_ms
    ∷ length r.headers
    ∷ put_text r.job_id
        (put_text r.status (put_text r.body_base64 (put_pairs r.headers (put_error r.error))))

unfoldable pub read_text : Str → Option StoredResult
read_text (http_status ∷ completed_at_ms ∷ n ∷ t) =
    let (job_id, t) = get_text t in
    let (status, t) = get_text t in
    let (body_base64, t) = get_text t in
    let (headers, t) = get_pairs n t in
    some (record {
      job_id = job_id;
      status = status;
      http_status = http_status;
      headers = headers;
      body_base64 = body_base64;
      completed_at_ms = completed_at_ms;
      error = get_error t;
    })
read_text (m ∷ n ∷ []) = none
read_text (n ∷ []) = none
read_text [] = none

take-text : (s t : Str) → take (length s) (s ++ t) ≡ s
take-text [] t = refl
take-text (c ∷ s) t = ap (λ l. c ∷ l) (take-text s t)

drop-text : (s t : Str) → drop (length s) (s ++ t) ≡ t
drop-text [] t = refl
drop-text (c ∷ s) t = drop-text s t

get-put_text : (s t : Str) → get_text (put_text s t) ≡ (s, t)
get-put_text s t = rw (take-text s t, drop-text s t) refl

get-put_pairs : (hs : List (Str × Str)) (t : Str) → get_pairs (length hs) (put_pairs hs t) ≡ (hs, t)
get-put_pairs [] t = refl
get-put_pairs ((n, v) ∷ hs) t =
    rw
      (
        take-text n (put_text v (put_pairs hs t)),
        drop-text n (put_text v (put_pairs hs t)),
        take-text v (put_pairs hs t),
        drop-text v (put_pairs hs t),
        get-put_pairs hs t,
      )
      refl

get-put_error : (e : Option Str) → get_error (put_error e) ≡ e
get-put_error none = refl
get-put_error (some e) = refl

pub read-text_of : (r : StoredResult) → read_text (text_of r) ≡ some r
unfolding read_text text_of
read-text_of r =
    let errors = put_error r.error in
    let pairs = put_pairs r.headers errors in
    rw
      (
        take-text r.job_id (put_text r.status (put_text r.body_base64 pairs)),
        drop-text r.job_id (put_text r.status (put_text r.body_base64 pairs)),
        take-text r.status (put_text r.body_base64 pairs),
        drop-text r.status (put_text r.body_base64 pairs),
        take-text r.body_base64 pairs,
        drop-text r.body_base64 pairs,
        get-put_pairs r.headers errors,
        get-put_error r.error,
      )
      refl
