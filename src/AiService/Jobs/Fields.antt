-- ===== src/AiService/Jobs/Fields.antt =====
-- The fields of an entry and the keys of a job: field_string, field_bytes, should_forward_header and
-- sanitize_key of util.rs, load_body of object_store.rs.
use spacegate.Common.{
  ℕ, suc, not, if◌then◌else◌, Str, codes, str_eq, to_ascii_lowercase, Bool, any, Option, none, some,
  List, [], ◌∷◌, ◌++◌,
}
use spacegate.Common.Assoc.{get}
use spacegate.Common.Int.{ℤ, pos, negsuc}
use spacegate.Common.Parse.{decimal}
use spacegate.Common.Result.{Result, ok, err}
use spacegate.AiService.Rules.{ServiceError, bad_request, sanitize_key}
use spacegate.AiService.Jobs.Model.{string, bytes, integer, other, Fields, Codecs, Met}

abbrev pub unwrap_or {ℓ} : {A : Type ℓ} → A → Option A → A
unwrap_or d none = d
unwrap_or d (some a) = a

abbrev pub int_text : ℤ → Str
int_text (pos n) = decimal n
int_text (negsuc n) = b'-' ∷ decimal (suc n)

unfoldable pub should_forward_header : Str → Bool
should_forward_header name =
    let name = to_ascii_lowercase name in
    not (
      any (str_eq name) (
        codes "host"
        ∷ codes "connection"
        ∷ codes "content-length"
        ∷ codes "transfer-encoding"
        ∷ codes "x-original-method"
        ∷ codes "x-original-path"
        ∷ codes "x-ratelimit-policy"
        ∷ codes "x-callback-url"
        ∷ codes "x-request-timeout"
        ∷ []))

abbrev pub kept_headers : List (Str × Str) → List (Str × Str)
kept_headers [] = []
kept_headers ((n, v) ∷ hs) =
    let rest = kept_headers hs in if should_forward_header n then (n, v) ∷ rest else rest

unfoldable pub job_lease_key : Str → Str
job_lease_key job_id = codes "ai:job:lease:" ++ sanitize_key job_id

unfoldable pub job_attempt_key : Str → Str
job_attempt_key job_id = codes "ai:job:attempt:" ++ sanitize_key job_id

module _ (c : Codecs) where
  unfoldable pub field_string : Fields → Str → Option Str
  field_string fields key = elim (get str_eq key fields) [
    | none ↦ none
    | some (string s) ↦ some s
    | some (bytes b) ↦ c.from_utf8 b
    | some (integer i) ↦ some (int_text i)
    | some other ↦ none
  ]

  unfoldable pub field_bytes : Fields → Str → Option (List ℕ)
  field_bytes fields key = elim (get str_eq key fields) [
    | none ↦ none
    | some (string s) ↦ some (c.as_bytes s)
    | some (bytes b) ↦ some b
    | some (integer i) ↦ none
    | some other ↦ none
  ]

  abbrev pub texts_of : Fields → Fields → List (Str × Str)
  texts_of all [] = []
  texts_of all ((k, v) ∷ fs) = (k, unwrap_or (c.debug v) (field_string all k)) ∷ texts_of all fs

  unfoldable pub stream_fields_to_json : Fields → Result ServiceError Str
  stream_fields_to_json fields = c.fields_to_string (texts_of fields fields)

  unfoldable pub load_body : Met → Fields → Result ServiceError (List ℕ)
  load_body met fields =
      if str_eq (unwrap_or (codes "inline") (field_string fields (codes "storage")))
        (codes "object")
      then elim (field_string fields (codes "ref")) [
        | none ↦ err (bad_request (codes "job body is missing object ref"))
        | some object_ref ↦ met.object object_ref
      ]
      else elim (field_string fields (codes "body")) [
        | some body_base64 ↦ c.decode_base64 body_base64
        | none ↦ ok (unwrap_or [] (field_bytes fields (codes "body")))
      ]
