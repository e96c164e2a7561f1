-- ===== src/AiService/Bodies/Uploads.antt =====
-- The parts of an upload and what they are put together to.
use mathlib.Core.List.{append_assoc, append-nil}
use spacegate.Common.{
  ℕ, zero, suc, ◌+◌, leb, ◌==◌, Str, ◌≡◌, refl, ap, ap₂, ◌∙◌, ◌≤◌, ◌<◌, arith, Option, none, some,
  List, [], ◌∷◌, ◌++◌, length, take, drop, take-drop, length-append, length-drop, All, Bool-cases,
  inl, inr, true, false,
}
use spacegate.Common.Assoc.{get}
use spacegate.Common.Result.{Result, ok, err, Result-cases}
use spacegate.AiService.Rules.{ServiceError}
use spacegate.AiService.Bodies.{
  Config, CompletedPart, Objects, Answers, both, assemble, part_size, upload_multipart_part,
  upload_full,
}

abbrev pub Numbered : ℕ → List CompletedPart → Type 0
Numbered n cs = All (λ p. p.part_number ≤ n) cs

-- The parts of an upload are numbered within their count, and are put together to these bytes.
pub record IsUploaded (parts : List (ℕ × List ℕ)) (completed : List CompletedPart) (b : List ℕ)
    : Type 0 where
  pub numbered : Numbered (length completed) completed
  pub whole : assemble parts completed ≡ some b

Numbered-one_more :
    (n : ℕ) (cs : List CompletedPart) (p : CompletedPart)
    → Numbered n cs
    → p.part_number ≡ n + 1
    → Numbered (n + 1) (cs ++ p ∷ [])
Numbered-one_more n [] p h e = (omega arith, tt)
Numbered-one_more n (c ∷ cs) p (k, h) e = (omega arith, Numbered-one_more n cs p h e)

get-later :
    (parts : List (ℕ × List ℕ)) (m n : ℕ) (x : List ℕ)
    → m ≤ n
    → get (λ a b. a == b) m ((n + 1, x) ∷ parts) ≡ get (λ a b. a == b) m parts
unfolding get
get-later parts m n x h = let other : (m == n + 1) ≡ false = ground arith in rw (other) refl

get-last :
    (parts : List (ℕ × List ℕ)) (n : ℕ) (x : List ℕ)
    → get (λ a b. a == b) n ((n, x) ∷ parts) ≡ some x
unfolding get
get-last parts n x = let same : (n == n) ≡ true = ground arith in rw (same) refl

assemble-later :
    (parts : List (ℕ × List ℕ)) (cs : List CompletedPart) (n : ℕ) (x : List ℕ)
    → Numbered n cs
    → assemble ((n + 1, x) ∷ parts) cs ≡ assemble parts cs
assemble-later parts [] n x h = refl
assemble-later parts (c ∷ cs) n x (k, h) =
    ap₂ both (get-later parts c.part_number n x k) (assemble-later parts cs n x h)

both_assoc : (m r n : Option (List ℕ)) → both m (both r n) ≡ both (both m r) n
both_assoc none r n = refl
both_assoc (some a) none n = refl
both_assoc (some a) (some r) none = refl
both_assoc (some a) (some r) (some x) = rw (append_assoc a r x) refl

assemble-append :
    (parts : List (ℕ × List ℕ)) (cs : List CompletedPart) (p : CompletedPart) (x : List ℕ)
    → get (λ a b. a == b) p.part_number parts ≡ some x
    → assemble parts (cs ++ p ∷ []) ≡ both (assemble parts cs) (some x)
assemble-append parts [] p x k = rw (k, append-nil) refl
assemble-append parts (c ∷ cs) p x k =
    rw (assemble-append parts cs p x k)
      (both_assoc (get (λ a b. a == b) c.part_number parts) (assemble parts cs) (some x))

pub IsUploaded-one_more :
    (parts : List (ℕ × List ℕ)) (cs : List CompletedPart) (b x : List ℕ) (etag : Str)
    → IsUploaded parts cs b
    → IsUploaded
        ((length cs + 1, x) ∷ parts)
        (cs ++ record { part_number = length cs + 1; etag = etag } ∷ [])
        (b ++ x)
IsUploaded-one_more parts cs b x etag h = record {
  numbered = rw (length-append cs (record { part_number = length cs + 1; etag = etag } ∷ [])) (
      Numbered-one_more (length cs) cs (record { part_number = length cs + 1; etag = etag })
        h.numbered refl);
  whole =
      assemble-append ((length cs + 1, x) ∷ parts) cs
        (record { part_number = length cs + 1; etag = etag }) x (get-last parts (length cs + 1) x)
      ∙ ap (λ m. both m (some x)) (assemble-later parts cs (length cs) x h.numbered ∙ h.whole);
}

module _ (cfg : Config) (met : Answers) where
  -- What the object store may refuse.
  pub data Refused (e : ServiceError) : Type 0 where
    at_initiate : met.initiate ≡ err e → Refused e
    at_part : (n : ℕ) → met.upload_part n ≡ err e → Refused e
    at_complete : met.complete ≡ err e → Refused e

  -- Bytes that are uploaded, and those that are pending behind them.
  abbrev pub Held : List (Str × List ℕ) → List ℕ → Objects → List ℕ × List CompletedPart → Type 0
  Held objects whole w' r =
      (b : List ℕ) × IsUploaded w'.parts (r.1) b × (b ++ r.0 ≡ whole) × (w'.objects ≡ objects)

  abbrev pub Full :
      List (Str × List ℕ)
      → List ℕ
      → Objects
      → Result ServiceError (List ℕ × List CompletedPart)
      → Type 0
  Full objects whole w' (ok r) = Held objects whole w' r × (length (r.0) < part_size cfg met)
  Full objects whole w' (err e) = (w'.objects ≡ objects) × Refused e

  pub upload_full-Full :
      (n : ℕ) (pending : List ℕ) (cs : List CompletedPart) (w : Objects) (b : List ℕ)
      → IsUploaded w.parts cs b
      → length pending ≤ n
      → Full w.objects
          (b ++ pending)
          ((upload_full cfg met n pending cs w).0)
          ((upload_full cfg met n pending cs w).1)
  unfolding upload_full upload_multipart_part
  upload_full-Full zero pending cs w b h few = ((b, h, refl, refl), omega arith)
  upload_full-Full (suc n) pending cs w b h few =
      elim (Bool-cases (leb (part_size cfg met) (length pending))) [
        | inr e ↦ rw (upload_full, e) ((b, h, refl, refl), ground arith)
        | inl e ↦ elim (Result-cases (met.upload_part (length cs + 1))) [
          | inr (x, u) ↦
              rw (upload_full, e, upload_multipart_part, u) (refl, at_part (length cs + 1) u)
          | inl (etag, u) ↦
              let s = part_size cfg met in
              let rest =
                upload_full-Full n (drop s pending)
                  (cs ++ record { part_number = length cs + 1; etag = etag } ∷ [])
                  (record w { parts = (length cs + 1, take s pending) ∷ w.parts })
                  (b ++ take s pending) (IsUploaded-one_more w.parts cs b (take s pending) etag h)
                  (ground (arith, length-drop s pending)) in
              rw (upload_full, e, upload_multipart_part, u)
                (rw (append_assoc b (take s pending) (drop s pending), take-drop s pending) at rest)
        ]
      ]
