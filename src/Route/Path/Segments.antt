-- ===== src/Route/Path/Segments.antt =====
-- The segments of a path that is put together.
use mathlib.Core.List.{append_assoc, append-nil}
use spacegate.Common.{
  ℕ, ◌==◌, ◌≡◌, ◌≢◌, refl, sym, ap, ap₂, ◌∙◌, Str, split, split_cons, is_empty, not, keep,
  trim_matches, trim_start_matches, trim_end_matches, Bool, true, ◌&&◌, List, [], ◌∷◌, ◌++◌, arith,
  All, Bool-cases, inl, inr, replicate, zero, suc, ==_iff,
}
use spacegate.Route.Path.{path_segments, push_segments}

module _ {ℓ} {A : Type ℓ} where
  keep-append : (p : A → Bool) (xs ys : List A) → keep p (xs ++ ys) ≡ keep p xs ++ keep p ys
  keep-append p [] ys = refl
  keep-append p (x ∷ xs) ys = ground (arith, keep-append p xs ys)

split_cons-ne_nil : (c : ℕ) (ps : List Str) → split_cons c ps ≢ []
split_cons-ne_nil c [] h = cc
split_cons-ne_nil c (p ∷ ps) h = cc

and_true : (a b : Bool) → (a && b) ≡ true → (a ≡ true) × (b ≡ true)
and_true a b h = ground arith

pub is_empty-nil : (s : Str) → is_empty s ≡ true → s ≡ []
is_empty-nil [] h = refl
is_empty-nil (c ∷ s) h = cc

-- No text has no piece.
split-cons : (s : Str) → split b'/' s ≢ []
unfolding split
split-cons [] h = cc
split-cons (c ∷ s) h = ground (arith, split_cons-ne_nil c (split b'/' s))

split_cons-append :
    (c : ℕ) (ps qs : List Str) → ps ≢ [] → split_cons c (ps ++ qs) ≡ split_cons c ps ++ qs
split_cons-append c [] qs h = absurd (h refl)
split_cons-append c (p ∷ ps) qs h = refl

split-append_slash : (s t : Str) → split b'/' (s ++ b'/' ∷ t) ≡ split b'/' s ++ split b'/' t
unfolding split
split-append_slash [] t = refl
split-append_slash (c ∷ s) t = ground (
  arith,
  split-append_slash s t,
  split_cons-append c (split b'/' s) (split b'/' t) (split-cons s),
)

pub path_segments-append_slash :
    (s t : Str) → path_segments (s ++ b'/' ∷ t) ≡ path_segments s ++ path_segments t
unfolding path_segments
path_segments-append_slash s t =
    ap (keep (λ p. not (is_empty p))) (split-append_slash s t)
    ∙ keep-append (λ p. not (is_empty p)) (split b'/' s) (split b'/' t)

pub path_segments-slash : (t : Str) → path_segments (b'/' ∷ t) ≡ path_segments t
unfolding path_segments
path_segments-slash t = refl

pub path_segments-trim_start :
    (s : Str) → path_segments (trim_start_matches b'/' s) ≡ path_segments s
path_segments-trim_start [] = refl
path_segments-trim_start (c ∷ s) = elim (Bool-cases (c == b'/')) [
  | inl slash ↦
      let same : c ≡ b'/' = (==_iff c b'/').0 slash in
      rw slash (
        path_segments-trim_start s
        ∙ sym (path_segments-slash s)
        ∙ ap (λ d. path_segments (d ∷ s)) (sym same))
  | inr other ↦ rw other refl
]

all_taken :
    (d c : ℕ) (s : Str) (n : ℕ)
    → s ≡ trim_end_matches d s ++ replicate n d
    → (is_empty (trim_end_matches d s) && c == d) ≡ true
    → c ∷ s ≡ trim_end_matches d (c ∷ s) ++ replicate (suc n) d
all_taken d c s n e h =
    let (none_left, same) = and_true (is_empty (trim_end_matches d s)) (c == d) h in
    rw h (
      ap₂ ◌∷◌ ((==_iff c d).0 same)
        (e ∙ ap (λ t. t ++ replicate n d) (is_empty-nil (trim_end_matches d s) none_left)))

-- What `trim_end_matches` takes away.
trim_end-replicate : (d : ℕ) (s : Str) → (n : ℕ) × (s ≡ trim_end_matches d s ++ replicate n d)
trim_end-replicate d [] = (0, refl)
trim_end-replicate d (c ∷ s) =
    let (n, e) = trim_end-replicate d s in
    elim (Bool-cases (is_empty (trim_end_matches d s) && c == d)) [
      | inl all_slash ↦ (suc n, all_taken d c s n e all_slash)
      | inr other ↦ (n, rw other (ap (◌∷◌ c) e))
    ]

path_segments-replicate : (n : ℕ) → path_segments (replicate n b'/') ≡ []
unfolding path_segments split
path_segments-replicate zero = refl
path_segments-replicate (suc n) = path_segments-replicate n

path_segments-append_replicate :
    (t : Str) (n : ℕ) → path_segments (t ++ replicate n b'/') ≡ path_segments t
path_segments-append_replicate t zero = ap path_segments (append-nil t)
path_segments-append_replicate t (suc n) =
    path_segments-append_slash t (replicate n b'/')
    ∙ ap (◌++◌ (path_segments t)) (path_segments-replicate n)
    ∙ append-nil (path_segments t)

path_segments-trim_end : (s : Str) → path_segments (trim_end_matches b'/' s) ≡ path_segments s
path_segments-trim_end s =
    let (n, e) = trim_end-replicate b'/' s in
    sym (path_segments-append_replicate (trim_end_matches b'/' s) n) ∙ ap path_segments (sym e)

pub path_segments-trim : (s : Str) → path_segments (trim_matches b'/' s) ≡ path_segments s
path_segments-trim s =
    path_segments-trim_end (trim_start_matches b'/' s) ∙ path_segments-trim_start s

-- A segment of a path: it holds no slash, and it is not empty.
abbrev pub NoSlash : Str → Type 0
NoSlash s = All (λ c. c ≢ b'/') s

abbrev pub IsSegment : Str → Type 0
IsSegment s = NoSlash s × (s ≢ [])

split-one : (s : Str) → NoSlash s → split b'/' s ≡ s ∷ []
unfolding split
split-one [] h = refl
split-one (c ∷ s) h = ground (arith, split-one s h.1)

pub path_segments-segment : (s : Str) → IsSegment s → path_segments s ≡ s ∷ []
unfolding path_segments
path_segments-segment [] h = absurd (h.1 refl)
path_segments-segment (c ∷ s) h = rw (split-one (c ∷ s) h.0) refl

split_cons-NoSlash :
    (c : ℕ) (ps : List Str) → c ≢ b'/' → All NoSlash ps → All NoSlash (split_cons c ps)
split_cons-NoSlash c [] h k = ((h, tt), tt)
split_cons-NoSlash c (p ∷ ps) h k = ((h, k.0), k.1)

split-NoSlash : (s : Str) → All NoSlash (split b'/' s)
unfolding split
split-NoSlash [] = (tt, tt)
split-NoSlash (c ∷ s) = elim (Bool-cases (c == b'/')) [
  | inl slash ↦ rw slash (tt, split-NoSlash s)
  | inr other ↦ rw other (split_cons-NoSlash c (split b'/' s) (ground arith) (split-NoSlash s))
]

keep-IsSegment : (ps : List Str) → All NoSlash ps → All IsSegment (keep (λ p. not (is_empty p)) ps)
keep-IsSegment [] h = tt
keep-IsSegment ([] ∷ ps) h = keep-IsSegment ps h.1
keep-IsSegment ((c ∷ p) ∷ ps) h = ((h.0, λ e. cc), keep-IsSegment ps h.1)

pub path_segments-IsSegment : (s : Str) → All IsSegment (path_segments s)
unfolding path_segments
path_segments-IsSegment s = keep-IsSegment (split b'/' s) (split-NoSlash s)

-- What may stand behind the last segment.
pub data IsEnd : Str → Type 0 where
  no_slash : IsEnd []
  slash : IsEnd (b'/' ∷ [])

-- Segments pushed behind a text that a slash closes.
pub path_segments-push :
    (t : Str) (ss : List Str) {last : Str}
    → IsEnd last
    → All IsSegment ss
    → path_segments (t ++ (push_segments ss ++ last)) ≡ path_segments t ++ ss
unfolding path_segments split
path_segments-push t [] no_slash h =
    ap path_segments (append-nil t) ∙ sym (append-nil (path_segments t))
path_segments-push t [] slash h = path_segments-append_slash t []
path_segments-push t (s ∷ ss) {last} k h =
    path_segments-append_slash t ((s ++ push_segments ss) ++ last)
    ∙ ap (◌++◌ (path_segments t)) (
        ap path_segments (append_assoc s (push_segments ss) last)
        ∙ path_segments-push s ss k h.1
        ∙ ap (λ x. x ++ ss) (path_segments-segment s h.0))
